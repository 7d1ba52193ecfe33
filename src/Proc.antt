-- ===== src/Proc.antt =====
-- proc.c and proc.h of the modified kernel: the process table and its operations.
pub mod Defs
pub mod Enter
pub mod Table
pub mod Scan
pub mod Sched
pub mod Alloc
pub mod Life
