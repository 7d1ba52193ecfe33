-- ===== src/Tests.antt =====
-- Runs of the model at concrete states, and the theorems at inputs where their conditions hold.
mod Demo
mod Scheduling
mod Processes
mod Memory
mod Paths
mod Pipes
mod Strings
mod Trees
mod Spaces
mod Files
mod Calls
mod Buffers
mod Logs
mod Inodes
