-- ===== src/Proc/Alloc/Leftover.antt =====
-- What a fork that fails leaves behind, as kill sees it.
use soproyecto.Common.{ℕ, ◌≡◌, true, false, none, some, List, ok, arith}
use soproyecto.Machine.Locks.{MayLock}
use soproyecto.Proc.Defs.{Proc, Kernel, ptable_lock, modify}
use soproyecto.Proc.Enter.{left, MayLock-left}
use soproyecto.Proc.Table.{find_index, is_unused, mark_killed}
use soproyecto.Proc.Scan.{find_index-some, find_index_of_pass, get_elem?-modify_self}
use soproyecto.Proc.Sched.{kill}
use soproyecto.Proc.Sched.Switch.{IsRunner}
use soproyecto.Proc.Sched.Killing.{has_pid, kill_found}
use soproyecto.Proc.Alloc.{fork}
use soproyecto.Proc.Alloc.New.{abandoned, with_abandoned}
use soproyecto.Proc.Alloc.Fork.{fork-no_stack}

-- After a fork that fails for want of a stack, kill reports success for the pid that was spent on
-- it.
pub kill-fork :
    (k : Kernel) (pgdir i : ℕ) {parent : Proc}
    → MayLock ptable_lock k.machine
    → find_index is_unused k.procs ≡ some i
    → IsRunner k parent
    → is_unused parent ≡ false
    → (k' : Kernel) × (ps : List Proc) × (fork 0 pgdir k ≡ ok (none, k'))
      × (kill k.nextpid k' ≡ ok (true, record k' { machine = left k'.machine; procs = ps }))
kill-fork k pgdir i may e at used =
    let k' = with_abandoned i k in
    let slot = find_index-some is_unused k.procs i e in
    let (j, found) =
      find_index_of_pass (has_pid k.nextpid) k'.procs i (abandoned k.nextpid slot.slot)
        (get_elem?-modify_self k.procs i (abandoned k.nextpid) slot.at) (ground arith) in
    (
      k',
      modify k'.procs j mark_killed,
      fork-no_stack k may i e at used pgdir,
      kill_found k.nextpid k' (MayLock-left ptable_lock k.machine may) j found,
    )
