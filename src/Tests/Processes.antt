-- ===== src/Tests/Processes.antt =====
-- fork, exit and wait at concrete states.
use soproyecto.Common.{ℕ, ◌≡◌, refl, true, none, some, ok, List, [], ◌∷◌, get_elem?, arith}
use soproyecto.Tests.Demo.{slot, shell, family, shell-MayLock}
use soproyecto.Proc.Defs.{
  running, runnable, zombie, Proc, Kernel, begin_op, end_op, iput, fileclose,
}
use soproyecto.Proc.Enter.{entered, left}
use soproyecto.Proc.Table.{find_index, is_unused, reparent}
use soproyecto.Proc.Alloc.{fork}
use soproyecto.Proc.Alloc.Fork.{forked, fork_lem}
use soproyecto.Proc.Alloc.Leftover.{kill-fork}
use soproyecto.Proc.Sched.{kill}
use soproyecto.Proc.Scan.{IsFirst}
use soproyecto.Proc.Life.{exit_prepare, wait}
use soproyecto.Proc.Life.End.{IsEnded, exit_lem}
use soproyecto.Proc.Life.Orphans.{NoSleeper, reparent-wakes}
use soproyecto.Proc.Life.Collect.{is_dead_child, collected, wait_collects}

fork_lem_example :
    fork 16384 901 shell ≡ ok (some 7, forked 4 16384 901 (slot running 2 1 0 0) shell)
unfolding find_index is_unused
fork_lem_example =
    fork_lem shell (shell-MayLock 65 2) 4 refl refl refl 16384 901 (omega arith) (omega arith)

kill-fork_example :
    (k' : Kernel) × (ps : List Proc) × (fork 0 901 shell ≡ ok (none, k'))
    × (kill 7 k' ≡ ok (true, record k' { machine = left k'.machine; procs = ps }))
unfolding find_index is_unused
kill-fork_example =
    kill-fork shell 901 4 {parent = slot running 2 1 0 0} (shell-MayLock 65 2) refl refl refl

exit_lem_example :
    (ps : List Proc) × (exit_prepare shell
      ≡ ok (record shell {
        machine = entered 65 (left shell.machine);
        procs = ps;
        calls = end_op ∷ iput 80 ∷ begin_op ∷ fileclose 70 ∷ [];
      }))
    × IsEnded shell (slot running 2 1 0 0) ps
exit_lem_example = exit_lem shell (shell-MayLock 65 2) (omega arith) refl

-- init sleeps in slot 0, and the shell leaves a zombie in slot 2.
reparent-wakes_example :
    NoSleeper 1 (reparent 64 1 2 1 family)
    × (init' : Proc) × (get_elem? (reparent 64 1 2 1 family) 0 ≡ some init')
    × (init'.state ≡ runnable)
reparent-wakes_example =
    reparent-wakes 2 1 64 0 2 0 family (omega arith) refl (record { child = refl; dead = refl })
      refl refl

wait_collects_example :
    (i : ℕ) × (f : IsFirst (is_dead_child 2) family i) × (wait [] shell
      ≡ ok (some f.slot.pid, collected i f.slot shell))
wait_collects_example =
    wait_collects [] shell (shell-MayLock 65 2) 2 (slot zombie 3 2 0 1) refl refl
