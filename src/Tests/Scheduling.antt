-- ===== src/Tests/Scheduling.antt =====
-- The scheduler, the switches and the queues at concrete states.
use soproyecto.Common.{take, ℕ, ◌≡◌, refl, Bool, ok, ◌>>=◌, List, [], ◌∷◌, arith}
use soproyecto.Tests.Demo.{
  slot, shell, family, queues, reader, idle_kernel, gives_back, gives_back-KeepsMachine,
  idle_kernel-IsIdle, shell-MayLock,
}
use soproyecto.Proc.Defs.{Proc, Kernel, runnable, running, switchuvm, switchkvm, write_proc}
use soproyecto.Proc.Enter.{left}
use soproyecto.Proc.Table.{is_ready, find_index}
use soproyecto.Proc.Scan.{IsFirst}
use soproyecto.Proc.Sched.{scheduler_round, sleep, sleep_steps, run_steps, kill}
use soproyecto.Proc.Sched.Round.{dispatched, regained, opened, ran}
use soproyecto.Proc.Sched.Policy.{turned, high_queue-IsFirst, low_queue_follows}
use soproyecto.Proc.Sched.Sleep.{dozing, handed_over, IsGuarded, sleep_lem}
use soproyecto.Proc.Sched.Killing.{Killed, kill_lem}
use soproyecto.Machine.{acquire, release}
use soproyecto.Machine.Locks.{settled, release-acquire}
use soproyecto.Trap.Queues.{Place, charges, charges_lem}

high_queue-IsFirst_example :
    (j : ℕ) × IsFirst (is_ready 0) queues j
    × (scheduler_round (gives_back 2) (gives_back 1) (idle_kernel queues)
        ≡ ok (
            turned (idle_kernel queues) (
              ran 1
                (gives_back 1)
                (regained (gives_back 2 (dispatched j (opened (idle_kernel queues))))))))
unfolding is_ready
high_queue-IsFirst_example =
    high_queue-IsFirst (gives_back 2) (gives_back 1) (idle_kernel queues)
      (gives_back-KeepsMachine 2) (gives_back-KeepsMachine 1) (idle_kernel-IsIdle queues) 3
      (slot runnable 4 1 0 0) refl refl

low_queue_follows_example :
    (l : ℕ) × IsFirst
      (is_ready 1)
      (gives_back 2 (dispatched 2 (opened (idle_kernel queues)))).procs
      l
    × (scheduler_round (gives_back 2) (gives_back 1) (idle_kernel queues)
        ≡ ok (
            turned (idle_kernel queues) (
              regained (
                gives_back 1 (
                  dispatched l
                    (regained (gives_back 2 (dispatched 2 (opened (idle_kernel queues))))))))))
unfolding is_ready find_index
low_queue_follows_example =
    low_queue_follows (gives_back 2) (gives_back 1) (idle_kernel queues) (gives_back-KeepsMachine 2)
      (gives_back-KeepsMachine 1) (idle_kernel-IsIdle queues) 2 1 (slot runnable 2 1 0 1) refl refl
      refl

-- The table at that turn: slot 1 of the low queue ran although slots 2 and 3 of the high queue are
-- ready.
calls_of_turn :
    (ran 1 (gives_back 1) (ran 0 (gives_back 2) (opened (idle_kernel queues)))).calls
    ≡ switchkvm ∷ switchuvm 2 ∷ switchkvm ∷ switchuvm 3 ∷ []
unfolding is_ready find_index
calls_of_turn = refl

-- The shell holds a lock of its own, at address 70, and sleeps on channel 70.
sleep_lem_example :
    ((n : ℕ)
      → (k' : Kernel) × (run_steps (take n (sleep_steps 70 70 2)) reader ≡ ok k')
        × IsGuarded 70 k'.machine)
    × (sleep (gives_back 1) 70 70 reader
        ≡ ok (record (gives_back 1 (dozing 70 (handed_over 70 reader.machine) reader)) {
          machine = reader.machine;
          procs =
              write_proc
                (gives_back 1 (dozing 70 (handed_over 70 reader.machine) reader)).procs
                2
                (λ r. record r { chan = 0 });
        }))
sleep_lem_example =
    sleep_lem (gives_back 1) 70 70 reader (gives_back-KeepsMachine 1)
      (record {
        not_null = λ e. absurd (omega arith);
        other = λ e. absurd (omega arith);
        held = refl;
        table_free = refl;
        once = refl;
        off = refl;
      })
      refl refl

charges_lem_example : Place 7 (charges 7 (slot running 2 1 0 0))
charges_lem_example = charges_lem 7 (slot running 2 1 0 0) refl refl

release-acquire_example :
    (acquire 70 shell.machine >>= release 70)
    ≡ ok (record shell.machine { cpu = settled shell.machine.cpu })
release-acquire_example = release-acquire 70 shell.machine (shell-MayLock 70 2)

kill_lem_example :
    (b : Bool) × (ps : List Proc) × (kill 2 shell
      ≡ ok (b, record shell { machine = left shell.machine; procs = ps }))
    × Killed 2 family (b, ps)
kill_lem_example = kill_lem 2 shell (shell-MayLock 65 2)
