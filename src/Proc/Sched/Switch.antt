-- ===== src/Proc/Sched/Switch.antt =====
-- What sched, yield, sleep and wakeup do around a context switch.
use soproyecto.Common.{
  ℕ, zero, suc, ◌+◌, ◌<◌, ◌^◌, ◌≡◌, refl, ◌∙◌, true, false, some, List, ok, stop, arith,
  panic_sched_locks,
}
use soproyecto.Machine.{Machine, held_by, mycpu, holding}
use soproyecto.Machine.Locks.{MayLock, settled, holding-pushed}
use soproyecto.Proc.Defs.{
  runnable, running, is_state, Proc, Kernel, ptable_lock, proc_at, write_proc, with_state, with_cpu,
  myproc,
}
use soproyecto.Proc.Enter.{
  entered, left, lock-entered, unlock-entered, assign_lem, deref_lem, myproc_lem,
}
use soproyecto.Proc.Table.{wakeup1}
use soproyecto.Proc.Scan.{get_elem?-modify_self}
use soproyecto.Proc.Sched.{sched, yield_cpu, wakeup}
use soproyecto.Proc.Sched.Round.{KeepsMachine}

-- A thread that holds the table's lock and no other.
pub record InSection (m : Machine) : Type 0 where
  pub held : m.locks ptable_lock ≡ held_by m.cpu.id
  pub once : m.cpu.ncli ≡ 1
  pub off : m.cpu.interrupts ≡ false

-- `myproc` with one lock held changes nothing.
pub myproc-nested :
    (k : Kernel)
    → k.machine.cpu.ncli ≡ 1
    → k.machine.cpu.interrupts ≡ false
    → myproc k ≡ ok (k.machine.cpu.proc, k)
myproc-nested k once off =
    myproc_lem k (record { nested = λ h. off; room = omega arith })
    ∙ (λ i. ok (k.machine.cpu.proc, with_cpu (same i) k))
  where
    same : settled k.machine.cpu ≡ k.machine.cpu
    same = ground arith

pub myproc-section : (k : Kernel) → InSection k.machine → myproc k ≡ ok (k.machine.cpu.proc, k)
myproc-section k s = myproc-nested k s.once s.off

pub holding-section :
    (m : Machine) → InSection m → holding (m.locks ptable_lock) m.cpu ≡ ok (true, m.cpu)
holding-section m s =
    holding-pushed (m.locks ptable_lock) m.cpu
      (record { off = s.off; deep = omega (arith, s.once); small = omega (arith, s.once) })
      (omega (arith, s.once))
    ∙ rw s.held (ground arith)

-- sched passes its checks and switches, if the process has left RUNNING.
pub sched_lem :
    (swtch : Kernel → Kernel) (k : Kernel) {r : Proc}
    → KeepsMachine swtch
    → InSection k.machine
    → proc_at k.procs k.machine.cpu.proc ≡ some r
    → is_state r.state running ≡ false
    → sched swtch k ≡ ok (record (swtch k) { machine = k.machine })
unfolding sched mycpu
sched_lem swtch k keeps s at idle = rw (myproc-section k s) (
    rw (holding-section k.machine s)
      (ground (arith, s.once, s.off, deref_lem k.machine.cpu.proc k at, keeps k)))

-- A second lock held at the switch is a panic.
pub sched-nested :
    (swtch : Kernel → Kernel) (k : Kernel)
    → k.machine.locks ptable_lock ≡ held_by k.machine.cpu.id
    → k.machine.cpu.interrupts ≡ false
    → 1 < k.machine.cpu.ncli
    → k.machine.cpu.ncli + 2 < 2 ^ 31
    → sched swtch k ≡ stop panic_sched_locks
unfolding sched mycpu
sched-nested swtch k held off deep room =
    rw (myproc_lem k (record { nested = λ h. off; room = omega arith })) (
      rw
        (holding-pushed (k.machine.locks ptable_lock) (settled k.machine.cpu)
          (record { off = off; deep = omega arith; small = omega arith }) (omega arith))
        (rw held (ground (arith, off))))

-- A section on the table's lock, entered with no lock held.
pub InSection-entered : (m : Machine) → m.cpu.ncli ≡ 0 → InSection (entered ptable_lock m)
InSection-entered m zero' = record { held = ground arith; once = omega arith; off = refl }

-- The state in which yield switches away.
abbrev pub yielding : Kernel → Kernel
yielding k = record k {
  machine = entered ptable_lock k.machine;
  procs = write_proc k.procs k.machine.cpu.proc (with_state runnable);
}

abbrev pub IsRunner : Kernel → Proc → Type 0
IsRunner k r = proc_at k.procs k.machine.cpu.proc ≡ some r

pub proc_at-write :
    (ps : List Proc) (p : ℕ) (f : Proc → Proc) {r : Proc}
    → proc_at ps p ≡ some r
    → proc_at (write_proc ps p f) p ≡ some (f r)
proc_at-write ps zero f e = absurd (cc)
proc_at-write ps (suc i) f e = get_elem?-modify_self ps i f e

-- yield: the process is RUNNABLE and the lock is held at the switch, and once it is back the lock
-- is free again.
pub yield_lem :
    (swtch : Kernel → Kernel) (k : Kernel) {r : Proc}
    → KeepsMachine swtch
    → MayLock ptable_lock k.machine
    → k.machine.cpu.ncli ≡ 0
    → IsRunner k r
    → yield_cpu swtch k ≡ ok (record (swtch (yielding k)) { machine = left k.machine })
unfolding yield_cpu
yield_lem swtch k {r} keeps may zero' at =
    let inside = InSection-entered k.machine zero' in
    rw (lock-entered ptable_lock k may) (
      rw (myproc-section (record k { machine = entered ptable_lock k.machine }) inside) (
        rw
          (assign_lem k.machine.cpu.proc (with_state runnable)
            (record k { machine = entered ptable_lock k.machine }) at)
          (rw
            (sched_lem swtch (yielding k) keeps inside
              (proc_at-write k.procs k.machine.cpu.proc (with_state runnable) at) refl)
            (unlock-entered ptable_lock k.machine _ may refl))))

-- wakeup: the table has its sleepers on the channel woken, and nothing else changes.
pub wakeup_lem :
    (chan : ℕ) (k : Kernel)
    → MayLock ptable_lock k.machine
    → wakeup chan k ≡ ok (record k { machine = left k.machine; procs = wakeup1 chan k.procs })
unfolding wakeup
wakeup_lem chan k may =
    rw (lock-entered ptable_lock k may) (unlock-entered ptable_lock k.machine _ may refl)
