-- ===== src/Proc/Sched/Section.antt =====
-- Sections on another lock, in which sleepers are woken: the table's lock is taken within them.
use soproyecto.Common.{
  ℕ, ◌+◌, ◌^◌, ◌<◌, ◌≡◌, ◌≢◌, refl, ap, ◌∙◌, false, Run, ok, ◌==◌, ◌>>=◌, if◌then◌else◌, arith,
}
use soproyecto.Machine.{Machine, unlocked}
use soproyecto.Machine.Locks.{pushed, MayLock}
use soproyecto.Proc.Defs.{Kernel, ptable_lock, unlock, myproc}
use soproyecto.Proc.Enter.{entered, left, unlock-entered, myproc_lem}
use soproyecto.Proc.Table.{wakeup1}
use soproyecto.Proc.Sched.{wakeup}
use soproyecto.Proc.Sched.Switch.{wakeup_lem}

-- Both the lock `p` and that of the table may be taken, the second within the first.
pub record MayUse (p : ℕ) (m : Machine) : Type 0 where
  pub own : MayLock p m
  pub table : m.locks ptable_lock ≡ unlocked
  pub apart : p ≢ ptable_lock
  pub room : m.cpu.ncli + 3 < 2 ^ 31

pub MayLock-inside : (p : ℕ) (m : Machine) → MayUse p m → MayLock ptable_lock (entered p m)
MayLock-inside p m may = record {
  free = ground (arith, may.table, may.apart);
  nested = λ _. refl;
  room = omega (arith, may.room);
}

pub left-entered : (p : ℕ) (m : Machine) → left (entered p m) ≡ entered p m
left-entered p m =
    let deep : (m.cpu.ncli + 1 == 0) ≡ false = ground arith in
    ap
      (λ b. record (entered p m) {
        cpu = record (pushed m.cpu) { intena = if b then false else (pushed m.cpu).intena };
      })
      deep

-- A section on the lock ends by waking the sleepers on `chan`.
pub finish :
    {A : Type 0} (p chan : ℕ) (m : Machine) (k : Kernel) (next : Kernel → Run A)
    → MayUse p m
    → (wakeup chan (record k { machine = entered p m }) >>= λ k. unlock p k >>= next)
      ≡ next (record k { machine = left m; procs = wakeup1 chan k.procs })
finish p chan m k next may =
    rw (wakeup_lem chan (record k { machine = entered p m }) (MayLock-inside p m may)) (
      rw
        (unlock-entered p m
          (record k { machine = left (entered p m); procs = wakeup1 chan k.procs }) may.own
          (left-entered p m))
        refl)

-- myproc within a section changes nothing.
pub myproc-entered :
    (p : ℕ) (m : Machine) (k : Kernel)
    → MayUse p m
    → myproc (record k { machine = entered p m })
      ≡ ok (m.cpu.proc, record k { machine = entered p m })
myproc-entered p m k may =
    myproc_lem (record k { machine = entered p m })
      (record { nested = λ _. refl; room = omega (arith, may.room) })
    ∙ ap (λ s. ok (m.cpu.proc, record k { machine = s })) (left-entered p m)
