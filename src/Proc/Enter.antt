-- ===== src/Proc/Enter.antt =====
-- Entering and leaving a critical section of the kernel: lock, unlock and myproc.
use soproyecto.Common.{ℕ, ◌+◌, ◌<◌, ◌^◌, ◌≡◌, ap, ◌∙◌, false, ok, some, arith}
use soproyecto.Machine.{Cpu, Machine, held_by, update, release}
use soproyecto.Machine.Locks.{
  pushed, settled, IsPushed-pushed, MayLock, pushcli-pushed, mycpu-pushed, popped-settled,
  locks-settled, acquire-unlocked, release-held, popcli-popped,
}
use soproyecto.Proc.Defs.{
  Kernel, lock, unlock, myproc, with_cpu, Proc, proc_at, write_proc, deref, assign,
}

-- The machine within a critical section on `lk`, and after it.
abbrev pub entered : ℕ → Machine → Machine
entered lk m = record { cpu = pushed m.cpu; locks = update m.locks lk (held_by m.cpu.id) }

abbrev pub left : Machine → Machine
left m = record m { cpu = settled m.cpu }

pub lock-entered :
    (lk : ℕ) (k : Kernel)
    → MayLock lk k.machine
    → lock lk k ≡ ok (record k { machine = entered lk k.machine })
unfolding lock
lock-entered lk k may = rw (acquire-unlocked lk k.machine may.free may.room)

pub release-entered :
    (lk : ℕ) (m : Machine) → MayLock lk m → release lk (entered lk m) ≡ ok (left m)
release-entered lk m may =
    release-held lk (entered lk m) (ground arith) (IsPushed-pushed m.cpu (omega (arith, may.room)))
      (omega (arith, may.room))
    ∙ (λ i. ok (record {
      cpu = popped-settled m.cpu may.nested i;
      locks = locks-settled m.locks lk (held_by m.cpu.id) may.free i;
    }))

-- Whatever a critical section does to the rest of the kernel, leaving it restores the machine.
pub unlock-entered :
    (lk : ℕ) (m : Machine) (k : Kernel)
    → MayLock lk m
    → k.machine ≡ entered lk m
    → unlock lk k ≡ ok (record k { machine = left m })
unfolding unlock
unlock-entered lk m k may e = rw (ap (release lk) e ∙ release-entered lk m may)

-- `myproc` may be called with interrupts on or off.
pub record IsCalm (c : Cpu) : Type 0 where
  pub nested : 0 < c.ncli → c.interrupts ≡ false
  pub room : c.ncli + 1 < 2 ^ 31

pub myproc_lem :
    (k : Kernel)
    → IsCalm k.machine.cpu
    → myproc k ≡ ok (k.machine.cpu.proc, with_cpu (settled k.machine.cpu) k)
unfolding myproc
myproc_lem k calm = rw (pushcli-pushed k.machine.cpu (omega (arith, calm.room))) (
    rw (mycpu-pushed (pushed k.machine.cpu) (IsPushed-pushed k.machine.cpu calm.room)) (
      rw (popcli-popped (pushed k.machine.cpu) (IsPushed-pushed k.machine.cpu calm.room))
        (λ i. ok (k.machine.cpu.proc, with_cpu (popped-settled k.machine.cpu calm.nested i) k))))

pub deref_lem : (p : ℕ) (k : Kernel) {r : Proc} → proc_at k.procs p ≡ some r → deref p k ≡ ok r
unfolding deref
deref_lem p k e = rw (deref, e)

pub assign_lem :
    (p : ℕ) (f : Proc → Proc) (k : Kernel) {r : Proc}
    → proc_at k.procs p ≡ some r
    → assign p f k ≡ ok (record k { procs = write_proc k.procs p f })
unfolding assign
assign_lem p f k e = rw (deref_lem p k e)

pub MayLock-left : (lk : ℕ) (m : Machine) → MayLock lk m → MayLock lk (left m)
MayLock-left lk m may = record { free = may.free; nested = may.nested; room = may.room }

pub settled-settled : (c : Cpu) → settled (settled c) ≡ settled c
settled-settled c = ground arith

pub left-left : (m : Machine) → left (left m) ≡ left m
left-left m = λ i. record m { cpu = settled-settled m.cpu i }
