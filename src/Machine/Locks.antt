-- ===== src/Machine/Locks.antt =====
-- pushcli, popcli, holding, acquire and release of spinlock.c.
use soproyecto.Common.{
  ℕ, ◌+◌, ◌-◌, ◌^◌, ◌<◌, ◌≡◌, fun_ext, ◌∙◌, ◌>>=◌, false, ◌&&◌, ok, stop, ◌==◌, arith,
  if◌then◌else◌, panic_acquire,
}
use soproyecto.Machine.{
  Cpu, Spinlock, Machine, unlocked, held_by, update, pushcli, popcli, holding, acquire, release,
  mycpu, is_cpu,
}

-- The CPU after one more `pushcli`.
abbrev pub pushed : Cpu → Cpu
pushed c = record c {
  interrupts = false;
  intena = if c.ncli == 0 then c.interrupts else c.intena;
  ncli = c.ncli + 1;
}

pub pushcli-pushed : (c : Cpu) → c.ncli < 2 ^ 31 → pushcli c ≡ ok (pushed c)
unfolding pushcli
pushcli-pushed c h = ground arith

-- Interrupts are off within a `pushcli`.
pub record IsPushed (c : Cpu) : Type 0 where
  pub off : c.interrupts ≡ false
  pub deep : 0 < c.ncli
  pub small : c.ncli < 2 ^ 31

-- The CPU after the `popcli` that undoes a `pushcli`.
abbrev pub popped : Cpu → Cpu
popped c = record c { interrupts = if c.ncli == 1 then c.intena else false; ncli = c.ncli - 1 }

pub popcli-popped : (c : Cpu) → IsPushed c → popcli c ≡ ok (popped c)
unfolding popcli
popcli-popped c h = ground arith

pub mycpu-pushed : (c : Cpu) → IsPushed c → mycpu c ≡ ok c
unfolding mycpu
mycpu-pushed c h = rw h.off

pub IsPushed-pushed : (c : Cpu) → c.ncli + 1 < 2 ^ 31 → IsPushed (pushed c)
IsPushed-pushed c h = ground arith

-- A `popcli` after a `pushcli`: only the saved flag of an outermost pair stays behind.
pub popped-pushed :
    (c : Cpu)
    → c.ncli + 1 < 2 ^ 31
    → popcli (pushed c)
      ≡ ok (record c {
        interrupts = if c.ncli == 0 then c.interrupts else false;
        intena = if c.ncli == 0 then c.interrupts else c.intena;
      })
popped-pushed c h = popcli-popped (pushed c) (IsPushed-pushed c h) ∙ ground arith

-- Inside a critical section `holding` answers its question and changes nothing.
pub holding-pushed :
    (lk : Spinlock) (c : Cpu)
    → IsPushed c
    → c.ncli + 1 < 2 ^ 31
    → holding lk c ≡ ok (lk.locked && is_cpu lk.cpu c.id, c)
unfolding holding
holding-pushed lk c h room = ground (
  arith,
  h.off,
  h.deep,
  pushcli-pushed c h.small,
  mycpu-pushed (pushed c) (IsPushed-pushed c room),
  popped-pushed c room,
)

pub acquire-unlocked :
    (lk : ℕ) (m : Machine)
    → m.locks lk ≡ unlocked
    → m.cpu.ncli + 2 < 2 ^ 31
    → acquire lk m
      ≡ ok (record m { cpu = pushed m.cpu; locks = update m.locks lk (held_by m.cpu.id) })
unfolding acquire
acquire-unlocked lk m free room =
    rw
      (
        pushcli-pushed m.cpu (omega arith),
        holding-pushed (m.locks lk) (pushed m.cpu) (IsPushed-pushed m.cpu (omega arith))
            (omega arith),
      )
      (rw free (rw (mycpu-pushed (pushed m.cpu) (IsPushed-pushed m.cpu (omega arith)))))

-- Acquiring a lock that this CPU holds already is a panic.
pub acquire-held :
    (lk : ℕ) (m : Machine)
    → m.locks lk ≡ held_by m.cpu.id
    → m.cpu.ncli + 2 < 2 ^ 31
    → acquire lk m ≡ stop panic_acquire
unfolding acquire
acquire-held lk m held room =
    rw
      (
        pushcli-pushed m.cpu (omega arith),
        holding-pushed (m.locks lk) (pushed m.cpu) (IsPushed-pushed m.cpu (omega arith))
            (omega arith),
      )
      (rw held (ground arith))

pub release-held :
    (lk : ℕ) (m : Machine)
    → m.locks lk ≡ held_by m.cpu.id
    → IsPushed m.cpu
    → m.cpu.ncli + 1 < 2 ^ 31
    → release lk m ≡ ok (record m { cpu = popped m.cpu; locks = update m.locks lk unlocked })
unfolding release
release-held lk m held h room =
    rw (holding-pushed (m.locks lk) m.cpu h room, popcli-popped m.cpu h) (rw held (ground arith))

-- The CPU after a critical section: as it was, but for the saved flag of an outermost section.
abbrev pub settled : Cpu → Cpu
settled c = record c { intena = if c.ncli == 0 then c.interrupts else c.intena }

-- What a thread that may take `lk` next looks like: the lock is free, and interrupts are off
-- within a `pushcli`.
pub record MayLock (lk : ℕ) (m : Machine) : Type 0 where
  pub free : m.locks lk ≡ unlocked
  pub nested : 0 < m.cpu.ncli → m.cpu.interrupts ≡ false
  pub room : m.cpu.ncli + 2 < 2 ^ 31

pub locks-settled :
    (f : ℕ → Spinlock) (lk : ℕ) (v : Spinlock)
    → f lk ≡ unlocked
    → update (update f lk v) lk unlocked ≡ f
locks-settled f lk v free = fun_ext (λ b. ground (arith, free))

pub popped-settled : (c : Cpu) → (0 < c.ncli → c.interrupts ≡ false) → popped (pushed c) ≡ settled c
popped-settled c nested = ground (arith, nested)

-- A critical section that leaves the CPU and the lock alone ends with every lock, the nesting and
-- the interrupt flag as before.
pub release-acquire :
    (lk : ℕ) (m : Machine)
    → MayLock lk m
    → (acquire lk m >>= release lk) ≡ ok (record m { cpu = settled m.cpu })
release-acquire lk m may = rw (acquire-unlocked lk m may.free may.room) (
    release-held lk _ (ground arith) (IsPushed-pushed m.cpu (omega (arith, may.room)))
      (omega (arith, may.room))
    ∙ (λ i. ok (record m {
      cpu = popped-settled m.cpu may.nested i;
      locks = locks-settled m.locks lk (held_by m.cpu.id) may.free i;
    })))
