-- ===== src/Machine.antt =====
-- spinlock.c, and mycpu of proc.c: interrupt nesting and spin locks as one CPU runs them.
-- The state is that of the CPU that runs the code, with the spin locks by their addresses. What the
-- other CPUs do shows only in which locks are taken. The debugging fields of `struct spinlock`
-- (name, pcs) are left out.
pub mod Locks
use soproyecto.Common.{
  ℕ, ◌+◌, ◌-◌, ◌%◌, ◌^◌, ◌≡◌, ◌≢◌, refl, arith, Bool, true, false, not, ◌&&◌, Option, none, some,
  Run, ok, stop, spin, ◌>>=◌, Panic, panic_mycpu, panic_popcli_interruptible, panic_popcli,
  panic_acquire, panic_release, ◌==◌, leb, if◌then◌else◌,
}

-- `interrupts` is the flag FL_IF of this CPU, `proc` the address of its process or 0.
pub record Cpu : Type 0 where
  pub id : ℕ
  pub interrupts : Bool
  pub ncli : ℕ
  pub intena : Bool
  pub proc : ℕ

-- `cpu` is the CPU that holds the lock, by its `id`.
pub record Spinlock : Type 0 where
  pub locked : Bool
  pub cpu : Option ℕ

pub record Machine : Type 0 where
  pub cpu : Cpu
  pub locks : ℕ → Spinlock

abbrev pub int_neg : ℕ → Bool
int_neg w = leb (2 ^ 31) w

abbrev pub update {ℓ} : {A : Type ℓ} → (ℕ → A) → ℕ → A → ℕ → A
update f a v b = if a == b then v else f b

module _ {ℓ} {A : Type ℓ} (f : ℕ → A) where
  pub update_self : (a : ℕ) (v : A) → update f a v a ≡ v
  update_self a v = let same : (a == a) ≡ true = ground arith in rw same refl

  pub update_ne : (a b : ℕ) (v : A) → a ≢ b → update f a v b ≡ f b
  update_ne a b v ne = let other : (a == b) ≡ false = ground (arith, ne) in rw other refl

-- `initlock`
abbrev pub unlocked : Spinlock
unlocked = record { locked = false; cpu = none }

abbrev pub held_by : ℕ → Spinlock
held_by id = record { locked = true; cpu = some id }

pub initlock : ℕ → Machine → Machine
initlock lk m = record m { locks = update m.locks lk unlocked }

unfoldable pub cli : Cpu → Cpu
cli c = record c { interrupts = false }

unfoldable pub sti : Cpu → Cpu
sti c = record c { interrupts = true }

-- The lookup of the CPU by its APIC id is not modelled.
unfoldable pub mycpu : Cpu → Run Cpu
mycpu c = if c.interrupts then stop panic_mycpu else ok c

unfoldable pub pushcli : Cpu → Run Cpu
unfolding cli mycpu
pushcli c = do
  let eflags = c.interrupts
  c ← mycpu (cli c)
  ok (record c { intena = if c.ncli == 0 then eflags else c.intena; ncli = (c.ncli + 1) % 2 ^ 32 })

unfoldable pub popcli : Cpu → Run Cpu
unfolding sti
popcli c =
    if c.interrupts
    then stop panic_popcli_interruptible
    else let n = (c.ncli + 2 ^ 32 - 1) % 2 ^ 32 in
      let c' = record c { ncli = n } in
      if int_neg n then stop panic_popcli else ok (if (n == 0) && c.intena then sti c' else c')

abbrev pub is_cpu : Option ℕ → ℕ → Bool
is_cpu none id = false
is_cpu (some a) id = a == id

-- `holding`: whether this CPU holds the lock, and the CPU after `popcli`.
unfoldable pub holding : Spinlock → Cpu → Run (Bool × Cpu)
holding lk c = do
  c ← pushcli c
  this ← mycpu c
  let r = lk.locked && is_cpu lk.cpu this.id
  c ← popcli c
  ok (r, c)

-- `while (xchg(&lk->locked, 1) != 0)` ends at once on a free lock; on a taken one it waits for
-- another CPU.
unfoldable pub acquire : ℕ → Machine → Run Machine
acquire lk m = do
  c ← pushcli m.cpu
  (r, c) ← holding (m.locks lk) c
  if r
      then stop panic_acquire
      else if (m.locks lk).locked
      then spin
      else do this ← mycpu c; ok (record m { cpu = c; locks = update m.locks lk (held_by this.id) })

unfoldable pub release : ℕ → Machine → Run Machine
release lk m = do
  (r, c) ← holding (m.locks lk) m.cpu
  if not r
      then stop panic_release
      else do c ← popcli c; ok (record m { cpu = c; locks = update m.locks lk unlocked })
