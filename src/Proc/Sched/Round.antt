-- ===== src/Proc/Sched/Round.antt =====
-- A turn of the scheduler's loop: which processes get the CPU, and in which order.
use soproyecto.Common.{ℕ, ◌≡◌, refl, ap, ◌∙◌, true, Option, none, some, ok, arith}
use soproyecto.Machine.{Cpu, Machine, unlocked, sti}
use soproyecto.Machine.Locks.{MayLock}
use soproyecto.Proc.Defs.{
  running, Kernel, switchuvm, switchkvm, ptable_lock, proc_ptr, modify, with_state, call,
  with_cpu_proc,
}
use soproyecto.Proc.Enter.{entered, left, lock-entered, unlock-entered, assign_lem}
use soproyecto.Proc.Table.{find_index, is_ready}
use soproyecto.Proc.Scan.{find_index-some}
use soproyecto.Proc.Sched.{phase, scheduler_round}

-- The state in which the slot `i` gets the CPU.
abbrev pub dispatched : ℕ → Kernel → Kernel
dispatched i k = record (call (switchuvm (proc_ptr i)) (with_cpu_proc (proc_ptr i) k)) {
  procs = modify k.procs i (with_state running);
}

-- The CPU comes back to the scheduler.
abbrev pub regained : Kernel → Kernel
regained k = with_cpu_proc 0 (call switchkvm k)

abbrev pub ran_or : Kernel → (Kernel → Kernel) → Option ℕ → Kernel
ran_or k swtch none = k
ran_or k swtch (some i) = regained (swtch (dispatched i k))

-- One phase as a function: the first ready slot of the queue, if there is one, runs.
abbrev pub ran : ℕ → (Kernel → Kernel) → Kernel → Kernel
ran q swtch k = ran_or k swtch (find_index (is_ready q) k.procs)

phase_or :
    (q : ℕ) (swtch : Kernel → Kernel) (k : Kernel) (o : Option ℕ)
    → find_index (is_ready q) k.procs ≡ o
    → phase q swtch k ≡ ok (ran_or k swtch o)
unfolding phase
phase_or q swtch k none e = rw (phase, e)
phase_or q swtch k (some i) e =
    rw (phase, e)
      (rw (
        assign_lem (proc_ptr i) (with_state running)
          (call (switchuvm (proc_ptr i)) (with_cpu_proc (proc_ptr i) k))
          (find_index-some (is_ready q) k.procs i e).at))

pub phase-ran :
    (q : ℕ) (swtch : Kernel → Kernel) (k : Kernel) → phase q swtch k ≡ ok (ran q swtch k)
phase-ran q swtch k = phase_or q swtch k (find_index (is_ready q) k.procs) refl

-- The switch comes back with the machine as it left: the lock held, one `pushcli` deep.
abbrev pub KeepsMachine : (Kernel → Kernel) → Type 0
KeepsMachine swtch = (k : Kernel) → (swtch k).machine ≡ k.machine

-- The scheduler between two turns of its loop.
pub record IsIdle (k : Kernel) : Type 0 where
  pub free : k.machine.locks ptable_lock ≡ unlocked
  pub shallow : k.machine.cpu.ncli ≡ 0
  pub nobody : k.machine.cpu.proc ≡ 0

-- The state after `sti` and `acquire`.
abbrev pub sti_cpu : Cpu → Cpu
sti_cpu c = record c { interrupts = true }

abbrev pub opened : Kernel → Kernel
opened k = record k {
  machine =
      entered ptable_lock (record k.machine { cpu = record k.machine.cpu { interrupts = true } });
}

module _ (swtch : Kernel → Kernel) (keeps : KeepsMachine swtch) where
  machine-ran : (q : ℕ) (k : Kernel) → k.machine.cpu.proc ≡ 0 → (ran q swtch k).machine ≡ k.machine
  machine-ran q k nobody = go (find_index (is_ready q) k.procs)
    where
      go : (o : Option ℕ) → (ran_or k swtch o).machine ≡ k.machine
      go none = refl
      go (some i) =
          ap (λ (m : Machine). record m { cpu = record m.cpu { proc = 0 } })
            (keeps (dispatched i k))
          ∙ ground (arith, nobody)

-- The machine between `sti` and `acquire`.
abbrev pub listening : Machine → Machine
listening m = record m { cpu = sti_cpu m.cpu }

listening-MayLock : (k : Kernel) → IsIdle k → MayLock ptable_lock (listening k.machine)
listening-MayLock k idle = record {
  free = idle.free;
  nested = λ h. absurd (omega (arith, idle.shallow));
  room = omega (arith, idle.shallow);
}

-- A turn of the loop is the two phases one after the other, within one critical section.
pub scheduler_round-ran :
    (first second : Kernel → Kernel) (k : Kernel)
    → KeepsMachine first
    → KeepsMachine second
    → IsIdle k
    → scheduler_round first second k
      ≡ ok (record (ran 1 second (ran 0 first (opened k))) { machine = left (listening k.machine) })
unfolding scheduler_round sti
scheduler_round-ran first second k keeps keeps' idle =
    let may = listening-MayLock k idle in
    let k₁ = opened k in
    let k₂ = ran 0 first k₁ in
    let k₃ = ran 1 second k₂ in
    let same₂ : k₂.machine ≡ k₁.machine = machine-ran first keeps 0 k₁ idle.nobody in
    let none₂ : k₂.machine.cpu.proc ≡ 0 = ap (λ (m : Machine). m.cpu.proc) same₂ ∙ idle.nobody in
    let same₃ : k₃.machine ≡ entered ptable_lock (listening k.machine) =
      machine-ran second keeps' 1 k₂ none₂ ∙ same₂ in
    rw (lock-entered ptable_lock (record k { machine = listening k.machine }) may) (
      rw (phase-ran 0 first k₁) (
        rw none₂ (
          rw (phase-ran 1 second k₂)
            (unlock-entered ptable_lock (listening k.machine) k₃ may same₃))))
