-- ===== src/Proc/Alloc/New.antt =====
-- allocproc on each of its three ways out.
use soproyecto.Common.{
  ℕ, ◌+◌, ◌-◌, ◌%◌, ◌^◌, ◌≡◌, ◌≢◌, refl, false, none, some, ok, ◌>>=◌, ◌==◌, arith, get_elem?,
  if◌then◌else◌,
}
use soproyecto.Machine.{update}
use soproyecto.Machine.Locks.{MayLock}
use soproyecto.Proc.Defs.{
  unused, embryo, trapret, Proc, Kernel, ptable_lock, proc_ptr, modify, with_state, assign,
}
use soproyecto.Proc.Enter.{entered, left, lock-entered, unlock-entered, assign_lem}
use soproyecto.Proc.Table.{find_index, is_unused}
use soproyecto.Proc.Scan.{find_index-some, get_elem?-modify_self, modify-modify}
use soproyecto.Proc.Alloc.{allocproc, reserve, tf_of, context_of, new_context, lay_stack}

-- The slot of a new process.
abbrev pub fresh : ℕ → ℕ → Proc → Proc
fresh pid stack p = record p {
  state = embryo;
  pid = pid;
  priority = 0;
  ticks_used = 0;
  kstack = stack;
  tf = tf_of stack;
  context = context_of stack;
}

-- The kernel with the slot `i` set up for a new process on `stack`.
abbrev pub with_fresh : ℕ → ℕ → Kernel → Kernel
with_fresh i stack k = record k {
  machine = left k.machine;
  procs = modify k.procs i (fresh k.nextpid stack);
  nextpid = (k.nextpid + 1) % 2 ^ 32;
  returns = update k.returns (tf_of stack - 4) trapret;
  contexts = update k.contexts (context_of stack) new_context;
}

-- The slot of a process for which there was no stack: UNUSED again, with its pid still in it.
abbrev pub abandoned : ℕ → Proc → Proc
abandoned pid p = record p { pid = pid; kstack = 0; state = unused; priority = 0; ticks_used = 0 }

abbrev pub with_abandoned : ℕ → Kernel → Kernel
with_abandoned i k = record k {
  machine = left k.machine;
  procs = modify k.procs i (abandoned k.nextpid);
  nextpid = (k.nextpid + 1) % 2 ^ 32;
}

-- The state within the critical section, and the one after the assignment of the stack.
abbrev reserved : ℕ → Kernel → Kernel
reserved i k = record k {
  machine = entered ptable_lock k.machine;
  procs = modify k.procs i (reserve k.nextpid);
  nextpid = (k.nextpid + 1) % 2 ^ 32;
}

abbrev with_stack : ℕ → Proc → Proc
with_stack stack p = record p { kstack = stack }

abbrev stacked : ℕ → ℕ → Kernel → Kernel
stacked i stack k = record (reserved i k) {
  machine = left k.machine;
  procs = modify (modify k.procs i (reserve k.nextpid)) i (with_stack stack);
}

module _ (k : Kernel) (may : MayLock ptable_lock k.machine) where
  -- No slot: nothing changes but the saved interrupt flag, and the result is 0.
  pub allocproc-full :
      (stack : ℕ)
      → find_index is_unused k.procs ≡ none
      → allocproc stack k ≡ ok (0, record k { machine = left k.machine })
  unfolding allocproc
  allocproc-full stack e = rw (lock-entered ptable_lock k may) (
      rw e (
        rw
          (unlock-entered ptable_lock k.machine
            (record k { machine = entered ptable_lock k.machine }) may refl)
          refl))

  module _ (i : ℕ) (e : find_index is_unused k.procs ≡ some i) where
    abbrev pub unused_slot : Proc
    unused_slot = (find_index-some is_unused k.procs i e).slot

    at₁ : get_elem? (reserved i k).procs i ≡ some (reserve k.nextpid unused_slot)
    at₁ =
        get_elem?-modify_self k.procs i (reserve k.nextpid)
          (find_index-some is_unused k.procs i e).at

    -- The part up to the assignment of the stack.
    allocate_stacked :
        (stack : ℕ)
        → allocproc stack k ≡ (
            if stack == 0
            then (assign (proc_ptr i) (with_state unused) (stacked i stack k) >>= λ s. ok (0, s))
            else (lay_stack (proc_ptr i) stack (stacked i stack k) >>= λ s. ok (proc_ptr i, s)))
    unfolding allocproc
    allocate_stacked stack = rw (lock-entered ptable_lock k may) (
        rw e (
          rw
            (assign_lem (proc_ptr i) (reserve k.nextpid)
              (record k {
                machine = entered ptable_lock k.machine;
                nextpid = (k.nextpid + 1) % 2 ^ 32;
              })
              (find_index-some is_unused k.procs i e).at)
            (rw (unlock-entered ptable_lock k.machine (reserved i k) may refl) (
              rw
                (assign_lem (proc_ptr i) (with_stack stack)
                  (record (reserved i k) { machine = left k.machine }) at₁)
                refl))))

    at₂ :
        (stack : ℕ)
        → get_elem? (stacked i stack k).procs i
          ≡ some (with_stack stack (reserve k.nextpid unused_slot))
    at₂ stack = get_elem?-modify_self (reserved i k).procs i (with_stack stack) at₁

    -- A slot and a stack: the first UNUSED slot is EMBRYO, with the next pid, in the high queue
    -- with no tick used, and its stack is laid out.
    pub allocproc-fresh :
        (stack : ℕ) → stack ≢ 0 → allocproc stack k ≡ ok (proc_ptr i, with_fresh i stack k)
    allocproc-fresh stack given =
        let there : (stack == 0) ≡ false = ground arith in
        rw (allocate_stacked stack) (
          rw there (
            rw
              (assign_lem (proc_ptr i)
                (λ r. record r { tf = tf_of stack; context = context_of stack }) (stacked i stack k)
                (at₂ stack))
              (rw (modify-modify, modify-modify) refl)))

    -- A slot and no stack: the slot is UNUSED again, but the next pid is used up and stays in it.
    pub allocproc-abandoned : allocproc 0 k ≡ ok (0, with_abandoned i k)
    allocproc-abandoned = rw (allocate_stacked 0) (
        rw (assign_lem (proc_ptr i) (with_state unused) (stacked i 0 k) (at₂ 0))
          (rw (modify-modify, modify-modify) refl))
