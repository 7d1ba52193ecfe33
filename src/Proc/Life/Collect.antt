-- ===== src/Proc/Life/Collect.antt =====
-- wait: a zombie child is collected at once, and without one the loop sleeps or fails.
use soproyecto.Common.{
  ap, fun_ext, set, ℕ, zero, suc, ◌<◌, ◌≡◌, ◌≢◌, refl, sym, ◌∙◌, Bool, true, false, ◌&&◌,
  Bool-cases, Option, none, some, inl, inr, List, [], ◌∷◌, ok, ◌==◌, arith, get_elem?,
}
use mathlib.Core.Bool.{false≢true}
use soproyecto.Machine.Locks.{MayLock}
use soproyecto.Proc.Defs.{
  unused, zombie, is_state, Proc, Kernel, kfree, freevm, ptable_lock, proc_ptr, modify, call,
  unlock,
}
use soproyecto.Proc.Enter.{
  entered, left, left-left, lock-entered, unlock-entered, assign_lem, deref_lem, myproc_lem,
  MayLock-left,
}
use soproyecto.Proc.Table.{Children, found, alive, childless, shift, with_kid, scan_children}
use soproyecto.Proc.Scan.{IsFirst, NonePass}
use soproyecto.Proc.Life.{erase_name, reap, wait_pass, wait_loop, wait}
use soproyecto.Proc.Sched.Switch.{IsRunner}

-- The slots that wait looks for.
abbrev pub is_child : ℕ → Proc → Bool
is_child curproc p = p.parent == curproc

abbrev pub is_dead_child : ℕ → Proc → Bool
is_dead_child curproc p = is_child curproc p && is_state p.state zombie

-- What a scan for children has found: the first zombie child; or none, but a child; or no child.
abbrev pub Scanned : ℕ → List Proc → Children → Type 0
Scanned curproc ps (found i) = IsFirst (is_dead_child curproc) ps i
Scanned curproc ps alive =
    NonePass (is_dead_child curproc) ps
    × (j : ℕ) × (q : Proc) × (get_elem? ps j ≡ some q)
    × (is_child curproc q ≡ true)
Scanned curproc ps childless = NonePass (is_child curproc) ps

module _ (curproc : ℕ) where
  first_child :
      (p : Proc) (ps : List Proc)
      → is_dead_child curproc p ≡ true
      → Scanned curproc (p ∷ ps) (found 0)
  first_child p ps dead = record {
    slot = p;
    at = refl;
    passes = dead;
    before = λ j q h e. absurd (omega arith);
  }

  none_here :
      (test : Proc → Bool) (p : Proc) (ps : List Proc)
      → test p ≡ false
      → NonePass test ps
      → NonePass test (p ∷ ps)
  none_here test p ps fails rest zero q e = ground arith
  none_here test p ps fails rest (suc j) q e = rest j q e

  later_child :
      (p : Proc) (ps : List Proc) (i : ℕ)
      → is_dead_child curproc p ≡ false
      → Scanned curproc ps (found i)
      → Scanned curproc (p ∷ ps) (found (suc i))
  later_child p ps i fails f = record { slot = f.slot; at = f.at; passes = f.passes; before = go }
    where
      go :
          (j : ℕ) (q : Proc)
          → j < suc i
          → get_elem? (p ∷ ps) j ≡ some q
          → is_dead_child curproc q ≡ false
      go zero q h e = ground arith
      go (suc j) q h e = f.before j q (omega arith) e

  skip_other :
      (p : Proc) (ps : List Proc) (c : Children)
      → is_child curproc p ≡ false
      → Scanned curproc ps c
      → Scanned curproc (p ∷ ps) (shift c)
  skip_other p ps (found i) other f = later_child p ps i (rw other refl) f
  skip_other p ps alive other (none_dead, j, q, at, child) =
      (none_here (is_dead_child curproc) p ps (rw other refl) none_dead, suc j, q, at, child)
  skip_other p ps childless other f = none_here (is_child curproc) p ps other f

  dead_of_child :
      (ps : List Proc) → NonePass (is_child curproc) ps → NonePass (is_dead_child curproc) ps
  dead_of_child ps f j q e = ground (arith, f j q e)

  pass_child :
      (p : Proc) (ps : List Proc) (c : Children)
      → is_child curproc p ≡ true
      → is_state p.state zombie ≡ false
      → Scanned curproc ps c
      → Scanned curproc (p ∷ ps) (with_kid (shift c))
  pass_child p ps (found i) child lives f = later_child p ps i (rw (child, lives) refl) f
  pass_child p ps alive child lives f =
      (none_here (is_dead_child curproc) p ps (rw (child, lives) refl) f.0, 0, p, refl, child)
  pass_child p ps childless child lives f = (
    none_here (is_dead_child curproc) p ps (rw (child, lives) refl) (dead_of_child ps f),
    0,
    p,
    refl,
    child,
  )

  -- The scan of wait finds the first zombie child, and otherwise tells whether there is a child.
  pub scan_children-Scanned : (ps : List Proc) → Scanned curproc ps (scan_children curproc ps)
  unfolding scan_children
  scan_children-Scanned [] = λ j q e. absurd (cc)
  scan_children-Scanned (p ∷ ps) = elim (Bool-cases (p.parent == curproc)) [
    | inr other ↦
        rw other (skip_other p ps (scan_children curproc ps) other (scan_children-Scanned ps))
    | inl child ↦ rw child (elim (Bool-cases (is_state p.state zombie)) [
      | inl dead ↦ rw dead (first_child p ps (rw (child, dead) refl))
      | inr lives ↦
          rw lives
            (pass_child p ps (scan_children curproc ps) child lives (scan_children-Scanned ps))
    ])
  ]

-- The kernel with the lock of the table taken in wait, and after the return.
abbrev pub waiting : Kernel → Kernel
waiting k = record k { machine = entered ptable_lock (left k.machine) }

abbrev pub done : Kernel → Kernel
done k = record k { machine = left k.machine }

-- A slot that is free again: UNUSED, without process, parent and stack.
abbrev pub freed : Proc → Proc
freed p = record p {
  kstack = 0;
  pid = 0;
  parent = 0;
  name = set p.name 0 0;
  killed = 0;
  state = unused;
}

erase_name-set : (name : List ℕ) → erase_name name ≡ set name 0 0
erase_name-set [] = refl
erase_name-set (b ∷ name) = refl

reap-freed : (p : Proc) → reap p ≡ freed p
reap-freed p = ap (λ l. record (freed p) { name = l }) (erase_name-set p.name)

-- The kernel after wait has collected the slot `i`, which held `p`.
abbrev pub collected : ℕ → Proc → Kernel → Kernel
collected i p k = record (done k) {
  procs = modify k.procs i freed;
  calls = freevm p.pgdir ∷ kfree p.kstack ∷ k.calls;
}

module _ (sleeps : List (Kernel → Kernel)) (k : Kernel) (may : MayLock ptable_lock k.machine) where
  begin_wait : (wait sleeps k) ≡ wait_loop sleeps k.machine.cpu.proc (waiting k)
  unfolding wait
  begin_wait =
      rw (myproc_lem k (record { nested = may.nested; room = omega (arith, may.room) }))
        (rw (lock-entered ptable_lock (done k) (MayLock-left ptable_lock k.machine may)) refl)

  leave :
      (s : Kernel)
      → s.machine ≡ entered ptable_lock (left k.machine)
      → unlock ptable_lock s ≡ ok (record s { machine = left k.machine })
  leave s same =
      unlock-entered ptable_lock (left k.machine) s (MayLock-left ptable_lock k.machine may) same
      ∙ (λ j. ok (record s { machine = left-left k.machine j }))

  -- A return from the first turn is a return from the loop.
  returns_at_once :
      (r : Option ℕ) (k' : Kernel)
      → wait_pass k.machine.cpu.proc (waiting k) ≡ ok (some r, k')
      → wait sleeps k ≡ ok (r, k')
  unfolding wait_loop
  returns_at_once r k' e = begin_wait ∙ go sleeps
    where
      go : (l : List (Kernel → Kernel)) → wait_loop l k.machine.cpu.proc (waiting k) ≡ ok (r, k')
      go [] = rw e refl
      go (s ∷ l) = rw e refl

  pass_found :
      (i : ℕ) (p : Proc)
      → scan_children k.machine.cpu.proc k.procs ≡ found i
      → get_elem? k.procs i ≡ some p
      → wait_pass k.machine.cpu.proc (waiting k) ≡ ok (some (some p.pid), collected i p k)
  unfolding wait_pass
  pass_found i p e at =
      let k₁ = call (freevm p.pgdir) (call (kfree p.kstack) (waiting k)) in
      rw e (
        rw (deref_lem (proc_ptr i) (waiting k) at) (
          rw (assign_lem (proc_ptr i) reap k₁ at) (
            rw (leave (record k₁ { procs = modify k.procs i reap }) refl) (
              ap
                (λ f.
                  ok (some (some p.pid), record (collected i p k) { procs = modify k.procs i f }))
                (fun_ext reap-freed)))))

  pass_childless :
      scan_children k.machine.cpu.proc k.procs ≡ childless
      → wait_pass k.machine.cpu.proc (waiting k) ≡ ok (some none, done k)
  unfolding wait_pass
  pass_childless e = rw e (rw (leave (waiting k) refl) refl)

  pass_killed :
      {self : Proc}
      → IsRunner k self
      → self.killed ≢ 0
      → scan_children k.machine.cpu.proc k.procs ≡ alive
      → wait_pass k.machine.cpu.proc (waiting k) ≡ ok (some none, done k)
  unfolding wait_pass
  pass_killed {self} at killed e =
      let marked : (self.killed == 0) ≡ false = ground arith in
      rw e (
        rw (deref_lem k.machine.cpu.proc (waiting k) at)
          (rw marked (rw (leave (waiting k) refl) refl)))

  -- A zombie child, and the table's lock free: wait does not sleep. It returns the pid of the first
  -- zombie child in the table, whose stack and memory are freed, and whose slot is UNUSED again,
  -- without pid, parent, stack, name and mark; no other slot changes.
  pub wait_collects :
      (j : ℕ) (q : Proc)
      → get_elem? k.procs j ≡ some q
      → is_dead_child k.machine.cpu.proc q ≡ true
      → (i : ℕ) × (f : IsFirst (is_dead_child k.machine.cpu.proc) k.procs i) × (wait sleeps k
          ≡ ok (some f.slot.pid, collected i f.slot k))
  wait_collects j q at dead =
      go (scan_children k.machine.cpu.proc k.procs) refl
        (scan_children-Scanned k.machine.cpu.proc k.procs)
    where
      go :
          (c : Children)
          → scan_children k.machine.cpu.proc k.procs ≡ c
          → Scanned k.machine.cpu.proc k.procs c
          → (i : ℕ) × (f : IsFirst (is_dead_child k.machine.cpu.proc) k.procs i) × (wait sleeps k
              ≡ ok (some f.slot.pid, collected i f.slot k))
      go (found i) e f = (
        i,
        f,
        returns_at_once (some f.slot.pid) (collected i f.slot k) (pass_found i f.slot e f.at),
      )
      go alive e f = absurd (false≢true (sym (f.0 j q at) ∙ dead))
      go childless e f =
          absurd (false≢true (sym (dead_of_child k.machine.cpu.proc k.procs f j q at) ∙ dead))

  -- No child at all: wait fails at once.
  pub wait_childless :
      NonePass (is_child k.machine.cpu.proc) k.procs → wait sleeps k ≡ ok (none, done k)
  wait_childless empty =
      go (scan_children k.machine.cpu.proc k.procs) refl
        (scan_children-Scanned k.machine.cpu.proc k.procs)
    where
      go :
          (c : Children)
          → scan_children k.machine.cpu.proc k.procs ≡ c
          → Scanned k.machine.cpu.proc k.procs c
          → wait sleeps k ≡ ok (none, done k)
      go (found i) e f = absurd (
          false≢true
            (sym (dead_of_child k.machine.cpu.proc k.procs empty i f.slot f.at) ∙ f.passes))
      go alive e (dead, j, q, at, child) = absurd (false≢true (sym (empty j q at) ∙ child))
      go childless e f = returns_at_once none (done k) (pass_childless e)

  -- A killed process with children of which none is a zombie: wait fails at once.
  pub wait_killed :
      {self : Proc} (j : ℕ) (q : Proc)
      → IsRunner k self
      → self.killed ≢ 0
      → NonePass (is_dead_child k.machine.cpu.proc) k.procs
      → get_elem? k.procs j ≡ some q
      → is_child k.machine.cpu.proc q ≡ true
      → wait sleeps k ≡ ok (none, done k)
  wait_killed {self} j q runner killed living at child =
      go (scan_children k.machine.cpu.proc k.procs) refl
        (scan_children-Scanned k.machine.cpu.proc k.procs)
    where
      go :
          (c : Children)
          → scan_children k.machine.cpu.proc k.procs ≡ c
          → Scanned k.machine.cpu.proc k.procs c
          → wait sleeps k ≡ ok (none, done k)
      go (found i) e f = absurd (false≢true (sym (living i f.slot f.at) ∙ f.passes))
      go alive e f = returns_at_once none (done k) (pass_killed runner killed e)
      go childless e f = absurd (false≢true (sym (f j q at) ∙ child))
