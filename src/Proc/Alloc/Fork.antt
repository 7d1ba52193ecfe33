-- ===== src/Proc/Alloc/Fork.antt =====
-- fork: what it makes of the child, and what it gives back when it fails.
use soproyecto.Common.{
  ℕ, zero, suc, ◌≡◌, ◌≢◌, refl, ap, ◌∙◌, true, false, none, some, List, ◌∷◌, ok, ◌==◌, arith,
  get_elem?,
}
use soproyecto.Machine.{update}
use soproyecto.Machine.Locks.{MayLock}
use soproyecto.Proc.Defs.{
  unused, runnable, Proc, Kernel, ptable_lock, proc_at, proc_ptr, modify, with_state, lock, unlock,
  myproc, kfree, idup, call,
}
use soproyecto.Proc.Enter.{
  entered, left, lock-entered, unlock-entered, assign_lem, deref_lem, myproc_lem, MayLock-left,
  left-left,
}
use soproyecto.Proc.Table.{find_index, is_unused}
use soproyecto.Proc.Scan.{
  find_index-some, get_elem?-modify_self, get_elem?-modify_ne, modify-modify,
}
use soproyecto.CString.{safestrcpy}
use soproyecto.Proc.Alloc.{
  fork, inherit, child_frame, dup_files, dup_calls, tf_of, context_of, namesize,
}
use soproyecto.Proc.Alloc.New.{
  fresh, with_fresh, with_abandoned, allocproc-fresh, allocproc-abandoned, unused_slot,
}
use soproyecto.Proc.Sched.Switch.{IsRunner}

-- A process that is not in the slot `i`, since that one is UNUSED, stays as it is.
pub proc_at-modify_ne :
    (ps : List Proc) (i p : ℕ) (f : Proc → Proc) {u r : Proc}
    → get_elem? ps i ≡ some u
    → is_unused u ≡ true
    → proc_at ps p ≡ some r
    → is_unused r ≡ false
    → proc_at (modify ps i f) p ≡ some r
proc_at-modify_ne ps i zero f at free there used = absurd (cc)
proc_at-modify_ne ps i (suc c) f at free there used = get_elem?-modify_ne ps i c f apart ∙ there
  where
    apart : i ≢ c
    apart e = ground (arith, at, free, there, used, ap (get_elem? ps) e)

-- The child's slot after fork.
abbrev pub child_of : ℕ → ℕ → ℕ → ℕ → Proc → Proc → Proc
child_of curproc pid stack pgdir parent p = record p {
  state = runnable;
  pid = pid;
  priority = 0;
  ticks_used = 0;
  kstack = stack;
  tf = tf_of stack;
  context = context_of stack;
  pgdir = pgdir;
  sz = parent.sz;
  parent = curproc;
  ofile = dup_files parent.ofile p.ofile;
  cwd = parent.cwd;
  name = safestrcpy p.name parent.name namesize;
}

-- The kernel after a fork by `parent` into the slot `i`.
abbrev pub forked : ℕ → ℕ → ℕ → Proc → Kernel → Kernel
forked i stack pgdir parent k = record (with_fresh i stack k) {
  machine = left k.machine;
  procs = modify k.procs i (child_of k.machine.cpu.proc k.nextpid stack pgdir parent);
  calls = idup parent.cwd ∷ dup_calls parent.ofile k.calls;
  frames = update k.frames (tf_of stack) (record (k.frames parent.tf) { eax = 0 });
}

-- The slot of a child for which there was no page table.
abbrev pub discarded : ℕ → ℕ → Proc → Proc
discarded pid stack p = record (fresh pid stack p) { pgdir = 0; kstack = 0; state = unused }

module _ (k : Kernel) (may : MayLock ptable_lock k.machine) (i : ℕ)
    (e : find_index is_unused k.procs ≡ some i) {parent : Proc} (at : IsRunner k parent)
    (used : is_unused parent ≡ false) where
  -- The kernel after the first `myproc`.
  abbrev begun : Kernel
  begun = record k { machine = left k.machine }

  begun-MayLock : MayLock ptable_lock (left k.machine)
  begun-MayLock = MayLock-left ptable_lock k.machine may

  parent_at : (f : Proc → Proc) → proc_at (modify k.procs i f) k.machine.cpu.proc ≡ some parent
  parent_at f =
      let first = find_index-some is_unused k.procs i e in
      proc_at-modify_ne k.procs i k.machine.cpu.proc f first.at first.passes at used

  child_at :
      (stack : ℕ)
      → get_elem? (with_fresh i stack begun).procs i
        ≡ some (fresh k.nextpid stack (unused_slot k may i e))
  child_at stack =
      get_elem?-modify_self k.procs i (fresh k.nextpid stack)
        (find_index-some is_unused k.procs i e).at

  -- The kernel after allocproc, and after the copies, before the child is made RUNNABLE.
  abbrev grown : ℕ → Kernel
  grown stack = with_fresh i stack begun

  abbrev copied : ℕ → ℕ → Kernel
  copied stack pgdir = record (grown stack) {
    procs = modify (grown stack).procs i (inherit k.machine.cpu.proc pgdir parent);
    calls = idup parent.cwd ∷ dup_calls parent.ofile k.calls;
    frames = update k.frames (tf_of stack) (child_frame (k.frames parent.tf));
  }

  open_section :
      (stack pgdir : ℕ)
      → lock ptable_lock (copied stack pgdir)
        ≡ ok (record (copied stack pgdir) { machine = entered ptable_lock (left (left k.machine)) })
  open_section stack pgdir =
      lock-entered ptable_lock (copied stack pgdir)
        (MayLock-left ptable_lock (left k.machine) begun-MayLock)

  close_section :
      (s : Kernel)
      → s.machine ≡ entered ptable_lock (left (left k.machine))
      → unlock ptable_lock s ≡ ok (record s { machine = left k.machine })
  close_section s same =
      unlock-entered ptable_lock (left (left k.machine)) s
        (MayLock-left ptable_lock (left k.machine) begun-MayLock) same
      ∙ (λ j. ok (record s { machine = (left-left (left k.machine) ∙ left-left k.machine) j }))

  begin_fork : myproc k ≡ ok (k.machine.cpu.proc, begun)
  begin_fork = myproc_lem k (record { nested = may.nested; room = omega (arith, may.room) })

  -- A fork that is given a stack and a page table: the child is the first UNUSED slot, RUNNABLE,
  -- in the high queue with no tick used, with a copy of the parent's trap frame in which eax is 0;
  -- the parent gets its pid.
  pub fork_lem :
      (stack pgdir : ℕ)
      → stack ≢ 0
      → pgdir ≢ 0
      → fork stack pgdir k ≡ ok (some k.nextpid, forked i stack pgdir parent k)
  unfolding fork
  fork_lem stack pgdir given given' =
      let there : (pgdir == 0) ≡ false = ground arith in
      let slot : (proc_ptr i == 0) ≡ false = ground arith in
      let inherited =
        get_elem?-modify_self (grown stack).procs i (inherit k.machine.cpu.proc pgdir parent)
          (child_at stack) in
      rw begin_fork (
        rw (allocproc-fresh begun begun-MayLock i e stack given, slot)
          (rw (deref_lem k.machine.cpu.proc (grown stack) (parent_at (fresh k.nextpid stack))) (
            rw (deref_lem (proc_ptr i) (grown stack) (child_at stack)) (
              rw there (
                rw
                  (assign_lem (proc_ptr i) (inherit k.machine.cpu.proc pgdir parent)
                    (record (grown stack) {
                      calls = idup parent.cwd ∷ dup_calls parent.ofile k.calls;
                      frames = update k.frames (tf_of stack) (child_frame (k.frames parent.tf));
                    })
                    (child_at stack))
                  (rw (open_section stack pgdir) (
                    rw
                      (assign_lem (proc_ptr i) (with_state runnable)
                        (record (copied stack pgdir) {
                          machine = entered ptable_lock (left (left k.machine));
                        })
                        inherited)
                      (rw
                        (close_section
                          (record (copied stack pgdir) {
                            machine = entered ptable_lock (left (left k.machine));
                            procs = modify (copied stack pgdir).procs i (with_state runnable);
                          })
                          refl)
                        (rw (modify-modify, modify-modify) refl)))))))))

  -- A fork that is given a stack but no page table fails: the stack is freed, and the slot is
  -- UNUSED again, with the pid that was spent on it.
  pub fork-no_memory :
      (stack : ℕ)
      → stack ≢ 0
      → fork stack 0 k
        ≡ ok (
          none,
          record (with_fresh i stack k) {
            machine = left k.machine;
            procs = modify k.procs i (discarded k.nextpid stack);
            calls = kfree stack ∷ k.calls;
          },
        )
  unfolding fork
  fork-no_memory stack given =
      let slot : (proc_ptr i == 0) ≡ false = ground arith in
      rw begin_fork (
        rw (allocproc-fresh begun begun-MayLock i e stack given, slot)
          (rw (deref_lem k.machine.cpu.proc (grown stack) (parent_at (fresh k.nextpid stack))) (
            rw (deref_lem (proc_ptr i) (grown stack) (child_at stack)) (
              rw
                (assign_lem (proc_ptr i) (λ r. record r { pgdir = 0; kstack = 0; state = unused })
                  (call (kfree stack) (grown stack)) (child_at stack))
                (rw (modify-modify, left-left) refl)))))

  -- A fork that is given no stack fails: the slot is UNUSED again, with the pid that was spent.
  pub fork-no_stack : (pgdir : ℕ) → fork 0 pgdir k ≡ ok (none, with_abandoned i k)
  unfolding fork
  fork-no_stack pgdir =
      rw begin_fork (rw (allocproc-abandoned begun begun-MayLock i e) (rw left-left refl))
