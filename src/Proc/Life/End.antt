-- ===== src/Proc/Life/End.antt =====
-- exit up to its switch: the state that it leaves to the others.
use soproyecto.Common.{
  [], ◌++◌, sym, true, length, replicate, map, if◌then◌else◌, ℕ, zero, suc, ◌+◌, ◌≡◌, ◌≢◌, refl, ap,
  ◌∙◌, false, some, List, ◌∷◌, ok, ◌==◌, arith, Bool-cases, inl, inr, leb, ltb, ◌&&◌,
}
use mathlib.Core.Option
use mathlib.Core.Option.{some-injective}
use mathlib.Core.List.{append_assoc, reverse, reverse-cons}
use soproyecto.Machine.Locks.{MayLock}
use soproyecto.Proc.Defs.{
  zombie, Proc, Call, fileclose, Kernel, nproc, ptable_lock, proc_at, write_proc, with_state,
  modify, begin_op, end_op, iput,
}
use soproyecto.Proc.Enter.{
  entered, left, lock-entered, assign_lem, deref_lem, myproc_lem, MayLock-left,
}
use soproyecto.Proc.Table.{wake, wakeup1, reparent}
use soproyecto.Proc.Scan.{get_elem?-modify_self}
use soproyecto.Proc.Sched.Switch.{proc_at-write}
use soproyecto.Proc.Life.Orphans.{waits, NoSleeper, wakeup1-NoSleeper, reparent-keeps}
use soproyecto.Proc.Life.Reparent.{
  parent_at, IsKept, field-modify, field-wakeup1, field-reparent, redirect, parent-wakeup1,
  parent-reparent, slot_of_parent,
}
use soproyecto.Proc.Life.{exit_prepare, close_files, close_calls}

-- The files and the directory of a process that ends.
abbrev pub closed : Proc → Proc
closed r = record r { ofile = close_files r.ofile; cwd = 0 }

-- The table after the first part of exit, after the parent is woken, and after the children are
-- passed on.
abbrev pub table_closed : Kernel → List Proc
table_closed k = write_proc k.procs k.machine.cpu.proc closed

abbrev pub table_left : Kernel → Proc → List Proc
table_left k r = reparent nproc 1 k.machine.cpu.proc k.initproc (wakeup1 r.parent (table_closed k))

-- The open files, in the order of their descriptors.
abbrev pub open_files : List ℕ → List ℕ
open_files [] = []
open_files (f ∷ fs) = if f == 0 then open_files fs else f ∷ open_files fs

-- The table at the switch of exit: the slot of the process is a ZOMBIE without files and directory,
-- with its pid; its children among the slots of the table are init's, and no other slot has a new
-- parent; nobody sleeps on the channel on which its parent waits.
pub record IsEnded (k : Kernel) (r : Proc) (ps : List Proc) : Type 0 where
  pub self : Proc
  pub slot : proc_at ps k.machine.cpu.proc ≡ some self
  pub state : self.state ≡ zombie
  pub ofile : self.ofile ≡ replicate (length r.ofile) 0
  pub cwd : self.cwd ≡ 0
  pub pid : self.pid ≡ r.pid
  pub children :
      (j : ℕ)
      → parent_at ps j ≡ (
          if ltb j nproc
          then Option.map (redirect k.machine.cpu.proc k.initproc) (parent_at k.procs j)
          else parent_at k.procs j)
  pub woken : NoSleeper r.parent ps

-- The process keeps its slot through all of this.
slot_left :
    (k : Kernel) {r : Proc}
    → proc_at k.procs k.machine.cpu.proc ≡ some r
    → (r' : Proc) × (proc_at (table_left k r) k.machine.cpu.proc ≡ some r')
slot_left k {r} at = go k.machine.cpu.proc at
  where
    go :
        (p : ℕ)
        → proc_at k.procs p ≡ some r
        → (r' : Proc) × (proc_at
              (reparent nproc 1 p k.initproc (wakeup1 r.parent (write_proc k.procs p closed)))
              p
            ≡ some r')
    go zero e = absurd (cc)
    go (suc c) e =
        let closed_at =
          ap (Option.map (λ p. p.parent)) (get_elem?-modify_self k.procs c closed e) in
        let woken_at = parent-wakeup1 r.parent (modify k.procs c closed) c ∙ closed_at in
        let left_at =
          parent-reparent (suc c) k.initproc nproc 0 (wakeup1 r.parent (modify k.procs c closed))
            c in
        elim (Bool-cases (leb 0 c && ltb c (0 + nproc))) [
          | inl passed ↦
              slot_of_parent _ c {q = redirect (suc c) k.initproc r.parent}
                (left_at ∙ rw passed (ap (Option.map (redirect (suc c) k.initproc)) woken_at))
          | inr not_passed ↦ slot_of_parent _ c {q = r.parent} (left_at ∙ rw not_passed woken_at)
        ]

close_files-replicate : (fs : List ℕ) → close_files fs ≡ replicate (length fs) 0
unfolding close_files
close_files-replicate [] = refl
close_files-replicate (f ∷ fs) =
    let null : (if f == 0 then f else 0) ≡ 0 = ground arith in
    λ i. null i ∷ close_files-replicate fs i

close_calls-open_files :
    (fs : List ℕ) (cs : List Call)
    → close_calls fs cs ≡ reverse (map fileclose (open_files fs)) ++ cs
unfolding close_calls
close_calls-open_files [] cs = refl
close_calls-open_files (f ∷ fs) cs = elim (Bool-cases (f == 0)) [
  | inl null ↦ rw null (close_calls-open_files fs cs)
  | inr opened ↦ rw opened (
      close_calls-open_files fs (fileclose f ∷ cs)
      ∙ sym (
          ap (λ l. l ++ cs) (reverse-cons (fileclose f) (map fileclose (open_files fs)))
          ∙ append_assoc (reverse (map fileclose (open_files fs))) (fileclose f ∷ []) cs))
]

-- The kernel at the switch of exit, as the code makes it.
abbrev ended : Kernel → Proc → Kernel
ended k r = record k {
  machine = entered ptable_lock (left k.machine);
  procs = write_proc (table_left k r) k.machine.cpu.proc (with_state zombie);
  calls = end_op ∷ iput r.cwd ∷ begin_op ∷ close_calls r.ofile k.calls;
}

exit_prepare-ended :
    (k : Kernel) {r : Proc}
    → MayLock ptable_lock k.machine
    → k.machine.cpu.proc ≢ k.initproc
    → proc_at k.procs k.machine.cpu.proc ≡ some r
    → exit_prepare k ≡ ok (ended k r)
unfolding exit_prepare
exit_prepare-ended k {r} may other at =
    let p = k.machine.cpu.proc in
    let ordinary : (p == k.initproc) ≡ false = ground (arith, other) in
    let k₁ = record k {
      machine = left k.machine;
      calls = end_op ∷ iput r.cwd ∷ begin_op ∷ close_calls r.ofile k.calls;
    } in
    let k₂ = record k₁ { procs = table_closed k } in
    rw (myproc_lem k (record { nested = may.nested; room = omega (arith, may.room) })) (
      rw ordinary (
        rw (deref_lem p (record k { machine = left k.machine }) at) (
          rw (assign_lem p closed k₁ at) (
            rw (lock-entered ptable_lock k₂ (MayLock-left ptable_lock k.machine may)) (
              rw
                (assign_lem p (with_state zombie)
                  (record k₂ {
                    machine = entered ptable_lock (left k.machine);
                    procs = table_left k r;
                  })
                  (slot_left k at).1)
                refl)))))

-- What exit leaves of a field of the process, before the process is a zombie.
field_left :
    {A : Type 0} (g : Proc → A) (k : Kernel) {r r' : Proc}
    → IsKept g
    → proc_at k.procs k.machine.cpu.proc ≡ some r
    → proc_at (table_left k r) k.machine.cpu.proc ≡ some r'
    → g r' ≡ g (closed r)
field_left g k {r} {r'} kept at there = go k.machine.cpu.proc at there
  where
    go :
        (p : ℕ)
        → proc_at k.procs p ≡ some r
        → proc_at (reparent nproc 1 p k.initproc (wakeup1 r.parent (write_proc k.procs p closed))) p
          ≡ some r'
        → g r' ≡ g (closed r)
    go zero e f = absurd (cc)
    go (suc c) e f =
        let start = modify k.procs c closed in
        some-injective _ _ (
          ap (Option.map g) (sym f)
          ∙ field-reparent g kept (suc c) k.initproc nproc 0 (wakeup1 r.parent start) c
          ∙ field-wakeup1 g kept r.parent start c
          ∙ ap (Option.map g) (get_elem?-modify_self k.procs c closed e))

parent_written :
    (ps : List Proc) (p : ℕ) (f : Proc → Proc) (j : ℕ)
    → ((q : Proc) → (f q).parent ≡ q.parent)
    → parent_at (write_proc ps p f) j ≡ parent_at ps j
parent_written ps zero f j same = refl
parent_written ps (suc c) f j same = field-modify (λ q. q.parent) f ps c j same

children_left :
    (k : Kernel) (r : Proc) (j : ℕ)
    → parent_at (write_proc (table_left k r) k.machine.cpu.proc (with_state zombie)) j ≡ (
        if ltb j nproc
        then Option.map (redirect k.machine.cpu.proc k.initproc) (parent_at k.procs j)
        else parent_at k.procs j)
children_left k r j =
    let p = k.machine.cpu.proc in
    let before : parent_at (wakeup1 r.parent (table_closed k)) j ≡ parent_at k.procs j =
      parent-wakeup1 r.parent (table_closed k) j ∙ parent_written k.procs p closed j (λ q. refl) in
    let low : leb 0 j ≡ true = ground arith in
    parent_written (table_left k r) p (with_state zombie) j (λ q. refl)
    ∙ parent-reparent p k.initproc nproc 0 (wakeup1 r.parent (table_closed k)) j
    ∙ rw (low, before) refl

zombie-NoSleeper :
    (chan : ℕ) (ps : List Proc) (p : ℕ)
    → NoSleeper chan ps
    → NoSleeper chan (write_proc ps p (with_state zombie))
zombie-NoSleeper chan ps zero h = h
zombie-NoSleeper chan [] (suc c) h = h
zombie-NoSleeper chan (q ∷ ps) (suc zero) h = go
  where
    go : NoSleeper chan (with_state zombie q ∷ ps)
    go zero s e = ap (waits chan) (sym (some-injective _ _ e))
    go (suc j) s e = h (suc j) s e
zombie-NoSleeper chan (q ∷ ps) (suc (suc c)) h =
    go (zombie-NoSleeper chan ps (suc c) (λ j. h (suc j)))
  where
    go :
        NoSleeper chan (modify ps c (with_state zombie))
        → NoSleeper chan (q ∷ modify ps c (with_state zombie))
    go rest zero s e = h 0 s e
    go rest (suc j) s e = rest j s e

IsKept-ofile : IsKept (λ p. p.ofile)
unfolding wake
IsKept-ofile = record { by_wake = λ c p. ground arith; by_parent = λ i p. refl }

IsKept-cwd : IsKept (λ p. p.cwd)
unfolding wake
IsKept-cwd = record { by_wake = λ c p. ground arith; by_parent = λ i p. refl }

IsKept-pid : IsKept (λ p. p.pid)
unfolding wake
IsKept-pid = record { by_wake = λ c p. ground arith; by_parent = λ i p. refl }

-- exit up to its switch, of a process that is not init, with the table's lock free: its open files
-- are closed in order and its directory is given back within an operation of the file system; it
-- holds the table's lock; it is a ZOMBIE without files, its children among the 64 slots are init's,
-- and nobody sleeps on the channel on which its parent waits.
pub exit_lem :
    (k : Kernel) {r : Proc}
    → MayLock ptable_lock k.machine
    → k.machine.cpu.proc ≢ k.initproc
    → proc_at k.procs k.machine.cpu.proc ≡ some r
    → (ps : List Proc) × (exit_prepare k
        ≡ ok (record k {
          machine = entered ptable_lock (left k.machine);
          procs = ps;
          calls =
              end_op
              ∷ iput r.cwd
              ∷ begin_op
              ∷ (reverse (map fileclose (open_files r.ofile)) ++ k.calls);
        }))
      × IsEnded k r ps
exit_lem k {r} may other at =
    let p = k.machine.cpu.proc in
    let (r', there) = slot_left k at in
    let ps = write_proc (table_left k r) p (with_state zombie) in
    (
      ps,
      exit_prepare-ended k may other at ∙ (λ i. ok (record (ended k r) {
        calls = end_op ∷ iput r.cwd ∷ begin_op ∷ close_calls-open_files r.ofile k.calls i;
      })),
      record {
        self = with_state zombie r';
        slot = proc_at-write (table_left k r) p (with_state zombie) there;
        state = refl;
        ofile = field_left (λ q. q.ofile) k IsKept-ofile at there ∙ close_files-replicate r.ofile;
        cwd = field_left (λ q. q.cwd) k IsKept-cwd at there;
        pid = field_left (λ q. q.pid) k IsKept-pid at there;
        children = children_left k r;
        woken = zombie-NoSleeper r.parent (table_left k r) p (
            reparent-keeps r.parent p k.initproc nproc 0 (wakeup1 r.parent (table_closed k))
              (wakeup1-NoSleeper r.parent (table_closed k)));
      },
    )
