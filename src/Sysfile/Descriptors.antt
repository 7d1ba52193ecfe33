-- ===== src/Sysfile/Descriptors.antt =====
-- dup and close on the descriptors of a process.
use soproyecto.Common.{
  ℕ, zero, suc, ◌+◌, ◌<◌, ◌^◌, ◌≡◌, refl, sym, ap, ◌∙◌, subst, false, Bool-cases, inl, inr, some,
  List, [], ◌∷◌, length, get_elem?, set, get_elem?-set_self, get_elem?-lt, set_same, set-set, ok,
  ◌==◌, leb, arith, Option-cases,
}
use soproyecto.Machine.{Machine, update_self}
use soproyecto.Proc.Defs.{Kernel, Proc, modify, proc_at, write_proc}
use soproyecto.Proc.Enter.{IsCalm, left, left-left, MayLock-left, myproc_lem, deref_lem, assign_lem}
use soproyecto.Files.{Files, InodeOps, with_kernel, with_file}
use soproyecto.Files.Entries.{
  Lockable, calm, filedup-counted, fileclose-counted, update-back, calm-calm,
}
use soproyecto.Sysfile.{nofile, fd_arg, free_fd, with_fd, fdalloc, dup_arg, clear_fd, close_arg}

free_fd-some : (ofile : List ℕ) (fd : ℕ) → free_fd ofile ≡ some fd → get_elem? ofile fd ≡ some 0
unfolding free_fd
free_fd-some [] fd e = absurd (cc)
free_fd-some (v ∷ ofile) fd e = elim (Bool-cases (v == 0)) [
  | inl z ↦
      let here : fd ≡ 0 = ground (arith, e, z) in
      let null : v ≡ 0 = ground (arith, z) in
      subst (λ i. get_elem? (v ∷ ofile) i ≡ some 0) (sym here) (ap some null)
  | inr o ↦ elim (Option-cases (free_fd ofile)) [
    | inl full ↦ ground (arith, e, o, full)
    | inr (i, at) ↦
        let next : suc i ≡ fd = ground (arith, e, o, at) in
        subst (λ j. get_elem? (v ∷ ofile) j ≡ some 0) next (free_fd-some ofile i at)
  ]
]

module _ {A : Type 0} where
  modify-modify :
      (xs : List A) (i : ℕ) (f g : A → A) {x : A}
      → get_elem? xs i ≡ some x
      → g (f x) ≡ x
      → modify (modify xs i f) i g ≡ xs
  modify-modify [] i f g at back = refl
  modify-modify (y ∷ xs) zero f g {x} at back =
      let same : y ≡ x = ground (arith, at) in
      ap (λ v. v ∷ xs) (ap (λ v. g (f v)) same ∙ back ∙ sym same)
  modify-modify (y ∷ xs) (suc i) f g at back = ap (λ l. y ∷ l) (modify-modify xs i f g at back)

  get_elem?-modify :
      (xs : List A) (i : ℕ) (f : A → A) {x : A}
      → get_elem? xs i ≡ some x
      → get_elem? (modify xs i f) i ≡ some (f x)
  get_elem?-modify [] i f at = absurd (cc)
  get_elem?-modify (y ∷ xs) zero f at = ground (arith, at)
  get_elem?-modify (y ∷ xs) (suc i) f at = get_elem?-modify xs i f at

-- The same through pointers.
write_proc-write_proc :
    (ps : List Proc) (p : ℕ) (f g : Proc → Proc) {r : Proc}
    → proc_at ps p ≡ some r
    → g (f r) ≡ r
    → write_proc (write_proc ps p f) p g ≡ ps
write_proc-write_proc ps zero f g at back = refl
write_proc-write_proc ps (suc i) f g at back = modify-modify ps i f g at back

proc_at-write_proc :
    (ps : List Proc) (p : ℕ) (f : Proc → Proc) {r : Proc}
    → proc_at ps p ≡ some r
    → proc_at (write_proc ps p f) p ≡ some (f r)
proc_at-write_proc ps zero f at = absurd (cc)
proc_at-write_proc ps (suc i) f at = get_elem?-modify ps i f at

-- The table and the processes after a critical section, with a change of the process `p`.
abbrev pub with_procs : List Proc → Files → Files
with_procs ps w = with_kernel (record w.kernel { machine = left w.kernel.machine; procs = ps }) w

module _ (w : Files) {r : Proc} (safe : IsCalm w.kernel.machine.cpu)
    (at : proc_at w.kernel.procs w.kernel.machine.cpu.proc ≡ some r) where
  fdalloc-placed :
      (f fd : ℕ)
      → free_fd r.ofile ≡ some fd
      → fdalloc f w
        ≡ ok (
          some fd,
          with_procs (write_proc w.kernel.procs w.kernel.machine.cpu.proc (with_fd fd (suc f))) w,
        )
  unfolding fdalloc
  fdalloc-placed f fd free =
      let k = (calm w).kernel in
      rw (myproc_lem w.kernel safe) (
        rw (deref_lem w.kernel.machine.cpu.proc k at)
          (rw free (rw (assign_lem w.kernel.machine.cpu.proc (with_fd fd (suc f)) k at) refl)))

  clear_fd-cleared :
      (fd : ℕ)
      → clear_fd fd w
        ≡ ok (with_procs (write_proc w.kernel.procs w.kernel.machine.cpu.proc (with_fd fd 0)) w)
  unfolding clear_fd
  clear_fd-cleared fd =
      rw (myproc_lem w.kernel safe)
        (rw (assign_lem w.kernel.machine.cpu.proc (with_fd fd 0) (calm w).kernel at) refl)

  fd_arg-open :
      (fd f : ℕ)
      → fd < nofile
      → get_elem? r.ofile fd ≡ some (suc f)
      → fd_arg (some fd) w ≡ ok (some (fd, f), calm w)
  fd_arg-open fd f h there =
      let valid : leb nofile fd ≡ false = ground (arith, h) in
      rw valid (
        rw (myproc_lem w.kernel safe)
          (rw (deref_lem w.kernel.machine.cpu.proc (calm w).kernel at) (rw there refl)))

IsCalm-left : (m : Machine) → IsCalm m.cpu → IsCalm (left m).cpu
IsCalm-left m safe = record { nested = safe.nested; room = safe.room }

-- The state after dup of the file `f` into the descriptor `new`.
abbrev pub duplicated : Files → (f new : ℕ) → Files
duplicated w f new =
    let ps = write_proc w.kernel.procs w.kernel.machine.cpu.proc (with_fd new (suc f)) in
    calm (with_file f (record (w.files f) { ref = (w.files f).ref + 1 }) (with_procs ps w))

module _ (inodes : InodeOps) (swtch : Kernel → Kernel) (fuel : ℕ) (w : Files) (fd f new : ℕ) where
  restored :
      {r : Proc}
      → proc_at w.kernel.procs w.kernel.machine.cpu.proc ≡ some r
      → get_elem? r.ofile new ≡ some 0
      → (let p = w.kernel.machine.cpu.proc in
          calm (
            with_file f (w.files f) (
              with_procs
                (write_proc (duplicated w f new).kernel.procs p (with_fd new 0))
                (duplicated w f new)))
          ≡ calm w)
  restored {r} at free =
      let p = w.kernel.machine.cpu.proc in
      let m = w.kernel.machine in
      let machines : left (left (left (left m))) ≡ left m =
        left-left (left (left m)) ∙ left-left (left m) ∙ left-left m in
      let ofiles : set (set r.ofile new (suc f)) new 0 ≡ r.ofile =
        set-set r.ofile new (suc f) 0 ∙ set_same r.ofile new free in
      let procs : write_proc (write_proc w.kernel.procs p (with_fd new (suc f))) p (with_fd new 0)
          ≡ w.kernel.procs =
        write_proc-write_proc w.kernel.procs p (with_fd new (suc f)) (with_fd new 0) at
          (ap (λ l. record r { ofile = l }) ofiles) in
      let files = update-back w.files f (record (w.files f) { ref = (w.files f).ref + 1 }) in
      λ i. record {
        kernel = record w.kernel { machine = machines i; procs = procs i };
        files = files i;
      }

  -- dup of the file `f` gives the first free descriptor `new` and counts one reference more; `new`
  -- then stands for `f`, and close of `new` leaves the process and the table of files as they were.
  -- The running process has 16 descriptors, the table is not locked, the file is open, and its
  -- count has room for one reference more.
  pub dup_arg-close_arg :
      {r : Proc}
      → Lockable w
      → IsCalm w.kernel.machine.cpu
      → proc_at w.kernel.procs w.kernel.machine.cpu.proc ≡ some r
      → length r.ofile ≡ nofile
      → free_fd r.ofile ≡ some new
      → 0 < (w.files f).ref
      → (w.files f).ref + 1 < 2 ^ 31
      → (dup_arg (some (fd, f)) w ≡ ok (new, (duplicated w f new)))
        × (fd_arg (some new) (duplicated w f new) ≡ ok (some (new, f), (duplicated w f new)))
        × (close_arg inodes swtch fuel (some (new, f)) (duplicated w f new) ≡ ok (0, calm w))
  unfolding dup_arg close_arg
  dup_arg-close_arg {r} may safe at sixteen free open' room =
      let p = w.kernel.machine.cpu.proc in
      let more = record (w.files f) { ref = (w.files f).ref + 1 } in
      let w₀ = with_procs (write_proc w.kernel.procs p (with_fd new (suc f))) w in
      let may₀ = MayLock-left 71 w.kernel.machine may in
      let null = free_fd-some r.ofile new free in
      let bound = get_elem?-lt r.ofile new null in
      let safe₁ = IsCalm-left (left w.kernel.machine) (IsCalm-left w.kernel.machine safe) in
      let at₁ = proc_at-write_proc w.kernel.procs p (with_fd new (suc f)) at in
      let w₂ =
        with_procs (write_proc (duplicated w f new).kernel.procs p (with_fd new 0))
          (duplicated w f new) in
      let may₂ =
        MayLock-left 71 (left (left w.kernel.machine))
          (MayLock-left 71 (left w.kernel.machine) may₀) in
      (
        rw (fdalloc-placed w safe at f new free) (rw (filedup-counted f w₀ may₀ open' room) refl),
        fd_arg-open (duplicated w f new) safe₁ at₁ new f (omega (arith, bound, sixteen))
              (get_elem?-set_self r.ofile new (suc f) bound)
            ∙ ap (λ v. ok (some (new, f), v)) (calm-calm (with_file f more w₀)),
        rw (clear_fd-cleared (duplicated w f new) safe₁ at₁ new) (
            rw
              (fileclose-counted inodes swtch fuel f w₂ may₂ (w.files f)
                (update_self w.files f more) open' room)
              (ap (λ v. ok (0, v)) (restored at null))),
      )
