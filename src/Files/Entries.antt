-- ===== src/Files/Entries.antt =====
-- filealloc, filedup and fileclose on the entries of the table.
use soproyecto.Common.{
  ℕ, zero, suc, ◌+◌, ◌<◌, ◌^◌, ◌%◌, ◌-◌, ◌≡◌, refl, ap, ◌∙◌, subst, fun_ext, false, Bool-cases, inl,
  inr, some, ok, ◌>>=◌, ◌==◌, arith, Option-cases,
}
use soproyecto.Machine.{Machine, update, update_self}
use soproyecto.Machine.Locks.{MayLock}
use soproyecto.Proc.Defs.{Kernel}
use soproyecto.Proc.Enter.{entered, left, lock-entered, unlock-entered, MayLock-left, left-left}
use soproyecto.Files.{
  File, Files, fd_none, InodeOps, ftable_lock, nfile, with_file, with_kernel, lock_files,
  unlock_files, find_file, take_file, filealloc, filedup, fileclose, unreferenced,
}

abbrev pub machine_of : Files → Machine
machine_of w = w.kernel.machine

abbrev pub with_machine : Machine → Files → Files
with_machine m w = with_kernel (record w.kernel { machine = m }) w

-- The files after a critical section.
abbrev pub calm : Files → Files
calm w = with_machine (left (machine_of w)) w

-- The table of files may be locked.
abbrev pub Lockable : Files → Type 0
Lockable w = MayLock ftable_lock (machine_of w)

pub calm-calm : (w : Files) → calm (calm w) ≡ calm w
calm-calm w = λ i. with_machine (left-left (machine_of w) i) w

pub Lockable-calm : (w : Files) → Lockable w → Lockable (calm w)
Lockable-calm w may = MayLock-left ftable_lock (machine_of w) may

module _ {ℓ} {A : Type ℓ} (g : ℕ → A) where
  pub update-back : (a : ℕ) (v : A) → update (update g a v) a (g a) ≡ g
  update-back a v = fun_ext (λ c. elim (Bool-cases (a == c)) [
    | inl e ↦ rw e (ap g (ground (arith, e)))
    | inr e ↦ rw e refl
  ])

lock_files-entered :
    (w : Files)
    → Lockable w
    → lock_files w ≡ ok (with_machine (entered ftable_lock (machine_of w)) w)
unfolding lock_files
lock_files-entered w may = rw (lock-entered ftable_lock w.kernel may) refl

-- A change of the table within the lock.
unlock_files-entered :
    (w : Files) (files : ℕ → File)
    → Lockable w
    → unlock_files (record (with_machine (entered ftable_lock (machine_of w)) w) { files = files })
      ≡ ok (record (calm w) { files = files })
unfolding unlock_files
unlock_files-entered w files may =
    let inside : Kernel = record w.kernel { machine = entered ftable_lock (machine_of w) } in
    rw (unlock-entered ftable_lock (machine_of w) inside may refl) refl

-- The entry is the first of `n` from `i` on without a reference.
pub find_file-some :
    (n i : ℕ) (files : ℕ → File) {f : ℕ} → find_file n i files ≡ some f → (files f).ref ≡ 0
unfolding find_file
find_file-some zero i files e = absurd (cc)
find_file-some (suc n) i files {f} e = elim (Bool-cases ((files i).ref == 0)) [
  | inl free ↦
      let here : i ≡ f = ground (arith, e, free) in
      subst (λ j. (files j).ref ≡ 0) here (ground (arith, free))
  | inr taken ↦ find_file-some n (i + 1) files (ground (arith, e, taken))
]

pub filealloc-found :
    (w : Files)
    → Lockable w
    → filealloc w ≡ ok (find_file nfile 0 w.files, calm (take_file (find_file nfile 0 w.files) w))
unfolding filealloc
filealloc-found w may =
    rw (lock_files-entered w may) (elim (Option-cases (find_file nfile 0 w.files)) [
      | inl e ↦ rw e (rw (unlock_files-entered w w.files may) refl)
      | inr (f, e) ↦
          rw e (
            rw (unlock_files-entered w (update w.files f (record (w.files f) { ref = 1 })) may)
              refl)
    ])

-- An entry that is free again.
abbrev pub freed : ℕ → Files → Files
freed f w = with_file f (record (w.files f) { ref = 0; type = fd_none }) w

pub filedup-counted :
    (f : ℕ) (w : Files)
    → Lockable w
    → 0 < (w.files f).ref
    → (w.files f).ref + 1 < 2 ^ 31
    → filedup f w ≡ ok (calm (with_file f (record (w.files f) { ref = (w.files f).ref + 1 }) w))
unfolding filedup
filedup-counted f w may open' room =
    let live : unreferenced (w.files f) ≡ false = ground arith in
    let next : ((w.files f).ref + 1) % 2 ^ 32 ≡ (w.files f).ref + 1 = omega arith in
    rw (lock_files-entered w may) (
      rw (live, next)
        (unlock_files-entered w
          (update w.files f (record (w.files f) { ref = (w.files f).ref + 1 })) may))

module _ (inodes : InodeOps) (swtch : Kernel → Kernel) (fuel : ℕ) where
  pub fileclose-counted :
      (f : ℕ) (w : Files)
      → Lockable w
      → (e : File) → w.files f ≡ record e { ref = e.ref + 1 }
      → 0 < e.ref
      → e.ref + 1 < 2 ^ 31
      → fileclose inodes swtch fuel f w ≡ ok (calm (with_file f e w))
  unfolding fileclose
  fileclose-counted f w may e now open' room =
      let live : unreferenced (record e { ref = e.ref + 1 }) ≡ false = ground arith in
      let less : (e.ref + 1 + 2 ^ 32 - 1) % 2 ^ 32 ≡ e.ref = omega arith in
      let more : (e.ref == 0) ≡ false = ground arith in
      rw (lock_files-entered w may)
        (rw now (rw (live, less, more) (unlock_files-entered w (update w.files f e) may)))

  -- The last reference to a file that was never set up.
  pub fileclose-new :
      (f : ℕ) (w : Files)
      → Lockable w
      → (w.files f).ref ≡ 1
      → (w.files f).type ≡ fd_none
      → fileclose inodes swtch fuel f w ≡ ok (calm (freed f w))
  unfolding fileclose
  fileclose-new f w may last new =
      rw (lock_files-entered w may)
        (rw (last, new) (rw (unlock_files-entered w (freed f w).files may) refl))

  -- filedup and then fileclose leave an open file and the table as they were, if the count of
  -- references has room for one more and the table is not locked.
  pub filedup-fileclose :
      (f : ℕ) (w : Files)
      → Lockable w
      → 0 < (w.files f).ref
      → (w.files f).ref + 1 < 2 ^ 31
      → (filedup f w >>= fileclose inodes swtch fuel f) ≡ ok (calm w)
  filedup-fileclose f w may open' room =
      let more : File = record (w.files f) { ref = (w.files f).ref + 1 } in
      let w₁ : Files = calm (with_file f more w) in
      let at : w₁.files f ≡ more = update_self w.files f more in
      rw (filedup-counted f w may open' room) (
        fileclose-counted f w₁ (Lockable-calm (with_file f more w) may) (w.files f) at open' room
        ∙ ap ok (calm-calm _ ∙ (λ i. calm (record w { files = update-back w.files f more i }))))
