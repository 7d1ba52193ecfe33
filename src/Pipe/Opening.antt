-- ===== src/Pipe/Opening.antt =====
-- A pipealloc that fails gives back what it has taken.
use soproyecto.Common.{
  ℕ, ◌≡◌, ◌≢◌, refl, sym, ap, ◌∙◌, fun_ext, Bool-cases, inl, inr, none, some, Run, ok, ◌==◌, arith,
  Option-cases,
}
use soproyecto.Machine.{update, update_self, update_ne}
use soproyecto.Proc.Defs.{Kernel}
use soproyecto.Files.{
  File, Files, fd_none, InodeOps, nfile, with_file, find_file, take_file, fileclose,
}
use soproyecto.Files.Entries.{
  calm, Lockable, calm-calm, Lockable-calm, update-back, find_file-some, filealloc-found, freed,
  fileclose-new,
}
use soproyecto.Pipe.Alloc.{pipealloc, bad_pipe}

-- An entry without a reference has no type, as fileclose leaves it.
abbrev pub IsClean : Files → Type 0
IsClean w = (f : ℕ) → (w.files f).ref ≡ 0 → (w.files f).type ≡ fd_none

module _ {ℓ} {A : Type ℓ} (g : ℕ → A) where
  update-back_two :
      (a b : ℕ) (v w : A) → update (update (update (update g a v) b w) a (g a)) b (g b) ≡ g
  update-back_two a b v w = fun_ext (λ c. elim (Bool-cases (b == c)) [
    | inl e ↦ rw e (ap g (ground (arith, e)))
    | inr other ↦ elim (Bool-cases (a == c)) [
      | inl e ↦ rw (other, e) (ap g (ground (arith, e)))
      | inr e ↦ rw (other, e) refl
    ]
  ])

abbrev taken : ℕ → Files → Files
taken f w = take_file (some f) w

-- The entry `e` was free when it was taken.
freed_taken :
    (f : ℕ) (w : Files) (e : File)
    → w.files f ≡ record e { ref = 1 }
    → e.ref ≡ 0
    → e.type ≡ fd_none
    → freed f w ≡ with_file f e w
freed_taken f w e now free new =
    ap (λ x. with_file f (record x { ref = 0; type = fd_none }) w) now
    ∙ (λ i. with_file f (record e { ref = sym free i; type = sym new i }) w)

-- The entry `f`, taken.
abbrev held : ℕ → Files → File
held f w = record (w.files f) { ref = 1 }

module _ (inodes : InodeOps) (swtch : Kernel → Kernel) (fuel : ℕ) where
  abbrev close : ℕ → Files → Run Files
  close = fileclose inodes swtch fuel

  close-held :
      (f : ℕ) (w : Files) (e : File)
      → Lockable w
      → w.files f ≡ record e { ref = 1 }
      → e.ref ≡ 0
      → e.type ≡ fd_none
      → close f w ≡ ok (calm (with_file f e w))
  close-held f w e may now free new =
      fileclose-new inodes swtch fuel f w may (ap (λ x. x.ref) now) (ap (λ x. x.type) now ∙ new)
      ∙ ap (λ x. ok (calm x)) (freed_taken f w e now free new)

  -- One entry has been taken, and there is no other.
  give_back_one :
      (a : ℕ) (w : Files)
      → Lockable w
      → (w.files a).ref ≡ 0
      → (w.files a).type ≡ fd_none
      → bad_pipe inodes swtch fuel (some a) none (calm (calm (taken a w))) ≡ ok (none, calm w)
  unfolding bad_pipe
  give_back_one a w may free new =
      let w₀ : Files = calm (taken a w) in
      let w₁ : Files = calm w₀ in
      let now : w₁.files a ≡ held a w = update_self w.files a (held a w) in
      rw (close-held a w₁ (w.files a) (Lockable-calm w₀ (Lockable-calm w may)) now free new) (
        ap (λ x. ok (none, x))
          (calm-calm _
            ∙ calm-calm _
            ∙ (λ i. calm (record w { files = update-back w.files a (held a w) i }))))

  give_back_none : (w : Files) → bad_pipe inodes swtch fuel none none w ≡ ok (none, w)
  unfolding bad_pipe
  give_back_none w = refl

  -- Two entries have been taken, and there is no page.
  give_back_two :
      (a b : ℕ) (w : Files)
      → Lockable w
      → IsClean w
      → (w.files a).ref ≡ 0
      → ((taken a w).files b).ref ≡ 0
      → bad_pipe inodes swtch fuel (some a) (some b) (calm (taken b (calm (taken a w))))
        ≡ ok (none, calm w)
  unfolding bad_pipe
  give_back_two a b w may clean free_a free_b =
      let apart : a ≢ b = λ e.
        let one : ((taken a w).files b).ref ≡ 1 =
          ap (λ c. ((taken a w).files c).ref) (sym e)
          ∙ ap (λ x. x.ref) (update_self w.files a (held a w)) in
        omega (arith, one, free_b) in
      let same : (taken a w).files b ≡ w.files b = update_ne w.files a b (held a w) apart in
      let free : (w.files b).ref ≡ 0 = ap (λ x. x.ref) (sym same) ∙ free_b in
      let w₁ : Files = calm (taken a w) in
      let w₂ : Files = calm (taken b w₁) in
      let w₃ : Files = calm (with_file a (w.files a) w₂) in
      let now_a : w₂.files a ≡ held a w =
        update_ne (taken a w).files b a (held b (taken a w)) (λ e. apart (sym e))
        ∙ update_self w.files a (held a w) in
      let now_b : w₃.files b ≡ held b w =
        update_ne w₂.files a b (w.files a) apart
        ∙ update_self (taken a w).files b (held b (taken a w))
        ∙ ap {A = File} (λ x. record x { ref = 1 }) same in
      let may₂ : Lockable w₂ = Lockable-calm (taken b w₁) (Lockable-calm (taken a w) may) in
      rw (close-held a w₂ (w.files a) may₂ now_a free_a (clean a free_a)) (
        rw (close-held b w₃ (w.files b) (Lockable-calm w₂ may₂) now_b free (clean b free)) (
          ap (λ x. ok (none, x))
            (calm-calm _ ∙ calm-calm _ ∙ calm-calm _ ∙ (λ i. calm (record w {
              files = update-back_two w.files a b (held a w) (held b (taken a w)) i;
            })))))

  -- Without memory for the pipe, pipealloc fails, whether there are entries for its two files or
  -- not, and leaves the files as they were and the table unlocked: if the table is not locked and
  -- its free entries have no type.
  pub pipealloc-no_memory :
      (w : Files) → Lockable w → IsClean w → pipealloc inodes swtch fuel none w ≡ ok (none, calm w)
  unfolding pipealloc
  pipealloc-no_memory w may clean =
      rw (filealloc-found w may) (elim (Option-cases (find_file nfile 0 w.files)) [
        | inl e ↦ rw e (give_back_none (calm w))
        | inr (a, e) ↦
            let w₁ : Files = calm (taken a w) in
            let free : (w.files a).ref ≡ 0 = find_file-some nfile 0 w.files e in
            rw e (
              rw (filealloc-found w₁ (Lockable-calm w may))
                (elim (Option-cases (find_file nfile 0 w₁.files)) [
                  | inl full ↦ rw full (give_back_one a w may free (clean a free))
                  | inr (b, found) ↦
                      rw found
                        (give_back_two a b w may clean free (find_file-some nfile 0 w₁.files found))
                ]))
      ])
