-- ===== src/Log/Stages.antt =====
-- The stages of a commit, and what is on the disk after each.
use soproyecto.Common.{
  ℕ, ◌+◌, ◌-◌, ◌<◌, ◌≤◌, ◌≡◌, ◌≢◌, ◌⊎◌, inl, inr, refl, sym, ap, ◌∙◌, true, false, ◌==◌, ltb, leb,
  arith,
}
use soproyecto.Proc.Defs.{Store, Log}
use soproyecto.Log.{
  fill, bwrite, copy_blocks, log_block, install_trans, write_log, header, write_head, commit,
}
use soproyecto.Machine.{update_self, update_ne}
use soproyecto.Log.Copying.{
  IsPlan, Copied, copy_blocks-power, copy_blocks-disk, copy_blocks-off, copy_blocks-all,
  copy_blocks-cached,
}
use soproyecto.Log.Recovery.{Outside, bwrite-ne, IsPlan-install}

bwrite_cache : (a : ℕ) (s : Store) (b : ℕ) → (bwrite a s).cache b ≡ s.cache b
bwrite_cache a s b = ground arith

pub bwrite_off : (a : ℕ) (s : Store) → s.power ≡ 0 → bwrite a s ≡ s
bwrite_off a s off = let none_left : (s.power == 0) ≡ true = ground arith in rw none_left refl

pub bwrite_on : (a : ℕ) (s : Store) → s.power ≢ 0 → (bwrite a s).disk a ≡ s.cache a
bwrite_on a s on =
    let left : (s.power == 0) ≡ false = ground arith in rw left (update_self s.disk a (s.cache a))

power-bwrite : (a : ℕ) (s : Store) → (bwrite a s).power ≡ s.power - 1
power-bwrite a s = ground arith

pub commit-none : (l : Log) → ltb 0 l.n ≡ false → commit l ≡ l
unfolding commit
commit-none l none' = rw none' refl

module _ (l : Log) (home : (i : ℕ) → i < l.n → Outside l.start l.n (l.block i)) where
  -- What write_log puts into the blocks of the log.
  abbrev pub logged : ℕ → ℕ → ℕ
  logged b = l.store.cache (l.block (b - l.start - 1))

  logged_at : (i : ℕ) → logged (log_block l i) ≡ l.store.cache (l.block i)
  logged_at i =
      let place : l.start + i + 1 - l.start - 1 ≡ i = omega arith in
      ap (λ j. l.store.cache (l.block j)) place

  pub IsPlan-log : IsPlan l.block (log_block l) logged l.n 0 l.store
  IsPlan-log = record {
    given = λ i h.
        let place : l.start + i + 1 - l.start - 1 ≡ i = omega arith in
        ap (λ j. l.store.cache (l.block j)) (sym place);
    apart = λ i j h h' e. ground (arith, home i (omega arith), e, h'.1);
  }

  unfoldable pub s₁ : Store
  s₁ = copy_blocks l.n 0 l.block (log_block l) l.store

  -- Writing the log changes no block outside it, nor the header.
  pub s₁-disk : (b : ℕ) → (b ≤ l.start) ⊎ (l.start + l.n < b) → s₁.disk b ≡ l.store.disk b
  unfolding s₁
  s₁-disk b out = elim (copy_blocks-disk l.block (log_block l) logged l.n 0 l.store IsPlan-log b) [
    | inl e ↦ e
    | inr (i, among, here, _) ↦ absurd (ground (arith, out, here, among.1))
  ]

  unfoldable pub s₂ : Store
  unfolding s₁
  s₂ = bwrite l.start (fill l.start (header l.n l.block (s₁.cache l.start)) s₁)

  s₂-cache : (i : ℕ) → i < l.n → s₂.cache (log_block l i) ≡ l.store.cache (l.block i)
  unfolding s₁ s₂
  s₂-cache i h =
      bwrite_cache l.start (fill l.start (header l.n l.block (s₁.cache l.start)) s₁) (log_block l i)
      ∙ update_ne s₁.cache l.start (log_block l i) (header l.n l.block (s₁.cache l.start))
          (λ e. omega (arith, e))
      ∙ copy_blocks-cached l.block (log_block l) logged l.n 0 l.store IsPlan-log i (omega arith)
      ∙ logged_at i

  pub IsPlan-commit : IsPlan (log_block l) l.block l.store.cache l.n 0 s₂
  IsPlan-commit =
      IsPlan-install l l.block l.store.cache l.n l.n s₂ (omega arith)
        (λ i h. (home i h, s₂-cache i h))

  unfoldable pub s₃ : Store
  unfolding s₂
  s₃ = copy_blocks l.n 0 (log_block l) l.block s₂

  unfoldable pub s₄ : Store
  unfolding s₃
  s₄ = bwrite l.start (fill l.start (header 0 l.block (s₃.cache l.start)) s₃)

  pub commit-s₄ : 0 < l.n → commit l ≡ record l { n = 0; store = s₄ }
  unfolding commit write_head install_trans write_log s₄
  commit-s₄ h = let some_blocks : ltb 0 l.n ≡ true = ground (arith, h) in rw some_blocks refl

  -- The disk after the commit, when the power failed before the header was written.
  pub early : s₁.power ≡ 0 → (b : ℕ) → s₄.disk b ≡ s₁.disk b
  unfolding s₂ s₃ s₄
  early off b =
      let f = fill l.start (header l.n l.block (s₁.cache l.start)) s₁ in
      let e₂ : s₂ ≡ f = bwrite_off l.start f off in
      let off₂ : s₂.power ≡ 0 = ap (λ s. s.power) e₂ ∙ off in
      let off₃ : s₃.power ≡ 0 =
        copy_blocks-power (log_block l) l.block l.store.cache l.n 0 s₂ ∙ omega (arith, off₂) in
      ap (λ s. s.disk b)
        (bwrite_off l.start (fill l.start (header 0 l.block (s₃.cache l.start)) s₃) off₃)
      ∙ copy_blocks-off (log_block l) l.block l.store.cache l.n 0 s₂ off₂ b
      ∙ ap (λ s. s.disk b) e₂

  s₂-disk : (b : ℕ) → l.start ≢ b → s₂.disk b ≡ s₁.disk b
  unfolding s₂
  s₂-disk b ne = bwrite-ne l.start b (fill l.start (header l.n l.block (s₁.cache l.start)) s₁) ne

  pub s₃-disk : (b : ℕ) → Copied l.block l.store.cache l.n 0 s₂.disk s₃.disk b
  unfolding s₃
  s₃-disk b = copy_blocks-disk (log_block l) l.block l.store.cache l.n 0 s₂ IsPlan-commit b

  -- The log and its header are not among the blocks that are installed.
  pub s₃-log : (b : ℕ) → l.start ≤ b → b ≤ l.start + l.n → s₃.disk b ≡ s₂.disk b
  s₃-log b low high = elim (s₃-disk b) [
    | inl e ↦ e
    | inr (i, among, here, _) ↦
        absurd (ground (arith, home i (omega (arith, among.1)), here, low, high))
  ]

  pub s₂-Outside : (b : ℕ) → Outside l.start l.n b → s₂.disk b ≡ l.store.disk b
  s₂-Outside b out = s₂-disk b (λ e. ground (arith, out, e)) ∙ s₁-disk b (ground (arith, out))

  module _ (on : s₁.power ≢ 0) where
    pub head₂ : s₂.disk l.start ≡ header l.n l.block (s₁.cache l.start)
    unfolding s₂
    head₂ =
        bwrite_on l.start (fill l.start (header l.n l.block (s₁.cache l.start)) s₁) on
        ∙ update_self s₁.cache l.start (header l.n l.block (s₁.cache l.start))

    pub log₂ : (i : ℕ) → i < l.n → s₂.disk (log_block l i) ≡ l.store.cache (l.block i)
    unfolding s₁
    log₂ i h =
        s₂-disk (log_block l i) (λ e. omega (arith, e))
        ∙ copy_blocks-all l.block (log_block l) logged l.n 0 l.store IsPlan-log
            (omega (arith, on, copy_blocks-power l.block (log_block l) logged l.n 0 l.store)) i
            (omega arith)
        ∙ logged_at i

  pub header_word : (i : ℕ) (d : ℕ → ℕ) → i < l.n → header l.n l.block d (i + 1) ≡ l.block i
  header_word i d h =
      let later : (i + 1 == 0) ≡ false = ground arith in
      let within : leb (i + 1) l.n ≡ true = ground arith in
      let place : i + 1 - 1 ≡ i = omega arith in rw (later, within) (ap l.block place)
