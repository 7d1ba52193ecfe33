-- ===== src/Log/Commit.antt =====
-- A commit that is cut off at any write, and the recovery from it.
use soproyecto.Common.{
  ℕ, ◌+◌, ◌<◌, ◌≤◌, ◌≡◌, ◌≢◌, ◌⊎◌, inl, inr, sym, subst, ap, ◌∙◌, true, ◌==◌, ltb, leb, Bool-cases,
  arith,
}
use soproyecto.Proc.Defs.{Log}
use soproyecto.Log.{fill, log_block, read_blocks, header, recover_from_log, commit}
use soproyecto.Machine.{update_self}
use soproyecto.Log.Copying.{Copied, copy_blocks-power, copy_blocks-all}
use soproyecto.Log.Recovery.{
  rebooted, Outside, Installed, bwrite-ne, Installed-Copied, recovered, recovered_clean,
}
use soproyecto.Log.Stages.{
  bwrite_off, bwrite_on, commit-none, logged, s₁, s₁-disk, s₂, IsPlan-commit, s₃, s₄, commit-s₄,
  early, s₃-disk, s₃-log, s₂-Outside, header_word, head₂, log₂,
}

module _ (l : Log) (home : (i : ℕ) → i < l.n → Outside l.start l.n (l.block i)) where
  -- The log after the commit, with what has reached the disk.
  ended : Log
  unfolding s₄
  ended = record l { n = 0; store = (s₄ l home) }

  module _ (junk : ℕ → ℕ) (p : ℕ) (enough : l.n ≤ p) where
    after : ℕ → ℕ → ℕ
    unfolding ended
    after = (recover_from_log (rebooted junk p ended)).store.disk

    -- A disk with the header and the log of the transaction on it, in part installed.
    reinstalled :
        ((w : ℕ) → (s₄ l home).disk l.start w ≡ header l.n l.block ((s₁ l home).cache l.start) w)
        → ((i : ℕ) → i < l.n → (s₄ l home).disk (log_block l i) ≡ l.store.cache (l.block i))
        → (b : ℕ) → Copied l.block l.store.cache l.n 0 l.store.disk (s₄ l home).disk b
        → Outside l.start l.n b
        → Installed l.n l.block l.store.disk l.store.cache b (after b)
    unfolding after ended
    reinstalled head saved b copied out =
        let c = (s₄ l home).disk l.start 0 in
        let count : c ≡ l.n = head 0 in
        let block = read_blocks c ((s₄ l home).disk l.start) junk in
        let here : (i : ℕ) → i < l.n → block i ≡ l.block i = λ i h.
          let inside : ltb i c ≡ true = ground (arith, h, count) in
          rw inside (head (i + 1) ∙ (header_word l home) i ((s₁ l home).cache l.start) h) in
        elim (recovered junk p ended l.store.cache l.n (omega (arith, count)) (omega (arith, count))
          (λ i h.
            let e = here i (omega (arith, count)) in
            (
              subst (Outside l.start l.n) (sym e) (home i (omega (arith, count))),
              saved i (omega (arith, count)) ∙ ap l.store.cache (sym e),
            ))
          b out) [
            | inl (i, h, e, f) ↦
                let h' : i < l.n = omega (arith, count) in inl (i, h', sym (here i h') ∙ e, f)
            | inr (absent, f) ↦ elim copied [
              | inl e ↦ inr ((λ i h g. absent i (omega (arith, count)) (here i h ∙ g)), f ∙ e)
              | inr (i, among, g, _) ↦
                  absurd (absent i (omega (arith, count)) (here i (omega arith) ∙ g))
            ]
          ]

    -- The power failed before the header: the old blocks.
    aborted :
        l.store.disk l.start 0 ≡ 0
        → (s₁ l home).power ≡ 0
        → (b : ℕ) → Outside l.start l.n b
        → after b ≡ l.store.disk b
    unfolding after ended
    aborted clean off b out =
        let same : (s₄ l home).disk l.start ≡ l.store.disk l.start =
          (early l home) off l.start ∙ (s₁-disk l home) l.start (inl (omega arith)) in
        recovered_clean junk p ended l.n (ap (λ d. d 0) same ∙ clean) b out
        ∙ (early l home) off b
        ∙ (s₁-disk l home) b (ground (arith, out))

    -- The power failed after the header and before it was cleared: the log is installed again.
    redone :
        (s₁ l home).power ≢ 0
        → (s₃ l home).power ≡ 0
        → (b : ℕ) → Outside l.start l.n b
        → Installed l.n l.block l.store.disk l.store.cache b (after b)
    unfolding after ended s₄
    redone on off b out =
        let same = λ (a : ℕ).
          ap (λ s. s.disk a)
            (bwrite_off l.start
              (fill l.start (header 0 l.block ((s₃ l home).cache l.start)) (s₃ l home)) off) in
        reinstalled
          (λ w.
            ap (λ d. d w)
              (same l.start
                ∙ (s₃-log l home) l.start (omega arith) (omega arith)
                ∙ (head₂ l home) on))
          (λ i h.
            same (log_block l i)
            ∙ (s₃-log l home) (log_block l i) (omega arith) (omega arith)
            ∙ (log₂ l home) on i h)
          b
          (elim ((s₃-disk l home) b) [
            | inl e ↦ inl (same b ∙ e ∙ (s₂-Outside l home) b out)
            | inr (i, among, here, e) ↦ inr (i, among, here, same b ∙ e)
          ])
          out

    -- The header was cleared, after everything was installed.
    finished :
        (s₁ l home).power ≢ 0
        → (s₃ l home).power ≢ 0
        → (b : ℕ) → Outside l.start l.n b
        → Installed l.n l.block l.store.disk l.store.cache b (after b)
    unfolding after ended s₃ s₄
    finished on on' b out =
        let f = fill l.start (header 0 l.block ((s₃ l home).cache l.start)) (s₃ l home) in
        let cleared : (s₄ l home).disk l.start 0 ≡ 0 =
          ap (λ d. d 0)
            (bwrite_on l.start f on'
              ∙ update_self (s₃ l home).cache l.start
                  (header 0 l.block ((s₃ l home).cache l.start))) in
        let kept = bwrite-ne l.start b f (λ e. ground (arith, out, e)) in
        let left : l.n ≤ (s₂ l home).power =
          omega
            (arith, on', copy_blocks-power (log_block l) l.block l.store.cache l.n 0 (s₂ l home)) in
        subst (Installed l.n l.block l.store.disk l.store.cache b)
          (sym (recovered_clean junk p ended l.n cleared b out ∙ kept))
          (Installed-Copied l.n l.block l.store.disk (s₃ l home).disk l.store.cache b
            (λ i h.
              copy_blocks-all (log_block l) l.block l.store.cache l.n 0 (s₂ l home)
                (IsPlan-commit l home) left i (omega arith))
            (elim ((s₃-disk l home) b) [
              | inl e ↦ inl (e ∙ (s₂-Outside l home) b out)
              | inr copied ↦ inr copied
            ]))

-- What a block outside the log holds after a crash and a recovery.
abbrev Recovered : Log → (junk : ℕ → ℕ) → (p : ℕ) → Log → ℕ → Type 0
Recovered l junk p l' b =
    ((l.store.power ≤ l.n)
      × ((recover_from_log (rebooted junk p l')).store.disk b ≡ l.store.disk b))
    ⊎ ((l.n < l.store.power)
        × Installed l.n l.block l.store.disk l.store.cache b
            ((recover_from_log (rebooted junk p l')).store.disk b))

Recovered-ended :
    (l : Log) (home : (i : ℕ) → i < l.n → Outside l.start l.n (l.block i)) (junk : ℕ → ℕ) (p b : ℕ)
    → l.store.disk l.start 0 ≡ 0
    → l.n ≤ p
    → Outside l.start l.n b
    → Recovered l junk p (ended l home) b
unfolding s₁ after
Recovered-ended l home junk p b clean enough out =
    let left = copy_blocks-power l.block (log_block l) (logged l home) l.n 0 l.store in
    elim (Bool-cases ((s₁ l home).power == 0)) [
      | inl e ↦
          let off : (s₁ l home).power ≡ 0 = ground (arith, e) in
          inl (omega (arith, off, left), aborted l home junk p enough clean off b out)
      | inr e ↦
          let on : (s₁ l home).power ≢ 0 = λ z. ground (arith, e, z) in
          inr (
            omega (arith, on, left),
            elim (Bool-cases ((s₃ l home).power == 0)) [
              | inl f ↦ redone l home junk p enough on (ground (arith, f)) b out
              | inr f ↦ finished l home junk p enough on (λ z. ground (arith, f, z)) b out
            ],
          )
    ]

-- A crash at any point of a commit, where `power` is the number of writes that reach the disk, and
-- then a recovery, on a disk that held no transaction, with the logged blocks outside the log. If
-- the crash comes before the write of the header, every block outside the log is as before the
-- commit; if it comes after it, or not at all, the blocks of the transaction have the content of
-- their buffers, and the others are as before.
pub commit-recover_from_log :
    (l : Log) (junk : ℕ → ℕ) (p b : ℕ)
    → l.store.disk l.start 0 ≡ 0
    → ((i : ℕ) → i < l.n → Outside l.start l.n (l.block i))
    → l.n ≤ p
    → Outside l.start l.n b
    → ((l.store.power ≤ l.n)
        × ((recover_from_log (rebooted junk p (commit l))).store.disk b ≡ l.store.disk b))
      ⊎ ((l.n < l.store.power)
          × Installed l.n l.block l.store.disk l.store.cache b
              ((recover_from_log (rebooted junk p (commit l))).store.disk b))
unfolding ended
commit-recover_from_log l junk p b clean home enough out = elim (Bool-cases (ltb 0 l.n)) [
  | inl some_blocks ↦
      subst (λ l'. Recovered l junk p l' b) (sym (commit-s₄ l home (ground (arith, some_blocks))))
        (Recovered-ended l home junk p b clean enough out)
  | inr none' ↦
      let same = recovered_clean junk p l l.n clean b out in
      subst (λ l'. Recovered l junk p l' b) (sym (commit-none l none'))
        (elim (Bool-cases (leb l.store.power l.n)) [
          | inl e ↦ inl (ground (arith, e), same)
          | inr e ↦ inr (ground (arith, e), inr ((λ i h. absurd (ground (arith, h, none'))), same))
        ])
]
