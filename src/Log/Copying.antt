-- ===== src/Log/Copying.antt =====
-- What the copying loops of the log do, however many of their writes reach the disk.
use soproyecto.Common.{
  ℕ, zero, suc, ◌+◌, ◌-◌, ◌<◌, ◌≤◌, ◌≡◌, ◌≢◌, ◌⊎◌, inl, inr, refl, sym, subst, ap, ◌∙◌, true, false,
  ◌==◌, Bool-cases, if◌then◌else◌, arith,
}
use soproyecto.Machine.{update, update_self, update_ne}
use soproyecto.Proc.Defs.{Store}
use soproyecto.Log.{copy_block, copy_blocks}

-- The place is one of the `n` from `tail` on.
abbrev pub Among : (n tail i : ℕ) → Type 0
Among n tail i = (tail ≤ i) × (i < tail + n)

-- The buffers to copy from hold what `value` says of the blocks to copy to, and are not among these.
pub record IsPlan (from to : ℕ → ℕ) (value : ℕ → ℕ → ℕ) (n tail : ℕ) (s : Store) : Type 0 where
  pub given : (i : ℕ) → Among n tail i → s.cache (from i) ≡ value (to i)
  pub apart : (i j : ℕ) → Among n tail i → Among n tail j → from i ≢ to j

-- A block is as it was, or it is one of those to copy to and has its value.
abbrev pub Copied : (to : ℕ → ℕ) (value : ℕ → ℕ → ℕ) (n tail : ℕ) (old new : ℕ → ℕ → ℕ) → ℕ → Type 0
Copied to value n tail old new b =
    (new b ≡ old b) ⊎ ((i : ℕ) × Among n tail i × (to i ≡ b) × (new b ≡ value b))

update-cases :
    (f : ℕ → ℕ → ℕ) (a b : ℕ) (d : ℕ → ℕ)
    → (update f a d b ≡ f b) ⊎ ((a ≡ b) × (update f a d b ≡ d))
update-cases f a b d = elim (Bool-cases (a == b)) [
  | inl e ↦ inr (ground (arith, e), rw e refl)
  | inr e ↦ inl (rw e refl)
]

module _ (from to : ℕ → ℕ) (value : ℕ → ℕ → ℕ) where
  cache-copy :
      (tail b : ℕ) (s : Store)
      → (copy_block (from tail) (to tail) s).cache b
        ≡ update s.cache (to tail) (s.cache (from tail)) b
  cache-copy tail b s = ground arith

  disk-copy :
      (tail b : ℕ) (s : Store)
      → (copy_block (from tail) (to tail) s).disk b
        ≡ (if s.power == 0 then s.disk b else update s.disk (to tail) (s.cache (from tail)) b)
  disk-copy tail b s = ground arith

  power-copy : (tail : ℕ) (s : Store) → (copy_block (from tail) (to tail) s).power ≡ s.power - 1
  power-copy tail s = ground arith

  IsPlan-step :
      (n tail : ℕ) (s : Store)
      → IsPlan from to value (suc n) tail s
      → IsPlan from to value n (tail + 1) (copy_block (from tail) (to tail) s)
  IsPlan-step n tail s p = record {
    given = λ i h.
        cache-copy tail (from i) s
        ∙ update_ne s.cache (to tail) (from i) (s.cache (from tail))
            (λ e. p.apart i tail (omega arith) (omega arith) (sym e))
        ∙ p.given i (omega arith);
    apart = λ i j h h'. p.apart i j (omega arith) (omega arith);
  }

  pub copy_blocks-power :
      (n tail : ℕ) (s : Store) → (copy_blocks n tail from to s).power ≡ s.power - n
  unfolding copy_blocks
  copy_blocks-power zero tail s = omega arith
  copy_blocks-power (suc n) tail s = omega (
    arith,
    copy_blocks-power n (tail + 1) (copy_block (from tail) (to tail) s),
    power-copy tail s,
  )

  -- One copy, where the buffer to copy from is as planned.
  step_disk :
      (tail b : ℕ) (s : Store)
      → s.cache (from tail) ≡ value (to tail)
      → ((copy_block (from tail) (to tail) s).disk b ≡ s.disk b)
        ⊎ ((to tail ≡ b) × ((copy_block (from tail) (to tail) s).disk b ≡ value b))
  step_disk tail b s given = elim (Bool-cases (s.power == 0)) [
    | inl off ↦ inl (disk-copy tail b s ∙ rw off refl)
    | inr on ↦ elim (update-cases s.disk (to tail) b (s.cache (from tail))) [
      | inl e ↦ inl (disk-copy tail b s ∙ rw on e)
      | inr (here, e) ↦ inr (here, disk-copy tail b s ∙ rw on (e ∙ given ∙ ap value here))
    ]
  ]

  step_cache :
      (tail b : ℕ) (s : Store)
      → s.cache (from tail) ≡ value (to tail)
      → ((copy_block (from tail) (to tail) s).cache b ≡ s.cache b)
        ⊎ ((to tail ≡ b) × ((copy_block (from tail) (to tail) s).cache b ≡ value b))
  step_cache tail b s given = elim (update-cases s.cache (to tail) b (s.cache (from tail))) [
    | inl e ↦ inl (cache-copy tail b s ∙ e)
    | inr (here, e) ↦ inr (here, cache-copy tail b s ∙ e ∙ given ∙ ap value here)
  ]

  -- One step and the others.
  Copied-step :
      (n tail b : ℕ) (old mid new : ℕ → ℕ → ℕ)
      → (mid b ≡ old b) ⊎ ((to tail ≡ b) × (mid b ≡ value b))
      → Copied to value n (tail + 1) mid new b
      → Copied to value (suc n) tail old new b
  Copied-step n tail b old mid new (inl e) (inl f) = inl (f ∙ e)
  Copied-step n tail b old mid new (inr (here, e)) (inl f) = inr (tail, omega arith, here, f ∙ e)
  Copied-step n tail b old mid new step (inr (i, among, here, f)) = inr (i, omega arith, here, f)

  pub copy_blocks-disk :
      (n tail : ℕ) (s : Store)
      → IsPlan from to value n tail s
      → (b : ℕ) → Copied to value n tail s.disk (copy_blocks n tail from to s).disk b
  unfolding copy_blocks
  copy_blocks-disk zero tail s p b = inl refl
  copy_blocks-disk (suc n) tail s p b =
      let s' = copy_block (from tail) (to tail) s in
      Copied-step n tail b s.disk s'.disk (copy_blocks n (tail + 1) from to s').disk
        (step_disk tail b s (p.given tail (omega arith)))
        (copy_blocks-disk n (tail + 1) s' (IsPlan-step n tail s p) b)

  -- Without power nothing reaches the disk.
  pub copy_blocks-off :
      (n tail : ℕ) (s : Store)
      → s.power ≡ 0
      → (b : ℕ) → (copy_blocks n tail from to s).disk b ≡ s.disk b
  unfolding copy_blocks
  copy_blocks-off zero tail s off b = refl
  copy_blocks-off (suc n) tail s off b =
      let none_left : (s.power == 0) ≡ true = ground arith in
      copy_blocks-off n (tail + 1) (copy_block (from tail) (to tail) s)
        (power-copy tail s ∙ omega arith) b
      ∙ disk-copy tail b s
      ∙ rw none_left refl

  pub copy_blocks-cache :
      (n tail : ℕ) (s : Store)
      → IsPlan from to value n tail s
      → (b : ℕ) → Copied to value n tail s.cache (copy_blocks n tail from to s).cache b
  unfolding copy_blocks
  copy_blocks-cache zero tail s p b = inl refl
  copy_blocks-cache (suc n) tail s p b =
      let s' = copy_block (from tail) (to tail) s in
      Copied-step n tail b s.cache s'.cache (copy_blocks n (tail + 1) from to s').cache
        (step_cache tail b s (p.given tail (omega arith)))
        (copy_blocks-cache n (tail + 1) s' (IsPlan-step n tail s p) b)

  -- Once a block has its value it keeps it.
  Copied-value :
      (n tail b : ℕ) (old new : ℕ → ℕ → ℕ)
      → old b ≡ value b
      → Copied to value n tail old new b
      → new b ≡ value b
  Copied-value n tail b old new e (inl f) = f ∙ e
  Copied-value n tail b old new e (inr (i, among, here, f)) = f

  -- With enough power every block to copy to has its value.
  pub copy_blocks-all :
      (n tail : ℕ) (s : Store)
      → IsPlan from to value n tail s
      → n ≤ s.power
      → (i : ℕ) → Among n tail i
      → (copy_blocks n tail from to s).disk (to i) ≡ value (to i)
  unfolding copy_blocks
  copy_blocks-all zero tail s p h i among = absurd (omega arith)
  copy_blocks-all (suc n) tail s p h i among =
      let s' = copy_block (from tail) (to tail) s in
      let p' = IsPlan-step n tail s p in
      elim (Bool-cases (i == tail)) [
        | inl here ↦
            let same : i ≡ tail = ground (arith, here) in
            let on : (s.power == 0) ≡ false = ground arith in
            let first : s'.disk (to tail) ≡ value (to tail) =
              disk-copy tail (to tail) s
              ∙ rw on (update_self s.disk (to tail) (s.cache (from tail)))
              ∙ p.given tail (omega arith) in
            subst (λ j. (copy_blocks n (tail + 1) from to s').disk (to j) ≡ value (to j)) (sym same)
              (Copied-value n (tail + 1) (to tail) s'.disk
                (copy_blocks n (tail + 1) from to s').disk first
                (copy_blocks-disk n (tail + 1) s' p' (to tail)))
        | inr later ↦
            copy_blocks-all n (tail + 1) s' p' (omega (arith, power-copy tail s)) i
              (ground (arith, later, among.0, among.1))
      ]

  pub copy_blocks-cached :
      (n tail : ℕ) (s : Store)
      → IsPlan from to value n tail s
      → (i : ℕ) → Among n tail i
      → (copy_blocks n tail from to s).cache (to i) ≡ value (to i)
  unfolding copy_blocks
  copy_blocks-cached zero tail s p i among = absurd (omega arith)
  copy_blocks-cached (suc n) tail s p i among =
      let s' = copy_block (from tail) (to tail) s in
      let p' = IsPlan-step n tail s p in
      elim (Bool-cases (i == tail)) [
        | inl here ↦
            let same : i ≡ tail = ground (arith, here) in
            let first : s'.cache (to tail) ≡ value (to tail) =
              cache-copy tail (to tail) s
              ∙ update_self s.cache (to tail) (s.cache (from tail))
              ∙ p.given tail (omega arith) in
            subst (λ j. (copy_blocks n (tail + 1) from to s').cache (to j) ≡ value (to j))
              (sym same)
              (Copied-value n (tail + 1) (to tail) s'.cache
                (copy_blocks n (tail + 1) from to s').cache first
                (copy_blocks-cache n (tail + 1) s' p' (to tail)))
        | inr later ↦
            copy_blocks-cached n (tail + 1) s' p' i (ground (arith, later, among.0, among.1))
      ]
