-- ===== src/Fs/Search.antt =====
-- The search of iget through the cache of inodes.
use soproyecto.Common.{
  ℕ, zero, suc, ◌+◌, ◌-◌, ◌<◌, ◌≤◌, ◌≡◌, refl, ap, ◌∙◌, subst, Bool, true, false, Bool-cases, inl,
  inr, Option, none, some, ◌==◌, arith,
}
use soproyecto.Fs.{Inode}
use soproyecto.Fs.Inodes.{ninode, Entry, cached, unused, full, remember, holds, find_entry}

-- No entry from `i` up to `n` further passes the test.
abbrev pub NoneIn : (Inode → Bool) → (ℕ → Inode) → (i n : ℕ) → Type 0
NoneIn test f i n = (j : ℕ) → i ≤ j → j < i + n → test (f j) ≡ false

abbrev pub is_free : Inode → Bool
is_free n = n.ref == 0

-- No two entries with a reference hold the same inode.
abbrev pub HoldsOnce : (ℕ → Inode) → Type 0
HoldsOnce f =
    (i j dev inum : ℕ)
    → i < ninode
    → j < ninode
    → holds dev inum (f i) ≡ true
    → holds dev inum (f j) ≡ true
    → i ≡ j

NoneIn-step :
    (test : Inode → Bool) (f : ℕ → Inode) (i n : ℕ)
    → test (f i) ≡ false
    → NoneIn test f (i + 1) n
    → NoneIn test f i (suc n)
NoneIn-step test f i n off rest j lo hi = elim (Bool-cases (i == j)) [
  | inl e ↦ subst (λ v. test (f v) ≡ false) (ground (arith, e)) off
  | inr e ↦ rest j (ground (arith, e, lo)) (omega (arith, hi))
]

module _ (f : ℕ → Inode) (dev inum : ℕ) where
  -- An entry between `i` and `n` further holds the inode.
  pub record IsHolder (i n j : ℕ) : Type 0 where
    pub above : i ≤ j
    pub below : j < i + n
    pub held : holds dev inum (f j) ≡ true

  IsHolder-step : (i n j : ℕ) → IsHolder (i + 1) n j → IsHolder i (suc n) j
  IsHolder-step i n j h = record {
    above = omega (arith, h.above);
    below = omega (arith, h.below);
    held = h.held;
  }

  -- The first free entry from `i` on.
  pub record IsFree (i n j : ℕ) : Type 0 where
    pub above : i ≤ j
    pub below : j < i + n
    pub free : is_free (f j) ≡ true
    pub first : NoneIn is_free f i (j - i)

  -- What is found when a free entry has been passed already, and when none has.
  data Kept (i n e : ℕ) (r : Entry) : Type 0 where
    kept_hit : (j : ℕ) → IsHolder i n j → r ≡ cached j → Kept i n e r
    kept : NoneIn (holds dev inum) f i n → r ≡ unused e → Kept i n e r

  pub data Searched (i n : ℕ) (r : Entry) : Type 0 where
    searched_hit : (j : ℕ) → IsHolder i n j → r ≡ cached j → Searched i n r
    searched_free :
        (j : ℕ) → NoneIn (holds dev inum) f i n → IsFree i n j → r ≡ unused j → Searched i n r
    searched_full : NoneIn (holds dev inum) f i n → NoneIn is_free f i n → r ≡ full → Searched i n r

  find_hit :
      (n i : ℕ) (empty : Option ℕ)
      → holds dev inum (f i) ≡ true
      → find_entry (suc n) i dev inum empty f ≡ cached i
  unfolding find_entry
  find_hit n i empty e = rw e refl

  find_next :
      (n i : ℕ) (empty empty' : Option ℕ)
      → holds dev inum (f i) ≡ false
      → remember empty i (f i) ≡ empty'
      → find_entry (suc n) i dev inum empty f ≡ find_entry n (i + 1) dev inum empty' f
  unfolding find_entry
  find_next n i empty empty' e r = rw e (ap (λ o. find_entry n (i + 1) dev inum o f) r)

  find-Kept : (n i e : ℕ) → Kept i n e (find_entry n i dev inum (some e) f)
  unfolding find_entry
  find-Kept zero i e = kept (λ j lo hi. absurd (omega (arith, lo, hi))) refl
  find-Kept (suc n) i e = elim (Bool-cases (holds dev inum (f i))) [
    | inl h ↦
        kept_hit i (record { above = omega arith; below = omega arith; held = h })
          (find_hit n i (some e) h)
    | inr o ↦
        let next = find_next n i (some e) (some e) o refl in
        elim (find-Kept n (i + 1) e) [
          | kept_hit j at r ↦ kept_hit j (IsHolder-step i n j at) (next ∙ r)
          | kept off r ↦ kept (NoneIn-step (holds dev inum) f i n o off) (next ∙ r)
        ]
  ]

  IsFree-step : (i n j : ℕ) → is_free (f i) ≡ false → IsFree (i + 1) n j → IsFree i (suc n) j
  IsFree-step i n j off h = record {
    above = omega (arith, h.above);
    below = omega (arith, h.below);
    free = h.free;
    first =
        subst (NoneIn is_free f i) (omega (arith, h.above))
          (NoneIn-step is_free f i (j - (i + 1)) off h.first);
  }

  pub find-Searched : (n i : ℕ) → Searched i n (find_entry n i dev inum none f)
  unfolding find_entry
  find-Searched zero i =
      searched_full (λ j lo hi. absurd (omega (arith, lo, hi)))
        (λ j lo hi. absurd (omega (arith, lo, hi))) refl
  find-Searched (suc n) i = elim (Bool-cases (holds dev inum (f i))) [
    | inl h ↦
        searched_hit i (record { above = omega arith; below = omega arith; held = h })
          (find_hit n i none h)
    | inr o ↦ elim (Bool-cases (is_free (f i))) [
      | inl e ↦
          let next = find_next n i none (some i) o (rw e refl) in
          elim (find-Kept n (i + 1) i) [
            | kept_hit j at r ↦ searched_hit j (IsHolder-step i n j at) (next ∙ r)
            | kept off r ↦
                searched_free i (NoneIn-step (holds dev inum) f i n o off)
                  (record {
                    above = omega arith;
                    below = omega arith;
                    free = e;
                    first = λ j lo hi. absurd (omega (arith, lo, hi));
                  })
                  (next ∙ r)
          ]
      | inr e ↦
          let next = find_next n i none none o (rw e refl) in
          elim (find-Searched n (i + 1)) [
            | searched_hit j at r ↦ searched_hit j (IsHolder-step i n j at) (next ∙ r)
            | searched_free j off at r ↦
                searched_free j (NoneIn-step (holds dev inum) f i n o off) (IsFree-step i n j e at)
                  (next ∙ r)
            | searched_full off none_free r ↦
                searched_full (NoneIn-step (holds dev inum) f i n o off)
                  (NoneIn-step is_free f i n e none_free) (next ∙ r)
          ]
    ]
  ]
