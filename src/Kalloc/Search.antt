-- ===== src/Kalloc/Search.antt =====
-- The best-fit search: what it has found among the blocks that it has passed, and that it ends.
use soproyecto.Common.{
  ℕ, zero, suc, ◌<◌, ◌≤◌, ◌≡◌, ◌≢◌, refl, sym, ap, subst, ◌∙◌, Bool, true, false, ◌&&◌, ◌||◌,
  Bool-cases, ◌⊎◌, inl, inr, some, List, [], ◌∷◌, ◌++◌, ◌==◌, leb, ltb, arith, length,
}
use mathlib.Core.List.{append_assoc, append-nil}
use soproyecto.Kalloc.{Block, Best, no_best, look, search, pgsize}
use soproyecto.Kalloc.Chain.{Chain, All, last_or}

-- The loop as a walk over the list of the blocks.
abbrev pub walk : (ℕ → Block) → List ℕ → Best → Best
walk mem [] s = s
walk mem (a ∷ rest) s = walk mem rest (look mem a s)

-- With more fuel than blocks the search ends, and does what the walk does.
pub search-walk :
    (n : ℕ) (mem : ℕ → Block) (p : ℕ) (xs : List ℕ) (s : Best)
    → Chain mem p xs
    → length xs < n
    → search n mem p s ≡ some (walk mem xs s)
unfolding search
search-walk zero mem p xs s c h = absurd (omega arith)
search-walk (suc n) mem p [] s c h = rw c refl
search-walk (suc n) mem p (a ∷ rest) s c h =
    let there : (a == 0) ≡ false = ground (arith, c.1) in
    rw (c.0, there) (search-walk n mem (mem a).next rest (look mem a s) c.2 (omega arith))

-- A block that can serve a page.
abbrev pub Fits : (ℕ → Block) → ℕ → Type 0
Fits mem a = pgsize ≤ (mem a).size

-- A block before the best one is too small, or larger than it; one behind it is too small, or no
-- smaller.
abbrev pub Worse : (ℕ → Block) → ℕ → ℕ → Type 0
Worse mem b a = ((mem a).size < pgsize) ⊎ ((mem b).size < (mem a).size)

abbrev pub NoBetter : (ℕ → Block) → ℕ → ℕ → Type 0
NoBetter mem b a = ((mem a).size < pgsize) ⊎ ((mem b).size ≤ (mem a).size)

abbrev pub TooSmall : (ℕ → Block) → ℕ → Type 0
TooSmall mem a = (mem a).size < pgsize

-- The best of a list: the first of the smallest blocks that fit, with the block before it.
pub record IsBest (mem : ℕ → Block) (xs : List ℕ) (b prev : ℕ) : Type 0 where
  pub before : List ℕ
  pub after : List ℕ
  pub splits : xs ≡ before ++ b ∷ after
  pub prev_of : prev ≡ last_or 0 before
  pub fits : Fits mem b
  pub worse : All (Worse mem b) before
  pub no_better : All (NoBetter mem b) after

-- What the loop knows after the blocks `xs`.
abbrev pub Known : (ℕ → Block) → List ℕ → Best → Type 0
Known mem xs s =
    (s.prev ≡ last_or 0 xs)
    × (((s.best ≡ 0) × All (TooSmall mem) xs) ⊎ ((s.best ≢ 0) × IsBest mem xs s.best s.best_prev))

All-snoc : (P : ℕ → Type 0) (xs : List ℕ) (a : ℕ) → All P xs → P a → All P (xs ++ a ∷ [])
All-snoc P [] a h p = (p, tt)
All-snoc P (x ∷ xs) a h p = (h.0, All-snoc P xs a h.1 p)

All-append : (P : ℕ → Type 0) (xs ys : List ℕ) → All P xs → All P ys → All P (xs ++ ys)
All-append P [] ys h k = k
All-append P (x ∷ xs) ys h k = (h.0, All-append P xs ys h.1 k)

All-map : (P Q : ℕ → Type 0) (xs : List ℕ) → ((a : ℕ) → P a → Q a) → All P xs → All Q xs
All-map P Q [] f h = tt
All-map P Q (x ∷ xs) f h = (f x h.0, All-map P Q xs f h.1)

last-snoc : (d : ℕ) (xs : List ℕ) (a : ℕ) → last_or d (xs ++ a ∷ []) ≡ a
last-snoc d [] a = refl
last-snoc d (x ∷ xs) a = last-snoc x xs a

-- A block that beats the best so far is the best of the longer list.
take_over :
    (mem : ℕ → Block) (xs : List ℕ) (a : ℕ)
    → Fits mem a
    → All (Worse mem a) xs
    → IsBest mem (xs ++ a ∷ []) a (last_or 0 xs)
take_over mem xs a fits worse = record {
  before = xs;
  after = [];
  splits = refl;
  prev_of = refl;
  fits = fits;
  worse = worse;
  no_better = tt;
}

-- One that does not leaves the best as it is.
hold :
    (mem : ℕ → Block) (xs : List ℕ) (a b prev : ℕ)
    → IsBest mem xs b prev
    → NoBetter mem b a
    → IsBest mem (xs ++ a ∷ []) b prev
hold mem xs a b prev i more = record {
  before = i.before;
  after = i.after ++ a ∷ [];
  splits = ap (λ l. l ++ a ∷ []) i.splits ∙ append_assoc i.before (b ∷ i.after) (a ∷ []);
  prev_of = i.prev_of;
  fits = i.fits;
  worse = i.worse;
  no_better = All-snoc (NoBetter mem b) i.after a i.no_better more;
}

-- All of the list is worse than a block smaller than its best.
beaten :
    (mem : ℕ → Block) (xs : List ℕ) (a b prev : ℕ)
    → IsBest mem xs b prev
    → (mem a).size < (mem b).size
    → All (Worse mem a) xs
beaten mem xs a b prev i less = subst (All (Worse mem a)) (sym i.splits) (
    All-append (Worse mem a) i.before (b ∷ i.after)
      (All-map (Worse mem b) (Worse mem a) i.before (λ x w. ground arith) i.worse)
      (inr less, All-map (NoBetter mem b) (Worse mem a) i.after (λ x w. ground arith) i.no_better))

-- The test of the loop.
abbrev improves : (ℕ → Block) → ℕ → Best → Bool
improves mem a s = leb pgsize (mem a).size && ((s.best == 0) || ltb (mem a).size (mem s.best).size)

module _ (mem : ℕ → Block) (xs : List ℕ) (a : ℕ) (s : Best) (at : s.prev ≡ last_or 0 xs) where
  taken :
      improves mem a s ≡ true
      → a ≢ 0
      → Fits mem a
      → All (Worse mem a) xs
      → Known mem (xs ++ a ∷ []) (look mem a s)
  taken test real fits worse = rw test (
    sym (last-snoc 0 xs a),
    inr (real, subst (λ q. IsBest mem (xs ++ a ∷ []) a q) (sym at) (take_over mem xs a fits worse)),
  )

  kept_none :
      improves mem a s ≡ false
      → s.best ≡ 0
      → All (TooSmall mem) xs
      → TooSmall mem a
      → Known mem (xs ++ a ∷ []) (look mem a s)
  kept_none test nothing small less =
      rw test (sym (last-snoc 0 xs a), inl (nothing, All-snoc (TooSmall mem) xs a small less))

  kept_best :
      improves mem a s ≡ false
      → s.best ≢ 0
      → IsBest mem xs s.best s.best_prev
      → NoBetter mem s.best a
      → Known mem (xs ++ a ∷ []) (look mem a s)
  kept_best test something best more =
      rw test (sym (last-snoc 0 xs a), inr (something, hold mem xs a s.best s.best_prev best more))

NoBetter-of_test :
    (mem : ℕ → Block) (a : ℕ) (s : Best)
    → s.best ≢ 0
    → improves mem a s ≡ false
    → NoBetter mem s.best a
NoBetter-of_test mem a s something test = elim (Bool-cases (leb pgsize (mem a).size)) [
  | inl fits ↦ inr (ground (arith, test, fits, something))
  | inr not_fits ↦ inl (ground (arith, not_fits))
]

look-Known :
    (mem : ℕ → Block) (xs : List ℕ) (a : ℕ) (s : Best)
    → a ≢ 0
    → Known mem xs s
    → Known mem (xs ++ a ∷ []) (look mem a s)
look-Known mem xs a s real (at, inl (nothing, small)) = elim (Bool-cases (improves mem a s)) [
  | inl test ↦
      taken mem xs a s at test real (ground arith)
        (All-map (TooSmall mem) (Worse mem a) xs (λ x h. inl h) small)
  | inr test ↦ kept_none mem xs a s at test nothing small (ground arith)
]
look-Known mem xs a s real (at, inr (something, best)) = elim (Bool-cases (improves mem a s)) [
  | inl test ↦
      taken mem xs a s at test real (ground arith)
        (beaten mem xs a s.best s.best_prev best (ground arith))
  | inr test ↦ kept_best mem xs a s at test something best (NoBetter-of_test mem a s something test)
]

walk-Known :
    (mem : ℕ → Block) (p : ℕ) (done rest : List ℕ) (s : Best)
    → Chain mem p rest
    → Known mem done s
    → Known mem (done ++ rest) (walk mem rest s)
walk-Known mem p done [] s c k = subst (λ l. Known mem l s) (sym (append-nil done)) k
walk-Known mem p done (a ∷ rest) s c k =
    subst (λ l. Known mem l (walk mem rest (look mem a s))) (append_assoc done (a ∷ []) rest)
      (walk-Known mem (mem a).next (done ++ a ∷ []) rest (look mem a s) c.2
        (look-Known mem done a s c.1 k))

-- The search over a whole free list finds the best of its blocks, if one fits.
pub search-Known :
    (n : ℕ) (mem : ℕ → Block) (p : ℕ) (xs : List ℕ)
    → Chain mem p xs
    → length xs < n
    → (s : Best) × (search n mem p no_best ≡ some s) × Known mem xs s
search-Known n mem p xs c h = (
  walk mem xs no_best,
  search-walk n mem p xs no_best c h,
  walk-Known mem p [] xs no_best c (refl, inl (refl, tt)),
)
