-- ===== src/Bestfit/Find.antt =====
-- bst_find_best_fit finds the smallest block that is large enough.
use soproyecto.Common.{
  ℕ, zero, suc, ◌<◌, ◌≤◌, ◌≡◌, ◌≢◌, ◌⊎◌, inl, inr, refl, sym, ap, ◌∙◌, false, some, leb, ltb, ◌==◌,
  ◌||◌, Bool-cases, arith,
}
use soproyecto.Bestfit.Tree.{Node, better, bst_find_best_fit}
use soproyecto.Bestfit.Shape.{
  Tree, leaf, node, height, In, Stored, All, IsOrdered, Before, All-map, All-In,
}

-- What the search knows of `best` when it enters a tree: nothing, or a block that fits and is no
-- smaller than those of the tree.
abbrev Known : (ℕ → Node) → (size best : ℕ) → Tree → Type 0
Known m size best t =
    (best ≡ 0) ⊎ ((best ≢ 0) × (size ≤ (m best).size) × All (λ n. n.size ≤ (m best).size) m t)

-- What it knows when it leaves: no block of the tree fits, or `b` fits best.
abbrev Found : (ℕ → Node) → (size : ℕ) → Tree → (best b : ℕ) → Type 0
Found m size t best b =
    ((b ≡ best) × All (λ n. n.size < size) m t)
    ⊎ ((b ≢ 0)
        × (size ≤ (m b).size)
        × (In b t ⊎ (b ≡ best))
        × All (λ n. size ≤ n.size → (m b).size ≤ n.size) m t)

Before-le : (a b : Node) → Before a b → a.size ≤ b.size
Before-le a b (inl h) = omega arith
Before-le a b (inr h) = omega (arith, h.0)

-- The search goes on to the left with the best node `c` so far, which fits as well as `x` does.
Found-left :
    (m : ℕ → Node) (size : ℕ) (l : Tree) (x : ℕ) (r : Tree) (best c b : ℕ)
    → c ≢ 0
    → size ≤ (m c).size
    → (m c).size ≡ (m x).size
    → (c ≡ x) ⊎ (c ≡ best)
    → All (λ n. n.size ≤ (m c).size) m l
    → All (λ n. (m x).size ≤ n.size) m r
    → Found m size l c b
    → Found m size (node l x r) best b
Found-left m size l x r best c b real fits same from below above (inl (e, small)) = inr (
  λ z. real (sym e ∙ z),
  omega (arith, fits, ap (λ y. (m y).size) e),
  origin from,
  (
    All-map (λ n. n.size < size) (λ n. size ≤ n.size → (m b).size ≤ n.size) m l
        (λ n lt ge. absurd (omega arith)) small,
    λ _. omega (arith, same, ap (λ y. (m y).size) e),
    All-map (λ n. (m x).size ≤ n.size) (λ n. size ≤ n.size → (m b).size ≤ n.size) m r
        (λ n le _. omega (arith, same, ap (λ y. (m y).size) e)) above,
  ),
)
  where
    origin : (c ≡ x) ⊎ (c ≡ best) → In b (node l x r) ⊎ (b ≡ best)
    origin (inl f) = inl (inr (inl (e ∙ f)))
    origin (inr f) = inr (e ∙ f)
Found-left m size l x r best c b real fits same from below above (inr (real', fits', at, least)) =
    inr (
      real',
      fits',
      origin at from,
      (
        least,
        λ _. omega (arith, smaller at, same),
        All-map (λ n. (m x).size ≤ n.size) (λ n. size ≤ n.size → (m b).size ≤ n.size) m r
            (λ n le _. omega (arith, smaller at, same)) above,
      ),
    )
  where
    smaller : In b l ⊎ (b ≡ c) → (m b).size ≤ (m c).size
    smaller (inl h) = All-In (λ n. n.size ≤ (m c).size) m l b below h
    smaller (inr e) = omega (arith, ap (λ y. (m y).size) e)

    origin : In b l ⊎ (b ≡ c) → (c ≡ x) ⊎ (c ≡ best) → In b (node l x r) ⊎ (b ≡ best)
    origin (inl h) f = inl (inl h)
    origin (inr e) (inl f) = inl (inr (inl (e ∙ f)))
    origin (inr e) (inr f) = inr (e ∙ f)

-- The search goes on to the right, since `x` is too small.
Found-right :
    (m : ℕ → Node) (size : ℕ) (l : Tree) (x : ℕ) (r : Tree) (best b : ℕ)
    → (m x).size < size
    → All (λ n. n.size ≤ (m x).size) m l
    → Found m size r best b
    → Found m size (node l x r) best b
Found-right m size l x r best b small below (inl (e, rest)) = inl (
  e,
  (
    All-map (λ n. n.size ≤ (m x).size) (λ n. n.size < size) m l (λ n le. omega arith) below,
    small,
    rest,
  ),
)
Found-right m size l x r best b small below (inr (real, fits, at, least)) = inr (
  real,
  fits,
  origin at,
  (
    All-map (λ n. n.size ≤ (m x).size) (λ n. size ≤ n.size → (m b).size ≤ n.size) m l
        (λ n le ge. absurd (omega arith)) below,
    λ ge. absurd (omega arith),
    least,
  ),
)
  where
    origin : In b r ⊎ (b ≡ best) → In b (node l x r) ⊎ (b ≡ best)
    origin (inl h) = inl (inr (inr h))
    origin (inr e) = inr e

-- The best node after `x` has been looked at, when `x` fits.
better_cases :
    (m : ℕ → Node) (size best : ℕ) (l : Tree) (x : ℕ) (r : Tree)
    → x ≢ 0
    → size ≤ (m x).size
    → Known m size best (node l x r)
    → ((better m x best ≡ x) ⊎ (better m x best ≡ best))
      × (better m x best ≢ 0)
      × ((m (better m x best)).size ≡ (m x).size)
better_cases m size best l x r real fits known =
    elim (Bool-cases ((best == 0) || ltb (m x).size (m best).size)) [
      | inl e ↦ (inl (rw e), rw e real, rw e refl)
      | inr e ↦ (inr (rw e), rw e (ground (arith, e)), rw e (equal known e))
    ]
  where
    equal :
        Known m size best (node l x r)
        → ((best == 0) || ltb (m x).size (m best).size) ≡ false
        → (m best).size ≡ (m x).size
    equal (inl z) e = ground (arith, e, z)
    equal (inr (_, _, all)) e = ground (arith, e, all.1)

Known-right :
    (m : ℕ → Node) (size best : ℕ) (l : Tree) (x : ℕ) (r : Tree)
    → Known m size best (node l x r)
    → Known m size best r
Known-right m size best l x r (inl e) = inl e
Known-right m size best l x r (inr (real, fits, all)) = inr (real, fits, all.2)

-- With fuel above the height of the tree the search ends, and finds the smallest block that fits.
find :
    (fuel : ℕ) (m : ℕ → Node) (size best : ℕ) (t : Tree) (parent p : ℕ)
    → height t < fuel
    → Stored m t parent p
    → IsOrdered m t
    → Known m size best t
    → (b : ℕ) × (bst_find_best_fit fuel m p size best ≡ some b) × Found m size t best b
unfolding bst_find_best_fit
find zero m size best t parent p h s o k = elim h [ ]
find (suc fuel) m size best leaf parent p h s o k = (best, rw s refl, inl (refl, tt))
find (suc fuel) m size best (node l x r) parent p h s o k =
    let there : (x == 0) ≡ false = ground arith in
    let below =
      All-map (λ n. Before n (m x)) (λ n. n.size ≤ (m x).size) m l (λ n. Before-le n (m x)) o.0 in
    elim (Bool-cases (leb size (m x).size)) [
      | inl fits ↦
          let big : size ≤ (m x).size = ground (arith, fits) in
          let c = better m x best in
          let (from, real, same) = better_cases m size best l x r s.1 big k in
          let below' : All (λ n. n.size ≤ (m c).size) m l =
            All-map (λ n. n.size ≤ (m x).size) (λ n. n.size ≤ (m c).size) m l
              (λ n le. omega (arith, same)) below in
          let big' : size ≤ (m c).size = omega (arith, same) in
          let (b, run, found) =
            find fuel m size c l x (m x).left (omega arith) s.3 o.2 (inr (real, big', below')) in
          (
            b,
            rw (s.0, there, fits) run,
            Found-left m size l x r best c b real big' same from below' o.1 found,
          )
      | inr small ↦
          let tiny : (m x).size < size = ground (arith, small) in
          let (b, run, found) =
            find fuel m size best r x (m x).right (omega arith) s.4 o.3
              (Known-right m size best l x r k) in
          (b, rw (s.0, there, small) run, Found-right m size l x r best b tiny below found)
    ]

-- The answer of a search from the root.
abbrev pub FitsBest : (ℕ → Node) → (size : ℕ) → Tree → ℕ → Type 0
FitsBest m size t b =
    ((b ≡ 0) × All (λ n. n.size < size) m t)
    ⊎ (In b t × (size ≤ (m b).size) × All (λ n. size ≤ n.size → (m b).size ≤ n.size) m t)

-- A search from the root of a search tree, with fuel above its height, ends: its result is a node
-- of the tree whose block is large enough and no larger than any other that is, or it is 0, and
-- then no block is large enough.
pub bst_find_best_fit_lem :
    (fuel : ℕ) (m : ℕ → Node) (size root : ℕ) (t : Tree)
    → height t < fuel
    → Stored m t 0 root
    → IsOrdered m t
    → (b : ℕ) × (bst_find_best_fit fuel m root size 0 ≡ some b) × FitsBest m size t b
bst_find_best_fit_lem fuel m size root t h s o = go (find fuel m size 0 t 0 root h s o (inl refl))
  where
    go :
        (b : ℕ) × (bst_find_best_fit fuel m root size 0 ≡ some b) × Found m size t 0 b
        → (b : ℕ) × (bst_find_best_fit fuel m root size 0 ≡ some b) × FitsBest m size t b
    go (b, run, inl found) = (b, run, inl found)
    go (b, run, inr (real, fits, inl at, least)) = (b, run, inr (at, fits, least))
    go (b, run, inr (real, fits, inr e, least)) = absurd (real e)
