-- ===== src/Bestfit/Shape.antt =====
-- What it means that the nodes in memory form a search tree.
use soproyecto.Common.{refl, ap, ◌∙◌, sym, subst, ℕ, suc, ◌+◌, ◌<◌, ◌≤◌, ◌≡◌, ◌≢◌, ◌⊎◌, inl, inr}
use soproyecto.Bestfit.Tree.{Node}

-- A tree of pointers.
pub data Tree : Type 0 where
  leaf : Tree
  node : Tree → ℕ → Tree → Tree

abbrev pub height : Tree → ℕ
height leaf = 0
height (node l x r) = suc (height l + height r)

abbrev pub In : ℕ → Tree → Type 0
In y leaf = ⊥
In y (node l x r) = In y l ⊎ ((y ≡ x) ⊎ In y r)

-- The memory `m` holds the tree at `p`, below `parent`.
abbrev pub Stored : (ℕ → Node) → Tree → (parent p : ℕ) → Type 0
Stored m leaf parent p = p ≡ 0
Stored m (node l x r) parent p =
    (p ≡ x) × (x ≢ 0) × ((m x).parent ≡ parent) × Stored m l x (m x).left × Stored m r x (m x).right

-- All nodes have blocks with the property.
abbrev pub All : (Node → Type 0) → (ℕ → Node) → Tree → Type 0
All P m leaf = Unit {0}
All P m (node l x r) = All P m l × P (m x) × All P m r

-- The order of the tree: by size, then by address.
abbrev pub Before : Node → Node → Type 0
Before a b = (a.size < b.size) ⊎ ((a.size ≡ b.size) × (a.addr < b.addr))

abbrev pub IsOrdered : (ℕ → Node) → Tree → Type 0
IsOrdered m leaf = Unit {0}
IsOrdered m (node l x r) =
    All (λ n. Before n (m x)) m l
    × All (λ n. (m x).size ≤ n.size) m r
    × IsOrdered m l
    × IsOrdered m r

pub All-map :
    (P Q : Node → Type 0) (m : ℕ → Node) (t : Tree)
    → ((n : Node) → P n → Q n)
    → All P m t
    → All Q m t
All-map P Q m leaf f a = tt
All-map P Q m (node l x r) f a = (All-map P Q m l f a.0, f (m x) a.1, All-map P Q m r f a.2)

pub All-In : (P : Node → Type 0) (m : ℕ → Node) (t : Tree) (y : ℕ) → All P m t → In y t → P (m y)
All-In P m leaf y a h = absurd h
All-In P m (node l x r) y a (inl h) = All-In P m l y a.0 h
All-In P m (node l x r) y a (inr (inl e)) = subst (λ z. P (m z)) (sym e) a.1
All-In P m (node l x r) y a (inr (inr h)) = All-In P m r y a.2 h

-- No pointer stands twice in the tree.
abbrev pub Distinct : Tree → Type 0
Distinct leaf = Unit {0}
Distinct (node l x r) =
    ((y : ℕ) → In y l → (y ≢ x) × ¬ In y r) × ((y : ℕ) → In y r → y ≢ x) × Distinct l × Distinct r

-- Memories that agree on the tree hold it alike.
pub Stored-frame :
    (m m' : ℕ → Node) (t : Tree) (parent p : ℕ)
    → ((y : ℕ) → In y t → m' y ≡ m y)
    → Stored m t parent p
    → Stored m' t parent p
Stored-frame m m' leaf parent p same s = s
Stored-frame m m' (node l x r) parent p same s =
    let e = same x (inr (inl refl)) in
    (
      s.0,
      s.1,
      ap (λ n. n.parent) e ∙ s.2,
      subst (Stored m' l x) (sym (ap (λ n. n.left) e))
          (Stored-frame m m' l x (m x).left (λ y h. same y (inl h)) s.3),
      subst (Stored m' r x) (sym (ap (λ n. n.right) e))
          (Stored-frame m m' r x (m x).right (λ y h. same y (inr (inr h))) s.4),
    )

pub All-frame :
    (P : Node → Type 0) (m m' : ℕ → Node) (t : Tree)
    → ((y : ℕ) → In y t → P (m y) → P (m' y))
    → All P m t
    → All P m' t
All-frame P m m' leaf f a = tt
All-frame P m m' (node l x r) f a = (
  All-frame P m m' l (λ y h. f y (inl h)) a.0,
  f x (inr (inl refl)) a.1,
  All-frame P m m' r (λ y h. f y (inr (inr h))) a.2,
)
