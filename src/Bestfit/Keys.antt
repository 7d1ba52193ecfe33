-- ===== src/Bestfit/Keys.antt =====
-- The order of a search tree looks at sizes and addresses only, and a new node is put in order.
use soproyecto.Common.{ℕ, ◌≤◌, ◌≡◌, inl, inr, refl, sym, subst, Bool-cases, arith}
use soproyecto.Machine.{update}
use soproyecto.Bestfit.Tree.{Node, goes_left, attach, new_node}
use soproyecto.Bestfit.Shape.{Tree, leaf, node, In, All, Before, IsOrdered}
use soproyecto.Bestfit.Insert.{insert_tree}

-- The memories agree on what the order looks at, for the nodes of a tree.
abbrev pub SameKeys : (m m' : ℕ → Node) → Tree → Type 0
SameKeys m m' t = (y : ℕ) → In y t → ((m' y).size ≡ (m y).size) × ((m' y).addr ≡ (m y).addr)

-- The second property follows from the first for a node with the same key.
abbrev Carries : (P Q : Node → Type 0) → Type 0
Carries P Q = (a b : Node) → b.size ≡ a.size → b.addr ≡ a.addr → P a → Q b

pub attach_keys :
    (m : ℕ → Node) (addr size new q y : ℕ)
    → ((attach addr size new q m y).size ≡ (m y).size)
      × ((attach addr size new q m y).addr ≡ (m y).addr)
attach_keys m addr size new q y =
    elim (Bool-cases (goes_left addr size (update m new (record (m new) { parent = q }) q))) [
      | inl e ↦ rw e (ground arith)
      | inr e ↦ rw e (ground arith)
    ]

module _ (m m' : ℕ → Node) where
  All-across :
      (P Q : Node → Type 0) (t : Tree) → SameKeys m m' t → Carries P Q → All P m t → All Q m' t
  All-across P Q leaf same f a = tt
  All-across P Q (node l x r) same f a =
      let e = same x (inr (inl refl)) in
      (
        All-across P Q l (λ y h. same y (inl h)) f a.0,
        f (m x) (m' x) e.0 e.1 a.1,
        All-across P Q r (λ y h. same y (inr (inr h))) f a.2,
      )

  pub IsOrdered-across : (t : Tree) → SameKeys m m' t → IsOrdered m t → IsOrdered m' t
  IsOrdered-across leaf same o = tt
  IsOrdered-across (node l x r) same o =
      let e = same x (inr (inl refl)) in
      (
        All-across (λ n. Before n (m x)) (λ n. Before n (m' x)) l (λ y h. same y (inl h))
            (λ a b s t h. ground (arith, h, s, t, e.0, e.1)) o.0,
        All-across (λ n. (m x).size ≤ n.size) (λ n. (m' x).size ≤ n.size) r
            (λ y h. same y (inr (inr h))) (λ a b s t h. omega (arith, e.0)) o.1,
        IsOrdered-across l (λ y h. same y (inl h)) o.2,
        IsOrdered-across r (λ y h. same y (inr (inr h))) o.3,
      )

module _ (m : ℕ → Node) (addr size new : ℕ) (at : m new ≡ new_node addr size) where
  All-insert_tree :
      (P : Node → Type 0) (t : Tree)
      → P (new_node addr size)
      → All P m t
      → All P m (insert_tree m addr size new t)
  All-insert_tree P leaf h a = (tt, subst P (sym at) h, tt)
  All-insert_tree P (node l x r) h a = elim (Bool-cases (goes_left addr size (m x))) [
    | inl e ↦ rw e (All-insert_tree P l h a.0, a.1, a.2)
    | inr e ↦ rw e (a.0, a.1, All-insert_tree P r h a.2)
  ]

  pub IsOrdered-insert_tree :
      (t : Tree) → IsOrdered m t → IsOrdered m (insert_tree m addr size new t)
  IsOrdered-insert_tree leaf o = (tt, tt, tt, tt)
  IsOrdered-insert_tree (node l x r) o = elim (Bool-cases (goes_left addr size (m x))) [
    | inl e ↦ rw e (
      All-insert_tree (λ n. Before n (m x)) l (ground (arith, e)) o.0,
      o.1,
      IsOrdered-insert_tree l o.2,
      o.3,
    )
    | inr e ↦ rw e (
      o.0,
      All-insert_tree (λ n. (m x).size ≤ n.size) r (ground (arith, e)) o.1,
      o.2,
      IsOrdered-insert_tree r o.3,
    )
  ]
