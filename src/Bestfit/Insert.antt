-- ===== src/Bestfit/Insert.antt =====
-- bst_insert puts a new node below the right leaf, and the tree stays a search tree.
use soproyecto.Common.{
  ℕ, zero, suc, ◌<◌, ◌≡◌, ◌≢◌, ◌⊎◌, inl, inr, refl, sym, subst, ap, ◌∙◌, Bool, true, false, some,
  ◌==◌, Bool-cases, if◌then◌else◌, arith,
}
use soproyecto.Bestfit.Tree.{Node, goes_left, with_child, attach, new_node, find_parent}
use soproyecto.Bestfit.Shape.{Tree, leaf, node, height, In, Stored, Distinct, Stored-frame}

-- The tree with the new node.
abbrev pub insert_tree : (ℕ → Node) → (addr size new : ℕ) → Tree → Tree
insert_tree m addr size new leaf = node leaf new leaf
insert_tree m addr size new (node l x r) =
    let l' = insert_tree m addr size new l in
    let r' = insert_tree m addr size new r in
    if goes_left addr size (m x) then node l' x r else node l x r'

-- Where the new node is attached to: in the tree, or to the node above it if it is empty.
abbrev pub Place : Tree → (q above : ℕ) → Type 0
Place leaf q above = q ≡ above
Place (node l x r) q above = In q (node l x r)

-- The pointer to the tree with the new node.
abbrev pub entry : Tree → (new p : ℕ) → ℕ
entry leaf new p = new
entry (node l x r) new p = p

Place-ne : (t : Tree) (q above y : ℕ) → Place t q above → y ≢ above → (In q t → y ≢ q) → y ≢ q
Place-ne leaf q above y at ne f e = ne (e ∙ at)
Place-ne (node l x r) q above y at ne f e = f at e

module _ (m : ℕ → Node) (addr size new : ℕ) (real : new ≢ 0) (at : m new ≡ new_node addr size) where
  abbrev pub hung : ℕ → ℕ → Node
  hung q = attach addr size new q m

  hung-ne : (q y : ℕ) → y ≢ q → y ≢ new → hung q y ≡ m y
  hung-ne q y a b = ground (arith, a, b)

  hung-new : (q : ℕ) → new ≢ q → hung q new ≡ record (new_node addr size) { parent = q }
  hung-new q a = ground (arith, a, at)

  hung_parent :
      (q : ℕ) (b : Bool)
      → new ≢ q
      → goes_left addr size (m q) ≡ b
      → hung q q ≡ with_child b new (m q)
  hung_parent q b a e =
      let self : (q == q) ≡ true = ground arith in
      let apart : (new == q) ≡ false = ground (arith, a) in rw (self, apart, e) refl

  -- The fields of `x` when the node goes into its left subtree, and into its right one.
  into_left :
      (l : Tree) (x q : ℕ)
      → goes_left addr size (m x) ≡ true
      → new ≢ x
      → ((y : ℕ) → In y l → y ≢ x)
      → Place l q x
      → ((hung q x).left ≡ entry l new (m x).left)
        × ((hung q x).right ≡ (m x).right)
        × ((hung q x).parent ≡ (m x).parent)
  into_left leaf x q way apart other here =
      let e = ap (λ z. hung z x) here ∙ hung_parent x true apart way in
      (ap (λ n. n.left) e, ap (λ n. n.right) e, ap (λ n. n.parent) e)
  into_left (node a y b) x q way apart other here =
      let e = hung-ne q x (λ z. other q here (sym z)) (λ z. apart (sym z)) in
      (ap (λ n. n.left) e, ap (λ n. n.right) e, ap (λ n. n.parent) e)

  into_right :
      (r : Tree) (x q : ℕ)
      → goes_left addr size (m x) ≡ false
      → new ≢ x
      → ((y : ℕ) → In y r → y ≢ x)
      → Place r q x
      → ((hung q x).left ≡ (m x).left)
        × ((hung q x).right ≡ entry r new (m x).right)
        × ((hung q x).parent ≡ (m x).parent)
  into_right leaf x q way apart other here =
      let e = ap (λ z. hung z x) here ∙ hung_parent x false apart way in
      (ap (λ n. n.left) e, ap (λ n. n.right) e, ap (λ n. n.parent) e)
  into_right (node a y b) x q way apart other here =
      let e = hung-ne q x (λ z. other q here (sym z)) (λ z. apart (sym z)) in
      (ap (λ n. n.left) e, ap (λ n. n.right) e, ap (λ n. n.parent) e)

  abbrev pub Inserted : (fuel : ℕ) → Tree → (above p : ℕ) → Type 0
  Inserted fuel t above p =
      (q : ℕ) × (find_parent fuel m addr size p above ≡ some q)
      × Place t q above
      × Stored (hung q) (insert_tree m addr size new t) above (entry t new p)

  -- The other pointers of the tree around the place of the new node.
  insert_left :
      (fuel : ℕ) (l : Tree) (x : ℕ) (r : Tree) (above p : ℕ)
      → Stored m (node l x r) above p
      → Distinct (node l x r)
      → ¬ In new (node l x r)
      → goes_left addr size (m x) ≡ true
      → Inserted fuel l x (m x).left
      → Inserted (suc fuel) (node l x r) above p
  unfolding find_parent
  insert_left fuel l x r above p s d fresh way (q, run, here, stored) =
      let there : (x == 0) ≡ false = ground arith in
      let (left, right, parent) =
        into_left l x q way (λ e. fresh (inr (inl e))) (λ y h. (d.0 y h).0) here in
      (
        q,
        rw (s.0, there, way) run,
        at_or_above l here,
        rw way (
          s.0,
          s.1,
          parent ∙ s.2,
          subst (Stored (hung q) (insert_tree m addr size new l) x) (sym left) stored,
          subst (Stored (hung q) r x) (sym right) (
              Stored-frame m (hung q) r x (m x).right
                (λ y h.
                  hung-ne q y
                    (Place-ne l q x y here (d.1 y h) (λ g e. (d.0 q g).1 (subst (λ z. In z r) e h)))
                    (λ e. fresh (inr (inr (subst (λ z. In z r) e h)))))
                s.4),
        ),
      )
    where
      at_or_above : (t : Tree) → Place t q x → In q t ⊎ ((q ≡ x) ⊎ In q r)
      at_or_above leaf e = inr (inl e)
      at_or_above (node a y b) h = inl h

  insert_right :
      (fuel : ℕ) (l : Tree) (x : ℕ) (r : Tree) (above p : ℕ)
      → Stored m (node l x r) above p
      → Distinct (node l x r)
      → ¬ In new (node l x r)
      → goes_left addr size (m x) ≡ false
      → Inserted fuel r x (m x).right
      → Inserted (suc fuel) (node l x r) above p
  unfolding find_parent
  insert_right fuel l x r above p s d fresh way (q, run, here, stored) =
      let there : (x == 0) ≡ false = ground arith in
      let (left, right, parent) = into_right r x q way (λ e. fresh (inr (inl e))) d.1 here in
      (
        q,
        rw (s.0, there, way) run,
        at_or_above r here,
        rw way (
          s.0,
          s.1,
          parent ∙ s.2,
          subst (Stored (hung q) l x) (sym left) (
              Stored-frame m (hung q) l x (m x).left
                (λ y h.
                  hung-ne q y
                    (Place-ne r q x y here (d.0 y h).0
                      (λ g e. (d.0 y h).1 (subst (λ z. In z r) (sym e) g)))
                    (λ e. fresh (inl (subst (λ z. In z l) e h))))
                s.3),
          subst (Stored (hung q) (insert_tree m addr size new r) x) (sym right) stored,
        ),
      )
    where
      at_or_above : (t : Tree) → Place t q x → In q l ⊎ ((q ≡ x) ⊎ In q t)
      at_or_above leaf e = inr (inl e)
      at_or_above (node a y b) h = inr (inr h)

  pub insert_at :
      (fuel : ℕ) (t : Tree) (above p : ℕ)
      → height t < fuel
      → Stored m t above p
      → Distinct t
      → ¬ In new t
      → new ≢ above
      → Inserted fuel t above p
  unfolding find_parent
  insert_at zero t above p h s d fresh apart = elim h [ ]
  insert_at (suc fuel) leaf above p h s d fresh apart =
      let e = hung-new above apart in
      (
        above,
        rw s refl,
        refl,
        (refl, real, ap (λ n. n.parent) e, ap (λ n. n.left) e, ap (λ n. n.right) e),
      )
  insert_at (suc fuel) (node l x r) above p h s d fresh apart =
      elim (Bool-cases (goes_left addr size (m x))) [
        | inl way ↦ insert_left fuel l x r above p s d fresh way (
            insert_at fuel l x (m x).left (omega arith) s.3 d.2 (λ g. fresh (inl g))
              (λ e. fresh (inr (inl e))))
        | inr way ↦ insert_right fuel l x r above p s d fresh way (
            insert_at fuel r x (m x).right (omega arith) s.4 d.3 (λ g. fresh (inr (inr g)))
              (λ e. fresh (inr (inl e))))
      ]
