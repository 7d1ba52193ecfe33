-- ===== src/Bestfit/Ordered.antt =====
-- bst_insert keeps the search tree: its order, its pointers and what it holds.
use soproyecto.Common.{
  ℕ, ◌+◌, ◌<◌, ◌≤◌, ◌≡◌, ◌≢◌, ◌⊎◌, ◌↔◌, inl, inr, refl, sym, ap, ◌∙◌, true, false, ok, leb, ◌==◌,
  arith,
}
use soproyecto.Machine.{update}
use soproyecto.Bestfit.Tree.{
  Node, Kmem, pool_size, attach, attach_at, new_node, find_parent, bst_insert,
}
use soproyecto.Bestfit.Shape.{
  Tree, leaf, node, height, In, Stored, IsOrdered, Distinct, Stored-frame,
}
use soproyecto.Bestfit.Insert.{insert_tree, insert_at}
use soproyecto.Bestfit.Keys.{attach_keys, IsOrdered-across, IsOrdered-insert_tree}
use soproyecto.Bestfit.Members.{In-insert_tree, insert_tree-In, Distinct-insert_tree}

-- The tree `t` is that of the allocator, with pointers to the nodes that were handed out.
pub record IsTree (k : Kmem) (t : Tree) : Type 0 where
  pub stored : Stored k.nodes t 0 k.root
  pub ordered : IsOrdered k.nodes t
  pub distinct : Distinct t
  pub within : (y : ℕ) → In y t → y ≤ k.next_node_idx

-- The block goes to the next node of the pool; the other nodes of the tree and their blocks stay.
pub record AddsBlock (addr size : ℕ) (k k' : Kmem) (t t' : Tree) : Type 0 where
  pub members : (y : ℕ) → In y t' ↔ (In y t ⊎ (y ≡ k.next_node_idx + 1))
  pub block :
      ((k'.nodes (k.next_node_idx + 1)).size ≡ size)
      × ((k'.nodes (k.next_node_idx + 1)).addr ≡ addr)
  pub others :
      (y : ℕ)
      → y ≤ k.next_node_idx
      → ((k'.nodes y).size ≡ (k.nodes y).size) × ((k'.nodes y).addr ≡ (k.nodes y).addr)

-- The pool of nodes with the next one set up for a block.
abbrev pub pool_with : (addr size : ℕ) → Kmem → ℕ → Node
pool_with addr size k = update k.nodes (k.next_node_idx + 1) (new_node addr size)

module _ (addr size : ℕ) (k : Kmem) where
  abbrev new : ℕ
  new = k.next_node_idx + 1

  pool_new : pool_with addr size k new ≡ new_node addr size
  pool_new = ground arith

  pool_old : (y : ℕ) → y ≤ k.next_node_idx → pool_with addr size k y ≡ k.nodes y
  pool_old y h = ground arith

  members_of :
      (t : Tree) (y : ℕ)
      → In y (insert_tree (pool_with addr size k) addr size new t) ↔ (In y t ⊎ (y ≡ new))
  members_of t y = (
    In-insert_tree (pool_with addr size k) addr size new t y,
    insert_tree-In (pool_with addr size k) addr size new t y,
  )

  IsOrdered-pool :
      (t : Tree)
      → ((y : ℕ) → In y t → y ≤ k.next_node_idx)
      → IsOrdered k.nodes t
      → IsOrdered (pool_with addr size k) t
  IsOrdered-pool t within o =
      IsOrdered-across k.nodes (pool_with addr size k) t
        (λ y h. let e = pool_old y (within y h) in (ap (λ n. n.size) e, ap (λ n. n.addr) e)) o

  insert_run :
      (fuel : ℕ)
      → k.next_node_idx < pool_size
      → k.root ≢ 0
      → bst_insert fuel addr size k
        ≡ attach_at addr size new
            (record k { nodes = pool_with addr size k; next_node_idx = new })
            (find_parent fuel (pool_with addr size k) addr size k.root 0)
  unfolding bst_insert
  insert_run fuel room filled =
      let left_over : leb pool_size k.next_node_idx ≡ false = ground arith in
      let real : (k.next_node_idx + 1 == 0) ≡ false = ground arith in
      let there : (k.root == 0) ≡ false = ground (arith, filled) in rw (left_over, real, there) refl

  -- What insert_at gives, for the whole tree.
  grown-IsTree :
      (t : Tree) (q p : ℕ)
      → IsTree k t
      → Stored
          (attach addr size new q (pool_with addr size k))
          (insert_tree (pool_with addr size k) addr size new t)
          0
          p
      → IsTree
          (record k {
            root = p;
            nodes = attach addr size new q (pool_with addr size k);
            next_node_idx = new;
          })
          (insert_tree (pool_with addr size k) addr size new t)
  grown-IsTree t q p tree stored = record {
    stored = stored;
    ordered =
        IsOrdered-across (pool_with addr size k) (attach addr size new q (pool_with addr size k))
          (insert_tree (pool_with addr size k) addr size new t)
          (λ y _. attach_keys (pool_with addr size k) addr size new q y)
          (IsOrdered-insert_tree (pool_with addr size k) addr size new pool_new t
            (IsOrdered-pool t tree.within tree.ordered));
    distinct =
        Distinct-insert_tree (pool_with addr size k) addr size new t tree.distinct
          (λ h. absurd (omega (arith, tree.within new h)));
    within = λ y h. elim (In-insert_tree (pool_with addr size k) addr size new t y h) [
      | inl g ↦ omega (arith, tree.within y g)
      | inr e ↦ omega (arith, e)
    ];
  }

-- While the pool is not used up, bst_insert ends, with fuel above the height of the tree, and
-- gives the next node of the pool. The allocator then has a search tree whose nodes are those of
-- the old one, with their blocks, and the new one with the new block.
pub bst_insert-IsTree :
    (fuel addr size : ℕ) (k : Kmem) (t : Tree)
    → IsTree k t
    → k.next_node_idx < pool_size
    → height t < fuel
    → (k' : Kmem) × (t' : Tree) × (bst_insert fuel addr size k ≡ ok (k.next_node_idx + 1, k'))
      × IsTree k' t'
      × AddsBlock addr size k k' t t'
unfolding bst_insert
bst_insert-IsTree fuel addr size k leaf tree room h =
    let m = pool_with addr size k in
    let left_over : leb pool_size k.next_node_idx ≡ false = ground arith in
    let real : (k.next_node_idx + 1 == 0) ≡ false = ground arith in
    let empty : (k.root == 0) ≡ true = ground (arith, tree.stored) in
    let at = pool_new addr size k in
    (
      record k { root = k.next_node_idx + 1; nodes = m; next_node_idx = k.next_node_idx + 1 },
      node leaf (k.next_node_idx + 1) leaf,
      rw (left_over, real, empty) refl,
      record {
        stored = (
          refl,
          (λ e. ground (arith, e)),
          ap (λ n. n.parent) at,
          ap (λ n. n.left) at,
          ap (λ n. n.right) at,
        );
        ordered = (tt, tt, tt, tt);
        distinct = ((λ y h. absurd h), (λ y h. absurd h), tt, tt);
        within = λ y h. elim h [
          | inl g ↦ absurd g
          | inr g ↦ elim g [ inl e ↦ omega (arith, e) | inr f ↦ absurd f ]
        ];
      },
      record {
        members = members_of addr size k leaf;
        block = (ap (λ n. n.size) at, ap (λ n. n.addr) at);
        others =
            λ y g. let e = pool_old addr size k y g in (ap (λ n. n.size) e, ap (λ n. n.addr) e);
      },
    )
bst_insert-IsTree fuel addr size k (node l x r) tree room h =
    let m = pool_with addr size k in
    let new = k.next_node_idx + 1 in
    let filled : k.root ≢ 0 = λ e. tree.stored.1 (sym tree.stored.0 ∙ e) in
    let stored =
      Stored-frame k.nodes m (node l x r) 0 k.root (λ y g. pool_old addr size k y (tree.within y g))
        tree.stored in
    let (q, run, _, stored') =
      insert_at m addr size new (λ e. ground (arith, e)) (pool_new addr size k) fuel (node l x r) 0
        k.root h stored tree.distinct (λ g. absurd (omega (arith, tree.within new g)))
        (λ e. ground (arith, e)) in
    (
      record k { nodes = attach addr size new q m; next_node_idx = new },
      insert_tree m addr size new (node l x r),
      insert_run addr size k fuel room filled
          ∙ ap (attach_at addr size new (record k { nodes = m; next_node_idx = new })) run,
      grown-IsTree addr size k (node l x r) q k.root tree stored',
      record {
        members = members_of addr size k (node l x r);
        block =
            let e = pool_new addr size k in
            let same = attach_keys m addr size new q new in
            (same.0 ∙ ap (λ n. n.size) e, same.1 ∙ ap (λ n. n.addr) e);
        others = λ y g.
            let e = pool_old addr size k y g in
            let same = attach_keys m addr size new q y in
            (same.0 ∙ ap (λ n. n.size) e, same.1 ∙ ap (λ n. n.addr) e);
      },
    )
