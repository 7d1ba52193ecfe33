-- ===== src/Bestfit/Tree.antt =====
-- The search tree of kalloc_bestfit.c: the pool of nodes, bst_insert, bst_delete, bst_find_best_fit
-- and try_coalesce. The pointer to `kmem.nodes[i]` is i + 1, and 0 is NULL.
use soproyecto.Common.{
  ℕ, zero, suc, ◌+◌, ◌-◌, ◌%◌, ◌^◌, Bool, true, false, ◌&&◌, ◌||◌, Option, none, some, Run, ok,
  asleep, ◌>>=◌, ◌==◌, ltb, leb, if◌then◌else◌,
}
use soproyecto.Machine.{Machine, update}

-- `struct bst_node`
pub record Node : Type 0 where
  pub addr : ℕ
  pub size : ℕ
  pub left : ℕ
  pub right : ℕ
  pub parent : ℕ

pub record Kmem : Type 0 where
  pub machine : Machine
  pub use_lock : Bool
  pub root : ℕ
  pub total_free : ℕ
  pub num_blocks : ℕ
  pub nodes : ℕ → Node
  pub next_node_idx : ℕ

-- The number of nodes in the pool.
abbrev pub pool_size : ℕ
pool_size = 128

-- The address of kmem.lock.
abbrev pub kmem_lock : ℕ
kmem_lock = 69

unfoldable pub get_node : Kmem → ℕ × Kmem
get_node k =
    if leb pool_size k.next_node_idx
    then (0, k)
    else (k.next_node_idx + 1, record k { next_node_idx = k.next_node_idx + 1 })

-- `size < n->size || (size == n->size && addr < n->addr)`
abbrev pub goes_left : (addr size : ℕ) → Node → Bool
goes_left addr size n = ltb size n.size || ((size == n.size) && ltb addr n.addr)

-- `n->left` or `n->right`, by the order of the tree.
abbrev pub side : (addr size : ℕ) → Node → ℕ
side addr size n = if goes_left addr size n then n.left else n.right

-- The loop of bst_insert that looks for the parent.
unfoldable pub find_parent : ℕ → (ℕ → Node) → (addr size current parent : ℕ) → Option ℕ
find_parent zero m addr size current parent = none
find_parent (suc n) m addr size current parent =
    let rest = find_parent n m addr size (side addr size (m current)) current in
    if current == 0 then some parent else rest

abbrev pub with_child : Bool → ℕ → Node → Node
with_child true new n = record n { left = new }
with_child false new n = record n { right = new }

-- `new_node->parent = parent`, and the node as a child of the parent.
abbrev pub attach : (addr size new parent : ℕ) → (ℕ → Node) → ℕ → Node
attach addr size new parent m =
    let m' = update m new (record (m new) { parent = parent }) in
    update m' parent (with_child (goes_left addr size (m' parent)) new (m' parent))

abbrev pub attach_at : (addr size new : ℕ) → Kmem → Option ℕ → Run (ℕ × Kmem)
attach_at addr size new k none = asleep
attach_at addr size new k (some parent) =
    ok (new, record k { nodes = attach addr size new parent k.nodes })

abbrev pub new_node : (addr size : ℕ) → Node
new_node addr size = record { addr = addr; size = size; left = 0; right = 0; parent = 0 }

unfoldable pub bst_insert : ℕ → (addr size : ℕ) → Kmem → Run (ℕ × Kmem)
unfolding get_node
bst_insert fuel addr size k =
    let (new, k₁) = get_node k in
    let k₂ = record k₁ { nodes = update k₁.nodes new (new_node addr size) } in
    if new == 0
    then ok (0, k)
    else if k₂.root == 0
    then ok (new, record k₂ { root = new })
    else attach_at addr size new k₂ (find_parent fuel k₂.nodes addr size k₂.root 0)

unfoldable pub bst_min_node : ℕ → (ℕ → Node) → ℕ → Option ℕ
bst_min_node zero m node = none
bst_min_node (suc n) m node =
    let rest = bst_min_node n m (m node).left in if (m node).left == 0 then some node else rest

-- `child` takes the place of `node` below its parent, or as the root.
abbrev pub put_in_place : (node child : ℕ) → Kmem → Kmem
put_in_place node child k =
    let p = (k.nodes node).parent in
    if p == 0 then record k { root = child } else record k {
      nodes = update k.nodes p (with_child ((k.nodes p).left == node) child (k.nodes p));
    }

-- `child->parent = node->parent`
abbrev pub with_parent : (node child : ℕ) → Kmem → Kmem
with_parent node child k = record k {
  nodes = update k.nodes child (record (k.nodes child) { parent = (k.nodes node).parent });
}

-- `node->addr = from->addr; node->size = from->size;`
abbrev pub copy_block : (node from : ℕ) → Kmem → Kmem
copy_block node from k = record k {
  nodes =
      update k.nodes node
        (record (k.nodes node) { addr = (k.nodes from).addr; size = (k.nodes from).size });
}

-- The case of two children goes on with the one that comes next.
abbrev pub replace_by : (ℕ → Kmem → Run Kmem) → ℕ → Kmem → Option ℕ → Run Kmem
replace_by delete node k none = asleep
replace_by delete node k (some replacement) = delete replacement (copy_block node replacement k)

unfoldable pub bst_delete : ℕ → ℕ → Kmem → Run Kmem
unfolding bst_min_node
bst_delete zero node k = asleep
bst_delete (suc fuel) node k =
    let n = k.nodes node in
    let child = if n.left == 0 then n.right else n.left in
    let both = replace_by (bst_delete fuel) node k (bst_min_node fuel k.nodes n.right) in
    if node == 0
    then ok k
    else if (n.left == 0) && (n.right == 0)
    then ok (put_in_place node 0 k)
    else if (n.left == 0) || (n.right == 0)
    then ok (with_parent node child (put_in_place node child k))
    else both

-- `best`, or `node` if it is better.
abbrev pub better : (ℕ → Node) → (node best : ℕ) → ℕ
better m node best = if (best == 0) || ltb (m node).size (m best).size then node else best

unfoldable pub bst_find_best_fit : ℕ → (ℕ → Node) → (node size best : ℕ) → Option ℕ
bst_find_best_fit zero m node size best = none
bst_find_best_fit (suc n) m node size best =
    let fits = bst_find_best_fit n m (m node).left size (better m node best) in
    let too_small = bst_find_best_fit n m (m node).right size best in
    if node == 0 then some best else if leb size (m node).size then fits else too_small

-- The loop of try_coalesce: the node with the address, or 0.
unfoldable pub find_addr : ℕ → (ℕ → Node) → (addr current : ℕ) → Option ℕ
find_addr zero m addr current = none
find_addr (suc n) m addr current =
    let next = if ltb addr (m current).addr then (m current).left else (m current).right in
    let rest = find_addr n m addr next in
    if current == 0 then some 0 else if (m current).addr == addr then some current else rest

-- The rest of try_coalesce after its loop, which recurs through `again`.
unfoldable pub merge_with : ℕ → (ℕ → Kmem → Run (ℕ × Kmem)) → ℕ → Kmem → Option ℕ → Run (ℕ × Kmem)
merge_with fuel again size k none = asleep
merge_with fuel again size k (some current) = if current == 0 then ok (size, k) else (do
  let new_size = (size + (k.nodes current).size) % 2 ^ 32
  k ← bst_delete fuel current k
  again new_size (record k { num_blocks = (k.num_blocks + 2 ^ 32 - 1) % 2 ^ 32 }))

unfoldable pub try_coalesce : ℕ → (addr size : ℕ) → Kmem → Run (ℕ × Kmem)
unfolding merge_with
try_coalesce zero addr size k = asleep
try_coalesce (suc fuel) addr size k =
    merge_with fuel (try_coalesce fuel addr) size k
      (find_addr fuel k.nodes ((addr + size) % 2 ^ 32) k.root)
