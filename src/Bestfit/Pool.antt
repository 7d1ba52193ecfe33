-- ===== src/Bestfit/Pool.antt =====
-- What becomes of a page when the pool of nodes is used up, and how the free memory is counted.
use soproyecto.Common.{
  ℕ, zero, suc, ◌+◌, ◌-◌, ◌*◌, ◌%◌, ◌^◌, ◌<◌, ◌≤◌, ◌≡◌, ◌≢◌, refl, ap, ◌∙◌, true, false, some, ok,
  ltb, leb, ◌==◌, Bool-cases, inl, inr, arith,
}
use soproyecto.Machine.{update}
use soproyecto.Kalloc.{pgsize, bad_page, pgroundup}
use soproyecto.Bestfit.Tree.{
  Node, Kmem, pool_size, new_node, find_addr, merge_with, try_coalesce, bst_insert, bst_delete,
}
use soproyecto.Bestfit.{lock_if_used, unlock_if_used, kfree, free_pages, freerange}
use soproyecto.Bestfit.Shape.{Tree, leaf, node, height, Stored, All, All-map}

-- No block of the tree begins at the address.
find_addr-missing :
    (fuel : ℕ) (m : ℕ → Node) (addr : ℕ) (t : Tree) (parent p : ℕ)
    → height t < fuel
    → Stored m t parent p
    → All (λ n. n.addr ≢ addr) m t
    → find_addr fuel m addr p ≡ some 0
unfolding find_addr
find_addr-missing zero m addr t parent p h s a = elim h [ ]
find_addr-missing (suc fuel) m addr leaf parent p h s a = rw s refl
find_addr-missing (suc fuel) m addr (node l x r) parent p h s a =
    let there : (x == 0) ≡ false = ground arith in
    let other : ((m x).addr == addr) ≡ false = ground (arith, a.1) in
    elim (Bool-cases (ltb addr (m x).addr)) [
      | inl e ↦
          rw (s.0, there, other, e)
            (find_addr-missing fuel m addr l x (m x).left (omega arith) s.3 a.0)
      | inr e ↦
          rw (s.0, there, other, e)
            (find_addr-missing fuel m addr r x (m x).right (omega arith) s.4 a.2)
    ]

-- A pool that is used up, with a tree in which no block begins after `bound`, and no lock in use,
-- as while the memory is set up.
pub record IsUsedUp (k : Kmem) (t : Tree) (fuel bound : ℕ) : Type 0 where
  pub unlocked_yet : k.use_lock ≡ false
  pub used_up : pool_size ≤ k.next_node_idx
  pub stored : Stored k.nodes t 0 k.root
  pub enough : height t < fuel
  pub below : All (λ n. n.addr ≤ bound) k.nodes t

lock-unused : (k : Kmem) → k.use_lock ≡ false → lock_if_used k ≡ ok k
unfolding lock_if_used
lock-unused k e = ground arith

unlock-unused : (k : Kmem) → k.use_lock ≡ false → unlock_if_used k ≡ ok k
unfolding unlock_if_used
unlock-unused k e = ground arith

kfree-used_up :
    (fuel end v : ℕ) (k : Kmem) (t : Tree)
    → IsUsedUp k t fuel v
    → v + pgsize < 2 ^ 32
    → bad_page end v ≡ false
    → kfree (suc fuel) end v k ≡ ok k
unfolding kfree try_coalesce bst_insert lock_if_used unlock_if_used
kfree-used_up fuel end v k t u small good =
    let full : leb pool_size k.next_node_idx ≡ true = ground (arith, u.used_up) in
    let next : (v + pgsize) % 2 ^ 32 ≡ v + pgsize = omega arith in
    let alone = find_addr-missing fuel k.nodes (v + pgsize) t 0 k.root u.enough u.stored (
      All-map (λ n. n.addr ≤ v) (λ n. n.addr ≢ v + pgsize) k.nodes t (λ n le e. omega arith)
        u.below) in
    rw (good, u.unlocked_yet) (rw next (rw alone (rw full refl)))

free_pages-used_up :
    (rounds fuel end vend p : ℕ) (k : Kmem) (t : Tree)
    → IsUsedUp k t fuel p
    → ((v : ℕ) → p ≤ v → v + pgsize ≤ vend → v % pgsize ≡ p % pgsize → bad_page end v ≡ false)
    → vend < 2 ^ 32
    → vend < p + suc rounds * pgsize
    → free_pages (suc rounds) (suc fuel) end vend p k ≡ ok k
unfolding free_pages
free_pages-used_up zero fuel end vend p k t u good small long =
    let over : leb (p + pgsize) vend ≡ false = ground arith in rw over refl
free_pages-used_up (suc rounds) fuel end vend p k t u good small long =
    elim (Bool-cases (leb (p + pgsize) vend)) [
      | inl e ↦
          let inside : p + pgsize ≤ vend = ground (arith, e) in
          let page = good p (omega arith) inside refl in
          let u' : IsUsedUp k t fuel (p + pgsize) = record {
            unlocked_yet = u.unlocked_yet;
            used_up = u.used_up;
            stored = u.stored;
            enough = u.enough;
            below =
                All-map (λ n. n.addr ≤ p) (λ n. n.addr ≤ p + pgsize) k.nodes t (λ n le. omega arith)
                  u.below;
          } in
          rw (e, kfree-used_up fuel end p k t u (omega arith) page)
            (free_pages-used_up rounds fuel end vend (p + pgsize) k t u'
              (λ v after room aligned. good v (omega arith) room (omega (arith, aligned))) small
              (omega arith))
      | inr e ↦ rw e refl
    ]

-- Once the pool of 128 nodes is used up, freerange loses every page of a range behind the blocks
-- of the tree: it ends, with the allocator as it was.
pub freerange-used_up :
    (rounds fuel end vstart vend : ℕ) (k : Kmem) (t : Tree)
    → IsUsedUp k t fuel (pgroundup vstart)
    → ((v : ℕ)
        → pgroundup vstart ≤ v
        → v + pgsize ≤ vend
        → v % pgsize ≡ pgroundup vstart % pgsize
        → bad_page end v ≡ false)
    → vend < 2 ^ 32
    → vend < pgroundup vstart + suc rounds * pgsize
    → freerange (suc rounds) (suc fuel) end vstart vend k ≡ ok k
unfolding freerange
freerange-used_up rounds fuel end vstart vend k t u good small long =
    free_pages-used_up rounds fuel end vend (pgroundup vstart) k t u good small long

-- The tree with one block in the node `x`.
abbrev pub IsSingle : Kmem → (x addr size : ℕ) → Type 0
IsSingle k x addr size = (k.root ≡ x) × (x ≢ 0) × (k.nodes x ≡ new_node addr size)

-- The allocator after the only block has been merged with one of a page in front of it.
abbrev emptied : Kmem → Kmem
emptied k = record k { root = 0; num_blocks = (k.num_blocks + 2 ^ 32 - 1) % 2 ^ 32 }

try_coalesce-emptied :
    (fuel v x size : ℕ) (k : Kmem)
    → IsSingle k x (v + pgsize) size
    → v + pgsize + size < 2 ^ 32
    → try_coalesce (suc (suc (suc fuel))) v pgsize k ≡ ok (pgsize + size, emptied k)
unfolding try_coalesce find_addr bst_delete merge_with
try_coalesce-emptied fuel v x size k (root, real, at) small =
    let next : (v + pgsize) % 2 ^ 32 ≡ v + pgsize = omega arith in
    let same : (v + pgsize == v + pgsize) ≡ true = ground arith in
    let there : (x == 0) ≡ false = ground arith in
    let total : (pgsize + size) % 2 ^ 32 ≡ pgsize + size = omega arith in
    rw root (rw (next, at) (rw (there, same) (rw (there, at, total) refl)))

abbrev pub merged : ℕ → ℕ → Kmem → Kmem
merged v size k = record k {
  root = k.next_node_idx + 1;
  nodes = update k.nodes (k.next_node_idx + 1) (new_node v (pgsize + size));
  next_node_idx = k.next_node_idx + 1;
  total_free = (k.total_free + (pgsize + size)) % 2 ^ 32;
}

-- A page that is freed just before the only block is merged with it: the tree then has one block of
-- both, but total_free grows by the size of both, though the block was counted already.
pub kfree-merged :
    (fuel end v x size : ℕ) (k : Kmem)
    → k.use_lock ≡ false
    → k.next_node_idx < pool_size
    → IsSingle k x (v + pgsize) size
    → v + pgsize + size < 2 ^ 32
    → k.num_blocks ≡ 1
    → bad_page end v ≡ false
    → (kfree (suc (suc (suc fuel))) end v k ≡ ok (merged v size k))
      × IsSingle (merged v size k) (k.next_node_idx + 1) v (pgsize + size)
unfolding kfree bst_insert
kfree-merged fuel end v x size k unlocked room single small one good =
    let counted : ((k.num_blocks + 2 ^ 32 - 1) % 2 ^ 32 + 1) % 2 ^ 32 ≡ k.num_blocks =
      omega arith in
    let room' : leb pool_size k.next_node_idx ≡ false = ground arith in
    let real : (k.next_node_idx + 1 == 0) ≡ false = ground arith in
    (
      rw good (
          rw (lock-unused k unlocked) (
            rw (try_coalesce-emptied fuel v x size k single small) (
              rw (room', real, real)
                (unlock-unused
                    (record (merged v size k) {
                      num_blocks = ((k.num_blocks + 2 ^ 32 - 1) % 2 ^ 32 + 1) % 2 ^ 32;
                    })
                    unlocked
                  ∙ ap (λ n. ok (record (merged v size k) { num_blocks = n })) counted)))),
      (refl, λ e. ground (arith, e), ground arith),
    )
