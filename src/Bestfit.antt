-- ===== src/Bestfit.antt =====
-- Archivos de prueba/kalloc_bestfit.c: the page allocator over a search tree of free blocks.
-- Loops and recursions take fuel, and `asleep` means that it ran out.
pub mod Tree
pub mod Shape
pub mod Find
pub mod Insert
pub mod Keys
pub mod Members
pub mod Ordered
pub mod Pool
use soproyecto.Common.{
  ℕ, zero, suc, ◌+◌, ◌-◌, ◌*◌, ◌%◌, ◌^◌, Bool, true, false, ◌&&◌, ◌||◌, Option, none, some, Run, ok,
  stop, asleep, ◌>>=◌, panic_kfree, ◌==◌, ltb, leb, if◌then◌else◌,
}
use soproyecto.Machine.{Machine, update, acquire, release, initlock}
use soproyecto.Kalloc.{pgsize, bad_page, pgroundup}
use soproyecto.Bestfit.Tree.{
  Kmem, kmem_lock, bst_insert, bst_delete, bst_find_best_fit, try_coalesce,
}

unfoldable pub lock_if_used : Kmem → Run Kmem
lock_if_used k =
    if k.use_lock then (do m ← acquire kmem_lock k.machine; ok (record k { machine = m })) else ok k

unfoldable pub unlock_if_used : Kmem → Run Kmem
unlock_if_used k =
    if k.use_lock then (do m ← release kmem_lock k.machine; ok (record k { machine = m })) else ok k

-- The contents of pages are not modelled, so `memset` leaves no trace.
unfoldable pub kfree : ℕ → (end v : ℕ) → Kmem → Run Kmem
kfree fuel end v k = if bad_page end v then stop panic_kfree else do
  k ← lock_if_used k
  (size, k) ← try_coalesce fuel v pgsize k
  (new, k) ← bst_insert fuel v size k
  unlock_if_used (
      if new == 0 then k else record k {
        total_free = (k.total_free + size) % 2 ^ 32;
        num_blocks = (k.num_blocks + 1) % 2 ^ 32;
      })

abbrev pub less_free : Kmem → Kmem
less_free k = record k { total_free = (k.total_free + 2 ^ 32 - pgsize) % 2 ^ 32 }

-- The first page of a block that is larger than one.
abbrev pub split_block : ℕ → Kmem → Kmem
split_block best k = less_free (record k {
  nodes = update k.nodes best (record (k.nodes best) {
    addr = (k.nodes best).addr + pgsize;
    size = (k.nodes best).size - pgsize;
  });
})

-- The rest of kalloc after its search.
unfoldable pub take_best : ℕ → Kmem → Option ℕ → Run (ℕ × Kmem)
take_best fuel k none = asleep
take_best fuel k (some best) = if best == 0 then (do k ← unlock_if_used k; ok (0, k)) else (do
  let addr = (k.nodes best).addr
  k ← if ltb pgsize (k.nodes best).size then ok (split_block best k) else (do
    k ← bst_delete fuel best k
    ok (less_free (record k { num_blocks = (k.num_blocks + 2 ^ 32 - 1) % 2 ^ 32 })))
  k ← unlock_if_used k
  ok (addr, k))

unfoldable pub kalloc : ℕ → Kmem → Run (ℕ × Kmem)
unfolding take_best
kalloc fuel k = do
  k ← lock_if_used k
  take_best fuel k (bst_find_best_fit fuel k.nodes k.root pgsize 0)

-- The loop of freerange from the page `p` on, for `rounds` pages at most.
unfoldable pub free_pages : (rounds fuel : ℕ) → (end vend p : ℕ) → Kmem → Run Kmem
free_pages zero fuel end vend p k = asleep
free_pages (suc n) fuel end vend p k =
    let rest = kfree fuel end p k >>= free_pages n fuel end vend (p + pgsize) in
    if leb (p + pgsize) vend then rest else ok k

unfoldable pub freerange : (rounds fuel : ℕ) → (end vstart vend : ℕ) → Kmem → Run Kmem
freerange rounds fuel end vstart vend k = free_pages rounds fuel end vend (pgroundup vstart) k

unfoldable pub kinit1 : (rounds fuel : ℕ) → (end vstart vend : ℕ) → Kmem → Run Kmem
kinit1 rounds fuel end vstart vend k = freerange rounds fuel end vstart vend (record k {
  machine = initlock kmem_lock k.machine;
  use_lock = false;
  root = 0;
  total_free = 0;
  num_blocks = 0;
  next_node_idx = 0;
})

unfoldable pub kinit2 : (rounds fuel : ℕ) → (end vstart vend : ℕ) → Kmem → Run Kmem
kinit2 rounds fuel end vstart vend k = do
  k ← freerange rounds fuel end vstart vend k
  ok (record k { use_lock = true })

unfoldable pub kfreemem : Kmem → Run (ℕ × Kmem)
kfreemem k = do k ← lock_if_used k; let free = k.total_free; k ← unlock_if_used k; ok (free, k)

unfoldable pub knumblocks : Kmem → Run (ℕ × Kmem)
knumblocks k = do
  k ← lock_if_used k
  let blocks = k.num_blocks
  k ← unlock_if_used k
  ok (blocks, k)
