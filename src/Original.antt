-- ===== src/Original.antt =====
-- kalloc.c of the unmodified kernel (xv6-public/kalloc.c, and a copy of it in Archivos de prueba):
-- the page allocator that takes the head of its free list.
pub mod Pages
pub mod Agreement
use soproyecto.Common.{
  ℕ, zero, suc, ◌+◌, Bool, true, false, Run, ok, stop, asleep, ◌>>=◌, panic_kfree, ◌==◌, leb,
  if◌then◌else◌,
}
use soproyecto.Machine.{Machine, update, acquire, release, initlock}
use soproyecto.Kalloc.{pgsize, kmem_lock, bad_page, pgroundup}

-- `next` holds the `struct run` of each address.
pub record Kmem : Type 0 where
  pub machine : Machine
  pub use_lock : Bool
  pub freelist : ℕ
  pub next : ℕ → ℕ

unfoldable pub lock_if_used : Kmem → Run Kmem
lock_if_used k =
    if k.use_lock then (do m ← acquire kmem_lock k.machine; ok (record k { machine = m })) else ok k

unfoldable pub unlock_if_used : Kmem → Run Kmem
unlock_if_used k =
    if k.use_lock then (do m ← release kmem_lock k.machine; ok (record k { machine = m })) else ok k

-- What `memset(v, 1, PGSIZE)` leaves in `next`.
abbrev pub filled : ℕ → Kmem → Kmem
filled v k = record k { next = update k.next v 0x1010101 }

-- `r->next = kmem.freelist; kmem.freelist = r;`
abbrev pub pushed_on : ℕ → Kmem → Kmem
pushed_on v k = record k { next = update k.next v k.freelist; freelist = v }

unfoldable pub kfree : (end v : ℕ) → Kmem → Run Kmem
kfree end v k =
    if bad_page end v
    then stop panic_kfree
    else do k ← lock_if_used (filled v k); unlock_if_used (pushed_on v k)

-- `if(r) kmem.freelist = r->next;`
abbrev pub popped_off : Kmem → Kmem
popped_off k = if k.freelist == 0 then k else record k { freelist = k.next k.freelist }

unfoldable pub kalloc : Kmem → Run (ℕ × Kmem)
kalloc k = do k ← lock_if_used k; let r = k.freelist; k ← unlock_if_used (popped_off k); ok (r, k)

-- The loop of freerange from the page `p` on, with fuel for its rounds.
unfoldable pub free_pages : ℕ → (end vend p : ℕ) → Kmem → Run Kmem
free_pages zero end vend p k = asleep
free_pages (suc n) end vend p k =
    let rest = kfree end p k >>= free_pages n end vend (p + pgsize) in
    if leb (p + pgsize) vend then rest else ok k

unfoldable pub freerange : ℕ → (end vstart vend : ℕ) → Kmem → Run Kmem
freerange fuel end vstart vend k = free_pages fuel end vend (pgroundup vstart) k

unfoldable pub kinit1 : ℕ → (end vstart vend : ℕ) → Kmem → Run Kmem
kinit1 fuel end vstart vend k =
    freerange fuel end vstart vend
      (record k { machine = initlock kmem_lock k.machine; use_lock = false })

unfoldable pub kinit2 : ℕ → (end vstart vend : ℕ) → Kmem → Run Kmem
kinit2 fuel end vstart vend k = do
  k ← freerange fuel end vstart vend k
  ok (record k { use_lock = true })
