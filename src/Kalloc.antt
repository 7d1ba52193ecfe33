-- ===== src/Kalloc.antt =====
-- kalloc.c of the modified kernel: the page allocator with a best-fit search of its free list.
-- `mem` holds a `struct run` for each address; the rest of a page's bytes is not modelled.
pub mod Chain
pub mod Search
pub mod Pages
pub mod Uniform
use soproyecto.Common.{
  ℕ, zero, suc, ◌+◌, ◌-◌, ◌*◌, ◌/◌, ◌%◌, ◌^◌, Bool, true, false, ◌&&◌, ◌||◌, not, Option, none,
  some, Run, ok, stop, asleep, ◌>>=◌, panic_kfree, ◌==◌, ltb, leb, if◌then◌else◌,
}
use soproyecto.Machine.{Machine, update, acquire, release, initlock}

-- `struct run`
pub record Block : Type 0 where
  pub size : ℕ
  pub next : ℕ

pub record Kmem : Type 0 where
  pub machine : Machine
  pub use_lock : Bool
  pub freelist : ℕ
  pub mem : ℕ → Block

abbrev pub pgsize : ℕ
pgsize = 4096

abbrev pub kernbase : ℕ
kernbase = 0x80000000

abbrev pub phystop : ℕ
phystop = 0xe000000

-- The address of kmem.lock.
abbrev pub kmem_lock : ℕ
kmem_lock = 68

unfoldable pub lock_if_used : Kmem → Run Kmem
lock_if_used k =
    if k.use_lock then (do m ← acquire kmem_lock k.machine; ok (record k { machine = m })) else ok k

unfoldable pub unlock_if_used : Kmem → Run Kmem
unlock_if_used k =
    if k.use_lock then (do m ← release kmem_lock k.machine; ok (record k { machine = m })) else ok k

-- What `memset(v, 1, PGSIZE)` leaves in the fields of a `struct run`.
abbrev pub junk : Block
junk = record { size = 0x1010101; next = 0x1010101 }

-- `V2P(v)`, of 32 bits.
abbrev pub v2p : ℕ → ℕ
v2p v = (v + 2 ^ 32 - kernbase) % 2 ^ 32

abbrev pub bad_page : ℕ → ℕ → Bool
bad_page end v = not (v % pgsize == 0) || ltb v end || leb phystop (v2p v)

-- `r->size = PGSIZE; r->next = kmem.freelist; kmem.freelist = r;` on memory just filled.
abbrev pub linked : ℕ → Kmem → Kmem
linked v k =
    let filled = update k.mem v junk in
    let sized = update filled v (record (filled v) { size = pgsize }) in
    record k { mem = update sized v (record (sized v) { next = k.freelist }); freelist = v }

-- `end` is the first address after the kernel. The pages are filled before the lock is taken.
unfoldable pub kfree : (end v : ℕ) → Kmem → Run Kmem
kfree end v k =
    if bad_page end v then stop panic_kfree else do k ← lock_if_used k; unlock_if_used (linked v k)

-- The better of two blocks, with the one before it, and the next `prev`: the body of the loop.
pub record Best : Type 0 where
  pub best : ℕ
  pub best_prev : ℕ
  pub prev : ℕ

abbrev pub look : (ℕ → Block) → ℕ → Best → Best
look mem r s =
    if leb pgsize (mem r).size && ((s.best == 0) || ltb (mem r).size (mem s.best).size)
    then record { best = r; best_prev = s.prev; prev = r }
    else record s { prev = r }

-- `while (r) { ... }` with fuel; `none` means that the fuel ran out.
unfoldable pub search : ℕ → (ℕ → Block) → ℕ → Best → Option Best
search zero mem r s = none
search (suc n) mem r s =
    let rest = search n mem (mem r).next (look mem r s) in if r == 0 then some s else rest

abbrev pub no_best : Best
no_best = record { best = 0; best_prev = 0; prev = 0 }

-- The block that was found leaves the list.
abbrev pub unlinked : Best → Kmem → Kmem
unlinked s k = if s.best_prev == 0 then record k { freelist = (k.mem s.best).next } else record k {
  mem = update k.mem s.best_prev (record (k.mem s.best_prev) { next = (k.mem s.best).next });
}

-- The rest of kalloc after its search.
unfoldable pub take_best : Kmem → Option Best → Run (ℕ × Kmem)
take_best k none = asleep
take_best k (some s) =
    if s.best == 0
    then (do k ← unlock_if_used k; ok (0, k))
    else (do k ← unlock_if_used (unlinked s k); ok (s.best, k))

-- `fuel` bounds the rounds of the search; without enough of it the result is `asleep`.
unfoldable pub kalloc : ℕ → Kmem → Run (ℕ × Kmem)
unfolding take_best
kalloc fuel k = do k ← lock_if_used k; take_best k (search fuel k.mem k.freelist no_best)

-- PGROUNDUP
abbrev pub pgroundup : ℕ → ℕ
pgroundup a = (a + pgsize - 1) / pgsize * pgsize

-- The loop of freerange from the page `p` on, with fuel for its rounds.
unfoldable pub free_pages : ℕ → (end vend p : ℕ) → Kmem → Run Kmem
free_pages zero end vend p k = asleep
free_pages (suc n) end vend p k =
    let rest = kfree end p k >>= free_pages n end vend (p + pgsize) in
    if leb (p + pgsize) vend then rest else ok k

unfoldable pub freerange : ℕ → (end vstart vend : ℕ) → Kmem → Run Kmem
freerange fuel end vstart vend k = free_pages fuel end vend (pgroundup vstart) k

unfoldable pub kinit1 : ℕ → (end vstart vend : ℕ) → Kmem → Run Kmem
kinit1 fuel end vstart vend k =
    freerange fuel end vstart vend
      (record k { machine = initlock kmem_lock k.machine; use_lock = false; freelist = 0 })

unfoldable pub kinit2 : ℕ → (end vstart vend : ℕ) → Kmem → Run Kmem
kinit2 fuel end vstart vend k = do
  k ← freerange fuel end vstart vend k
  ok (record k { use_lock = true })
