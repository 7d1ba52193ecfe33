-- ===== src/Bcache.antt =====
-- bio.c: the cache of disk blocks, a ring of buffers in the order of their last use. `bufs` is the
-- memory of struct buf, by addresses; the data of a buffer is in the store of the log, and the
-- queue of the disk driver is left out. `bcache` is the address of the first buffer, and `iderw`
-- the disk driver.
pub mod Ring
pub mod Release
pub mod Lookup
pub mod Unique
pub mod Get
pub mod Init
use soproyecto.Common.{
  ℕ, zero, suc, ◌+◌, ◌-◌, ◌*◌, ◌/◌, ◌%◌, ◌^◌, Bool, true, false, not, ◌&&◌, Option, none, some, Run,
  ok, stop, asleep, ◌>>=◌, panic_bget, panic_bwrite, panic_brelse, ◌==◌, if◌then◌else◌,
}
use soproyecto.Machine.{update, initlock}
use soproyecto.Proc.Defs.{Kernel, lock, unlock}
use soproyecto.Sleeplock.{initsleeplock, acquiresleep, releasesleep, holdingsleep}

-- struct buf
pub record Buf : Type 0 where
  pub flags : ℕ
  pub dev : ℕ
  pub blockno : ℕ
  pub refcnt : ℕ
  pub prev : ℕ
  pub next : ℕ

pub record Bcache : Type 0 where
  pub kernel : Kernel
  pub bufs : ℕ → Buf

abbrev pub nbuf : ℕ
nbuf = 30

-- The address of bcache.lock.
abbrev pub bcache_lock : ℕ
bcache_lock = 72

-- A struct buf has 604 bytes; its lock follows three words.
abbrev pub head_of : ℕ → ℕ
head_of bcache = bcache + 604 * nbuf

abbrev pub lock_of : ℕ → ℕ
lock_of b = b + 12

abbrev pub set_next : (p v : ℕ) → (ℕ → Buf) → ℕ → Buf
set_next p v m = update m p (record (m p) { next = v })

abbrev pub set_prev : (p v : ℕ) → (ℕ → Buf) → ℕ → Buf
set_prev p v m = update m p (record (m p) { prev = v })

-- The four writes that put `b` behind the head.
unfoldable pub insert_front : (head b : ℕ) → (ℕ → Buf) → ℕ → Buf
insert_front head b m =
    let m₁ = set_prev b head (set_next b (m head).next m) in
    set_next head b (set_prev (m₁ head).next b m₁)

-- The two writes that take `b` out.
unfoldable pub unlink : ℕ → (ℕ → Buf) → ℕ → Buf
unlink b m = let m₁ = set_prev (m b).next (m b).prev m in set_next (m₁ b).prev (m₁ b).next m₁

abbrev pub with_bufs : (ℕ → Buf) → Bcache → Bcache
with_bufs m w = record w { bufs = m }

abbrev pub with_kernel : Kernel → Bcache → Bcache
with_kernel k w = record w { kernel = k }

-- The loop of binit over `n` buffers from `b` on.
unfoldable pub add_bufs : (n head b : ℕ) → Bcache → Bcache
add_bufs zero head b w = w
add_bufs (suc n) head b w =
    add_bufs n head (b + 604)
      (record { kernel = initsleeplock (lock_of b) w.kernel; bufs = insert_front head b w.bufs })

unfoldable pub binit : (bcache : ℕ) → Bcache → Bcache
binit bcache w =
    let head = head_of bcache in
    add_bufs nbuf head bcache (record {
      kernel = record w.kernel { machine = initlock bcache_lock w.kernel.machine };
      bufs = set_next head head (set_prev head head w.bufs);
    })

-- `b->dev == dev && b->blockno == blockno`
abbrev pub caches : (dev blockno : ℕ) → Buf → Bool
caches dev blockno b = (b.dev == dev) && (b.blockno == blockno)

-- `b->refcnt == 0 && (b->flags & B_DIRTY) == 0`
abbrev pub is_unused : Buf → Bool
is_unused b = (b.refcnt == 0) && (b.flags / 4 % 2 == 0)

-- The loops of bget, with fuel: the first buffer that passes the test, or the head.
unfoldable pub scan_next : (fuel : ℕ) → (Buf → Bool) → (head b : ℕ) → (ℕ → Buf) → Option ℕ
scan_next zero test head b m = none
scan_next (suc n) test head b m =
    let rest = scan_next n test head (m b).next m in
    if b == head then some head else if test (m b) then some b else rest

unfoldable pub scan_prev : (fuel : ℕ) → (Buf → Bool) → (head b : ℕ) → (ℕ → Buf) → Option ℕ
scan_prev zero test head b m = none
scan_prev (suc n) test head b m =
    let rest = scan_prev n test head (m b).prev m in
    if b == head then some head else if test (m b) then some b else rest

unfoldable pub lock_cache : Bcache → Run Bcache
lock_cache w = do k ← lock bcache_lock w.kernel; ok (with_kernel k w)

unfoldable pub unlock_cache : Bcache → Run Bcache
unlock_cache w = do k ← unlock bcache_lock w.kernel; ok (with_kernel k w)

-- `b->refcnt++`
abbrev pub one_more : ℕ → (ℕ → Buf) → ℕ → Buf
one_more b m = update m b (record (m b) { refcnt = ((m b).refcnt + 1) % 2 ^ 32 })

abbrev pub assigned : (dev blockno b : ℕ) → (ℕ → Buf) → ℕ → Buf
assigned dev blockno b m =
    update m b (record (m b) { dev = dev; blockno = blockno; flags = 0; refcnt = 1 })

module _ (bcache : ℕ) (swtch : Kernel → Kernel) (fuel : ℕ) where
  -- The end of both cases of bget.
  unfoldable pub hold : ℕ → Bcache → Run (ℕ × Bcache)
  hold b w = do
    w ← unlock_cache w
    k ← acquiresleep swtch fuel (lock_of b) w.kernel
    ok (b, with_kernel k w)

  -- The second loop of bget and what follows.
  unfoldable pub recycle : (dev blockno : ℕ) → Option ℕ → Bcache → Run (ℕ × Bcache)
  recycle dev blockno none w = asleep
  recycle dev blockno (some b) w =
      if b == head_of bcache
      then stop panic_bget
      else hold b (with_bufs (assigned dev blockno b w.bufs) w)

  -- What follows the first loop.
  unfoldable pub hit_or_recycle : (rounds dev blockno : ℕ) → Option ℕ → Bcache → Run (ℕ × Bcache)
  hit_or_recycle rounds dev blockno none w = asleep
  hit_or_recycle rounds dev blockno (some b) w =
      let head = head_of bcache in
      if b == head
      then recycle dev blockno (scan_prev rounds is_unused head (w.bufs head).prev w.bufs) w
      else hold b (with_bufs (one_more b w.bufs) w)

  unfoldable pub bget : (rounds dev blockno : ℕ) → Bcache → Run (ℕ × Bcache)
  bget rounds dev blockno w = do
    w ← lock_cache w
    let head = head_of bcache
    hit_or_recycle rounds dev blockno
        (scan_next rounds (caches dev blockno) head (w.bufs head).next w.bufs) w

  -- `b->flags & B_VALID`
  abbrev pub is_valid : Buf → Bool
  is_valid b = b.flags / 2 % 2 == 1

  unfoldable pub bread :
      (iderw : ℕ → Bcache → Run Bcache) → (rounds dev blockno : ℕ) → Bcache → Run (ℕ × Bcache)
  bread iderw rounds dev blockno w = do
    (b, w) ← bget rounds dev blockno w
    if is_valid (w.bufs b) then ok (b, w) else do w ← iderw b w; ok (b, w)

-- `b->flags |= B_DIRTY`
abbrev pub dirtied : Buf → Buf
dirtied b = if b.flags / 4 % 2 == 1 then b else record b { flags = b.flags + 4 }

unfoldable pub bwrite : (iderw : ℕ → Bcache → Run Bcache) → ℕ → Bcache → Run Bcache
bwrite iderw b w = do
  (held, k) ← holdingsleep (lock_of b) w.kernel
  let w = with_kernel k w
  if held then iderw b (with_bufs (update w.bufs b (dirtied (w.bufs b))) w) else stop panic_bwrite

-- The ring after a release: `b` goes to the front when nobody else waits for it.
unfoldable pub released : (head b : ℕ) → (ℕ → Buf) → ℕ → Buf
unfolding insert_front unlink
released head b m =
    let m₁ = update m b (record (m b) { refcnt = ((m b).refcnt + 2 ^ 32 - 1) % 2 ^ 32 }) in
    if (m₁ b).refcnt == 0 then insert_front head b (unlink b m₁) else m₁

unfoldable pub brelse : (bcache b : ℕ) → Bcache → Run Bcache
brelse bcache b w = do
  (held, k) ← holdingsleep (lock_of b) w.kernel
  if not held then stop panic_brelse else do
    k ← releasesleep (lock_of b) k
    w ← lock_cache (with_kernel k w)
    unlock_cache (with_bufs (released (head_of bcache) b w.bufs) w)
