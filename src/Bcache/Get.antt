-- ===== src/Bcache/Get.antt =====
-- bget.
use soproyecto.Common.{
  ℕ, ◌<◌, ◌≡◌, refl, ◌∙◌, true, false, List, length, Run, ok, stop, panic_bget, ◌>>=◌, ◌==◌, arith,
}
use soproyecto.Machine.Locks.{MayLock}
use soproyecto.Proc.Defs.{Kernel}
use soproyecto.Proc.Enter.{entered, left, lock-entered, unlock-entered}
use soproyecto.Sleeplock.{acquiresleep}
use soproyecto.Bcache.{
  Buf, Bcache, bcache_lock, head_of, lock_of, caches, is_unused, scan_next, lock_cache,
  unlock_cache, one_more, assigned, hold, recycle, hit_or_recycle, bget,
}
use soproyecto.Bcache.Ring.{IsRing}
use soproyecto.Bcache.Lookup.{NonePass, missed, found, next_Scanned, prev_Scanned}
use soproyecto.Bcache.Unique.{Origin, hit, recycled, IsUnique, Origin-IsRing, Origin-IsUnique}

module _ (bcache : ℕ) (swtch : Kernel → Kernel) (fuel : ℕ) (w : Bcache)
    (may : MayLock bcache_lock w.kernel.machine) where
  abbrev inside : Kernel
  inside = record w.kernel { machine = entered bcache_lock w.kernel.machine }

  -- bget once it has chosen `b`: it waits for the lock of the buffer, out of the lock of the cache.
  abbrev pub locking : ℕ → (ℕ → Buf) → Run (ℕ × Bcache)
  locking b m = do
    k ← acquiresleep swtch fuel (lock_of b) (record w.kernel { machine = left w.kernel.machine })
    ok (b, record { kernel = k; bufs = m })

  hold-locking :
      (b : ℕ) (m : ℕ → Buf)
      → hold bcache swtch fuel b (record { kernel = inside; bufs = m }) ≡ locking b m
  unfolding hold unlock_cache
  hold-locking b m = rw (unlock-entered bcache_lock w.kernel.machine inside may refl) refl

  bget-scanned :
      (rounds dev blockno : ℕ)
      → bget bcache swtch fuel rounds dev blockno w
        ≡ hit_or_recycle bcache swtch fuel rounds dev blockno
            (scan_next rounds
              (caches dev blockno)
              (head_of bcache)
              (w.bufs (head_of bcache)).next
              w.bufs)
            (record { kernel = inside; bufs = w.bufs })
  unfolding bget lock_cache
  bget-scanned rounds dev blockno = rw (lock-entered bcache_lock w.kernel may) refl

  -- bget gives a buffer, or panics when none can be used.
  pub data Given (dev blockno : ℕ) (xs : List ℕ) (r : Run (ℕ × Bcache)) : Type 0 where
    given :
        (b : ℕ) (m : ℕ → Buf)
        → Origin dev blockno w.bufs m xs b
        → IsRing m (head_of bcache) xs
        → IsUnique m xs
        → r ≡ locking b m
        → Given dev blockno xs r
    refused :
        NonePass (caches dev blockno) w.bufs xs
        → NonePass is_unused w.bufs xs
        → r ≡ stop panic_bget
        → Given dev blockno xs r

  -- bget, when the lock of the cache is free and no block is in two buffers of the ring: a buffer
  -- that caches the block is given, with one reference more; else the buffer that is unused for
  -- the longest, now with the block; else it panics, all buffers being in use. The ring stays, and
  -- no block comes to be in two buffers. The lock of the buffer is waited for at the end.
  pub bget-Given :
      (rounds dev blockno : ℕ) (xs : List ℕ)
      → IsRing w.bufs (head_of bcache) xs
      → IsUnique w.bufs xs
      → length xs < rounds
      → Given dev blockno xs (bget bcache swtch fuel rounds dev blockno w)
  unfolding hit_or_recycle recycle
  bget-Given rounds dev blockno xs ring unique enough =
      let head = head_of bcache in
      let choose =
        λ (b : ℕ) (m : ℕ → Buf) (o : Origin dev blockno w.bufs m xs b)
            (e : bget bcache swtch fuel rounds dev blockno w ≡ locking b m).
          given b m o (Origin-IsRing dev blockno w.bufs m head xs b o ring)
            (Origin-IsUnique dev blockno w.bufs m xs b o unique) e in
      elim (next_Scanned (caches dev blockno) w.bufs head rounds head xs ring.linked ring.apart
        enough) [
          | found b f ne e ↦
              let other : (b == head) ≡ false = ground (arith, ne) in
              choose b (one_more b w.bufs) (hit f refl) (
                bget-scanned rounds dev blockno
                ∙ rw e (rw other (hold-locking b (one_more b w.bufs))))
          | missed off e ↦
              let here : (head == head) ≡ true = ground arith in
              elim (prev_Scanned is_unused w.bufs head rounds xs head ring.linked ring.apart
                enough) [
                  | found b f ne e' ↦
                      let other : (b == head) ≡ false = ground (arith, ne) in
                      choose b (assigned dev blockno b w.bufs) (recycled off f refl) (
                        bget-scanned rounds dev blockno
                        ∙ rw e (
                            rw here
                              (rw e' (rw other (hold-locking b (assigned dev blockno b w.bufs))))))
                  | missed none' e' ↦
                      refused off none'
                        (bget-scanned rounds dev blockno ∙ rw e (rw here (rw e' (rw here refl))))
                ]
        ]
