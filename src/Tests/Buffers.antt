-- ===== src/Tests/Buffers.antt =====
-- The cache of blocks at a ring of two buffers.
use soproyecto.Common.{ℕ, ◌≡◌, ◌≢◌, refl, [], ◌∷◌, ok, arith, ◌==◌, if◌then◌else◌, length}
use soproyecto.Tests.Demo.{shell, slot, shell-MayLock, gives_back}
use soproyecto.Proc.Defs.{running}
use soproyecto.Proc.Sched.Section.{MayUse}
use soproyecto.Sleeplock.{free_lock}
use soproyecto.Bcache.{Buf, Bcache, head_of, brelse, bget, binit}
use soproyecto.Bcache.Ring.{IsRing}
use soproyecto.Bcache.Release.{let_go, SameContents, brelse_lem}
use soproyecto.Bcache.Unique.{IsUnique}
use soproyecto.Bcache.Get.{Given, bget-Given}
use soproyecto.Bcache.Init.{with_added, binit-IsRing}

-- The cache at 1000, with its head at 19120. The buffer at 1000 was used last and holds block 7;
-- the one at 1604 is in use for block 9.
abbrev first_buf : Buf
first_buf = record { flags = 2; dev = 1; blockno = 7; refcnt = 0; prev = 19120; next = 1604 }

abbrev second_buf : Buf
second_buf = record { flags = 2; dev = 1; blockno = 9; refcnt = 1; prev = 1000; next = 19120 }

abbrev head_buf : Buf
head_buf = record { flags = 0; dev = 0; blockno = 0; refcnt = 0; prev = 1604; next = 1000 }

abbrev two_bufs : Bcache
two_bufs = record {
  kernel = record shell {
    sleeplocks = λ a. if a == 1616 then record { locked = 1; pid = 2 } else free_lock;
  };
  bufs = λ a. if a == 1000 then first_buf else if a == 1604 then second_buf else head_buf;
}

two_bufs-IsRing : IsRing two_bufs.bufs 19120 (1000 ∷ 1604 ∷ [])
two_bufs-IsRing = record {
  linked = (refl, refl, (refl, refl, (refl, refl)));
  distinct = omega arith;
  apart = omega arith;
}

two_bufs-IsUnique : IsUnique two_bufs.bufs (1000 ∷ 1604 ∷ [])
two_bufs-IsUnique a b i j dev block real = ground (arith, i, j, block)

bget-Given_example :
    Given 1000
      (gives_back 1)
      1
      two_bufs
      (shell-MayLock 72 2)
      1
      8
      (1000 ∷ 1604 ∷ [])
      (bget 1000 (gives_back 1) 1 3 1 8 two_bufs)
bget-Given_example =
    bget-Given 1000 (gives_back 1) 1 two_bufs (shell-MayLock 72 2) 3 1 8 (1000 ∷ 1604 ∷ [])
      two_bufs-IsRing two_bufs-IsUnique (omega arith)

buffer-MayUse : MayUse 1620 shell.machine
buffer-MayUse = record {
  own = shell-MayLock 1620 2;
  table = refl;
  apart = omega arith;
  room = omega arith;
}

brelse_lem_example :
    (m : ℕ → Buf) × (brelse 1000 1604 two_bufs
      ≡ ok (record { kernel = let_go 1616 two_bufs.kernel; bufs = m }))
    × IsRing m 19120 (1604 ∷ 1000 ∷ [])
    × SameContents (record second_buf { refcnt = 0 }) (m 1604)
    × ((c : ℕ) → 1604 ≢ c → SameContents (two_bufs.bufs c) (m c))
brelse_lem_example =
    brelse_lem 1000 1604 two_bufs {r = slot running 2 1 0 0} (1000 ∷ []) [] buffer-MayUse
      (shell-MayLock 72 2) (record { runs = refl; locked = omega arith; mine = refl })
      two_bufs-IsRing (omega arith) (omega arith)

binit-IsRing_example :
    IsRing (binit 1000 two_bufs).bufs (head_of 1000) (with_added 30 1000 [])
    × (length (with_added 30 1000 []) ≡ 30)
binit-IsRing_example = binit-IsRing 1000 two_bufs
