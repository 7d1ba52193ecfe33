-- ===== src/Fs.antt =====
-- fs.c: its state, and the allocator of disk blocks. A block is an array of bytes, in the store of
-- the log: bread gives the buffer of a block, brelse lets it go, and the locks of buffers are left
-- out here. There is one disk, so blocks go by their numbers. `sb` is the super block, as iinit has
-- read it.
pub mod Inodes
pub mod Search
pub mod References
pub mod Writes
pub mod Saved
pub mod Allocation
pub mod Bitmap
pub mod Content
pub mod Reading
pub mod Rounds
pub mod Writing
pub mod Directory
pub mod Path
use soproyecto.Common.{
  ℕ, zero, suc, ◌+◌, ◌-◌, ◌*◌, ◌/◌, ◌%◌, ◌^◌, Bool, true, false, not, ◌&&◌, Option, none, some,
  List, [], ◌∷◌, Run, ok, stop, asleep, ◌>>=◌, panic_balloc, panic_bfree, ◌==◌, ltb, leb,
  if◌then◌else◌,
}
use soproyecto.Machine.{update}
use soproyecto.Proc.Defs.{Kernel, Log, Store}
use soproyecto.Log.{log_write}

-- struct superblock
pub record Superblock : Type 0 where
  pub size : ℕ
  pub nblocks : ℕ
  pub ninodes : ℕ
  pub nlog : ℕ
  pub logstart : ℕ
  pub inodestart : ℕ
  pub bmapstart : ℕ

-- struct inode, with its lock at the address `lock_of`.
pub record Inode : Type 0 where
  pub dev : ℕ
  pub inum : ℕ
  pub ref : ℕ
  pub valid : ℕ
  pub type : ℕ
  pub major : ℕ
  pub minor : ℕ
  pub nlink : ℕ
  pub size : ℕ
  pub addrs : ℕ → ℕ

-- `inodes` is icache.inode; an `ip` is an index into it.
pub record Fs : Type 0 where
  pub kernel : Kernel
  pub inodes : ℕ → Inode

abbrev pub bsize : ℕ
bsize = 512

-- BPB
abbrev pub bpb : ℕ
bpb = 4096

abbrev pub bblock : (b : ℕ) → Superblock → ℕ
bblock b sb = b / bpb + sb.bmapstart

abbrev pub with_kernel : Kernel → Fs → Fs
with_kernel k w = record w { kernel = k }

-- The data of the buffer of a block.
abbrev pub block_of : (b : ℕ) → Fs → ℕ → ℕ
block_of b w = w.kernel.log.store.cache b

abbrev pub with_block : (b : ℕ) → (ℕ → ℕ) → Kernel → Kernel
with_block b bytes k = record k {
  log = record k.log { store = record k.log.store { cache = update k.log.store.cache b bytes } };
}

-- The block is changed, and then logged.
unfoldable pub write_block : (b : ℕ) → (ℕ → ℕ) → Fs → Run Fs
write_block b bytes w = do k ← log_write b (with_block b bytes w.kernel); ok (with_kernel k w)

unfoldable pub bzero : (b : ℕ) → Fs → Run Fs
bzero b w = write_block b (λ i. if ltb i bsize then 0 else block_of b w i) w

-- `1 << (bi % 8)`
abbrev pub mask : ℕ → ℕ
mask bi = 2 ^ (bi % 8)

-- `data[bi/8] & m`
abbrev pub is_used : (ℕ → ℕ) → (bi : ℕ) → Bool
is_used bytes bi = bytes (bi / 8) / mask bi % 2 == 1

-- `data[bi/8] |= m`, of a bit that is 0, and `data[bi/8] &= ~m`, of one that is 1
abbrev pub mark : (bi : ℕ) → (ℕ → ℕ) → ℕ → ℕ
mark bi bytes = update bytes (bi / 8) (bytes (bi / 8) + mask bi)

abbrev pub unmark : (bi : ℕ) → (ℕ → ℕ) → ℕ → ℕ
unmark bi bytes = update bytes (bi / 8) (bytes (bi / 8) - mask bi)

-- The inner loop of balloc, with `n` bits left from `bi` on: the first free one.
unfoldable pub free_bit : (n b size bi : ℕ) → (ℕ → ℕ) → Option ℕ
free_bit zero b size bi bytes = none
free_bit (suc n) b size bi bytes =
    let rest = free_bit n b size (bi + 1) bytes in
    if not (ltb (b + bi) size) then none else if is_used bytes bi then rest else some bi

module _ (sb : Superblock) where
  -- What follows the inner loop.
  abbrev pub take_bit : (b : ℕ) → Run (ℕ × Fs) → Fs → Option ℕ → Run (ℕ × Fs)
  take_bit b rest w none = rest
  take_bit b rest w (some bi) = do
    w ← write_block (bblock b sb) (mark bi (block_of (bblock b sb) w)) w
    w ← bzero (b + bi) w
    ok (b + bi, w)

  -- The outer loop of balloc, with fuel for the blocks of the free map. A disk has fewer than
  -- 2 ^ 31 - 4096 blocks, so that `b` does not overflow.
  unfoldable pub balloc_from : (rounds b : ℕ) → Fs → Run (ℕ × Fs)
  balloc_from zero b w = asleep
  balloc_from (suc n) b w =
      let rest = balloc_from n (b + bpb) w in
      let found = free_bit bpb b sb.size 0 (block_of (bblock b sb) w) in
      if ltb b sb.size then take_bit b rest w found else stop panic_balloc

  unfoldable pub balloc : (rounds : ℕ) → Fs → Run (ℕ × Fs)
  balloc rounds w = balloc_from rounds 0 w

  unfoldable pub bfree : (b : ℕ) → Fs → Run Fs
  bfree b w =
      let bi = b % bpb in
      let bytes = block_of (bblock b sb) w in
      if is_used bytes bi then write_block (bblock b sb) (unmark bi bytes) w else stop panic_bfree
