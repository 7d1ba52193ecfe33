-- ===== src/Fs/Inodes.antt =====
-- The inodes of fs.c: on disk, and in the cache of inodes.
use soproyecto.Common.{
  ℕ, zero, suc, ◌+◌, ◌-◌, ◌*◌, ◌/◌, ◌%◌, ◌^◌, Bool, not, ◌&&◌, ◌||◌, Option, none, some, List, [],
  ◌∷◌, ◌++◌, Run, ok, stop, ◌>>=◌, panic_ialloc, panic_iget, panic_ilock, panic_iunlock,
  panic_ilock_type, ◌==◌, ltb, if◌then◌else◌,
}
use soproyecto.Machine.{update, int_neg}
use soproyecto.Proc.Defs.{Kernel, lock, unlock}
use soproyecto.Sleeplock.{acquiresleep, releasesleep, holdingsleep}
use soproyecto.Paging.Copy.{write_bytes}
use soproyecto.Fs.{Superblock, Inode, Fs, with_kernel, block_of, write_block}

abbrev pub ninode : ℕ
ninode = 50

-- The address of icache.lock.
abbrev pub icache_lock : ℕ
icache_lock = 73

-- IPB and IBLOCK; a struct dinode has 64 bytes.
abbrev pub iblock : (inum : ℕ) → Superblock → ℕ
iblock inum sb = inum / 8 + sb.inodestart

-- `(struct dinode*)bp->data + inum%IPB`
abbrev pub dinode_at : (inum : ℕ) → ℕ
dinode_at inum = inum % 8 * 64

-- The bytes of a short, of an int and of `n` ints, the lowest first.
abbrev pub short_bytes : ℕ → List ℕ
short_bytes v = (v % 256) ∷ (v / 256 % 256) ∷ []

abbrev pub int_bytes : ℕ → List ℕ
int_bytes v = (v % 256) ∷ (v / 256 % 256) ∷ (v / 65536 % 256) ∷ (v / 16777216 % 256) ∷ []

unfoldable pub ints_bytes : (n i : ℕ) → (ℕ → ℕ) → List ℕ
ints_bytes zero i f = []
ints_bytes (suc n) i f = int_bytes (f i) ++ ints_bytes n (i + 1) f

abbrev pub short_at : (ℕ → ℕ) → ℕ → ℕ
short_at m a = m a + 256 * m (a + 1)

abbrev pub int_at : (ℕ → ℕ) → ℕ → ℕ
int_at m a = m a + 256 * m (a + 1) + 65536 * m (a + 2) + 16777216 * m (a + 3)

-- struct dinode, of an inode
unfoldable pub dinode_bytes : Inode → List ℕ
dinode_bytes ip =
    short_bytes ip.type
    ++ (short_bytes ip.major
        ++ (short_bytes ip.minor
            ++ (short_bytes ip.nlink ++ (int_bytes ip.size ++ ints_bytes 13 0 ip.addrs))))

-- The fields that ilock reads, from the struct dinode at `a`.
unfoldable pub read_dinode : (ℕ → ℕ) → (a : ℕ) → Inode → Inode
read_dinode m a ip = record ip {
  type = short_at m a;
  major = short_at m (a + 2);
  minor = short_at m (a + 4);
  nlink = short_at m (a + 6);
  size = int_at m (a + 8);
  addrs = λ i. if ltb i 13 then int_at m (a + 12 + 4 * i) else ip.addrs i;
}

abbrev pub with_inode : (ip : ℕ) → Inode → Fs → Fs
with_inode ip n w = record w { inodes = update w.inodes ip n }

-- The loop of iget over `n` entries from `i` on: an entry that holds the inode, or else the first
-- entry without a reference, which is `empty` if one has been passed.
pub data Entry : Type 0 where
  cached : ℕ → Entry
  unused : ℕ → Entry
  full : Entry

abbrev pub remember : Option ℕ → (i : ℕ) → Inode → Option ℕ
remember none i n = if n.ref == 0 then some i else none
remember (some e) i n = some e

-- `ip->ref > 0 && ip->dev == dev && ip->inum == inum`
abbrev pub holds : (dev inum : ℕ) → Inode → Bool
holds dev inum n = not ((n.ref == 0) || int_neg n.ref) && ((n.dev == dev) && (n.inum == inum))

unfoldable pub find_entry : (n i dev inum : ℕ) (empty : Option ℕ) → (ℕ → Inode) → Entry
find_entry zero i dev inum none inodes = full
find_entry zero i dev inum (some e) inodes = unused e
find_entry (suc n) i dev inum empty inodes =
    let rest = find_entry n (i + 1) dev inum (remember empty i (inodes i)) inodes in
    if holds dev inum (inodes i) then cached i else rest

unfoldable pub lock_icache : Fs → Run Fs
lock_icache w = do k ← lock icache_lock w.kernel; ok (with_kernel k w)

unfoldable pub unlock_icache : Fs → Run Fs
unlock_icache w = do k ← unlock icache_lock w.kernel; ok (with_kernel k w)

-- `ip->ref++`
abbrev pub referenced : Inode → Inode
referenced n = record n { ref = (n.ref + 1) % 2 ^ 32 }

-- The rest of iget after its loop.
unfoldable pub take_entry : (dev inum : ℕ) → Entry → Fs → Run (ℕ × Fs)
take_entry dev inum (cached i) w = do
  w ← unlock_icache (with_inode i (referenced (w.inodes i)) w)
  ok (i, w)
take_entry dev inum (unused i) w = do
  w ←
      unlock_icache
        (with_inode i (record (w.inodes i) { dev = dev; inum = inum; ref = 1; valid = 0 }) w)
  ok (i, w)
take_entry dev inum full w = stop panic_iget

unfoldable pub iget : (dev inum : ℕ) → Fs → Run (ℕ × Fs)
unfolding take_entry
iget dev inum w = do
  w ← lock_icache w
  take_entry dev inum (find_entry ninode 0 dev inum none w.inodes) w

unfoldable pub idup : (ip : ℕ) → Fs → Run (ℕ × Fs)
idup ip w = do
  w ← lock_icache w
  w ← unlock_icache (with_inode ip (referenced (w.inodes ip)) w)
  ok (ip, w)

-- `ip->ref < 1`, of an int
abbrev pub unreferenced : Inode → Bool
unreferenced n = (n.ref == 0) || int_neg n.ref

-- The lock of an inode; `icache` is the address of the first struct inode, of 144 bytes.
abbrev pub lock_of : (icache ip : ℕ) → ℕ
lock_of icache ip = icache + 144 * ip + 12

module _ (sb : Superblock) where
  unfoldable pub iupdate : (ip : ℕ) → Fs → Run Fs
  iupdate ip w =
      let n = w.inodes ip in
      let b = iblock n.inum sb in
      write_block b (write_bytes (dinode_at n.inum) (dinode_bytes n) (block_of b w)) w

  -- `memset(dip, 0, sizeof(*dip)); dip->type = type;`
  abbrev pub fresh_dinode : (type : ℕ) → Inode → Inode
  fresh_dinode type n = record n {
    type = type;
    major = 0;
    minor = 0;
    nlink = 0;
    size = 0;
    addrs = λ _. 0;
  }

  -- The loop of ialloc with `n` rounds left from `inum` on.
  unfoldable pub ialloc_from : (n inum dev type : ℕ) → Fs → Run (ℕ × Fs)
  ialloc_from zero inum dev type w = stop panic_ialloc
  ialloc_from (suc n) inum dev type w =
      let b = iblock inum sb in
      let a = dinode_at inum in
      let rest = ialloc_from n (inum + 1) dev type w in
      let taken =
        (write_block b
            (write_bytes a (dinode_bytes (fresh_dinode type (w.inodes 0))) (block_of b w)) w
          >>= iget dev inum) in
      if short_at (block_of b w) a == 0 then taken else rest

  unfoldable pub ialloc : (dev type : ℕ) → Fs → Run (ℕ × Fs)
  ialloc dev type w = ialloc_from (sb.ninodes - 1) 1 dev type w

  -- The part of ilock that reads the inode from the disk.
  unfoldable pub load_inode : (ip : ℕ) → Fs → Run Fs
  load_inode ip w =
      let n = w.inodes ip in
      let n' = read_dinode (block_of (iblock n.inum sb) w) (dinode_at n.inum) n in
      if n'.type == 0 then stop panic_ilock_type else ok (with_inode ip (record n' { valid = 1 }) w)

  unfoldable pub ilock : (icache : ℕ) (swtch : Kernel → Kernel) (fuel ip : ℕ) → Fs → Run Fs
  ilock icache swtch fuel ip w = if unreferenced (w.inodes ip) then stop panic_ilock else do
    k ← acquiresleep swtch fuel (lock_of icache ip) w.kernel
    let w = with_kernel k w
    if (w.inodes ip).valid == 0 then load_inode ip w else ok w

-- The conditions are tested in the order of the code.
unfoldable pub iunlock : (icache ip : ℕ) → Fs → Run Fs
iunlock icache ip w = do
  (held, k) ← holdingsleep (lock_of icache ip) w.kernel
  if not held || unreferenced (w.inodes ip)
      then stop panic_iunlock
      else do k ← releasesleep (lock_of icache ip) k; ok (with_kernel k w)
