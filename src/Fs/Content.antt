-- ===== src/Fs/Content.antt =====
-- The content of inodes in fs.c: bmap, itrunc, readi, writei, and iput, which frees it.
use soproyecto.Common.{
  ℕ, zero, suc, ◌+◌, ◌-◌, ◌*◌, ◌/◌, ◌%◌, ◌^◌, Bool, not, ◌&&◌, ◌||◌, Option, none, some, List, [],
  ◌∷◌, ◌++◌, length, take, drop, Run, ok, stop, asleep, ◌>>=◌, panic_bmap, ◌==◌, ltb, leb,
  if◌then◌else◌,
}
use soproyecto.Machine.{update}
use soproyecto.Proc.Defs.{Kernel}
use soproyecto.Sleeplock.{acquiresleep, releasesleep}
use soproyecto.Paging.Copy.{write_bytes}
use soproyecto.Fs.{Superblock, Fs, bsize, with_kernel, block_of, write_block, balloc, bfree}
use soproyecto.Fs.Inodes.{
  int_at, int_bytes, with_inode, lock_icache, unlock_icache, iupdate, iunlock, lock_of,
}

abbrev pub ndirect : ℕ
ndirect = 12

abbrev pub nindirect : ℕ
nindirect = 128

abbrev pub maxfile : ℕ
maxfile = ndirect + nindirect

-- T_DIR and T_DEV
abbrev pub t_dir : ℕ
t_dir = 1

abbrev pub t_dev : ℕ
t_dev = 3

-- `ip->addrs[i] = v`
abbrev pub set_addr : (ip i v : ℕ) → Fs → Fs
set_addr ip i v w =
    with_inode ip (record (w.inodes ip) { addrs = update (w.inodes ip).addrs i v }) w

-- devsw: what the device of a major number reads and writes, if it does.
pub record Devices : Type 0 where
  pub read : ℕ → Option (ℕ → Kernel → Run (Option (List ℕ) × Kernel))
  pub write : ℕ → Option (List ℕ → Kernel → Run (Option ℕ × Kernel))

-- The bytes `n` from `a` on.
unfoldable pub bytes_at : (ℕ → ℕ) → (a n : ℕ) → List ℕ
bytes_at m a zero = []
bytes_at m a (suc n) = m a ∷ bytes_at m (a + 1) n

-- `ip->major < 0 || ip->major >= NDEV`, of a short
abbrev pub no_device : ℕ → Bool
no_device major = leb (2 ^ 15) major || leb 10 major

module _ (sb : Superblock) (maps : ℕ) where
  -- The block number in ip->addrs[i], which is allocated if it is 0. `maps` is fuel for balloc.
  unfoldable pub direct : (ip i : ℕ) → Fs → Run (ℕ × Fs)
  direct ip i w =
      let addr = (w.inodes ip).addrs i in
      let fresh = (do (addr, w) ← balloc sb maps w; ok (addr, set_addr ip i addr w)) in
      if addr == 0 then fresh else ok (addr, w)

  -- The same for a[bn], in the indirect block at `table`.
  unfoldable pub indirect : (table bn : ℕ) → Fs → Run (ℕ × Fs)
  indirect table bn w =
      let addr = int_at (block_of table w) (4 * bn) in
      let fresh = (do
        (addr, w) ← balloc sb maps w
        w ← write_block table (write_bytes (4 * bn) (int_bytes addr) (block_of table w)) w
        ok (addr, w)) in
      if addr == 0 then fresh else ok (addr, w)

  unfoldable pub bmap : (ip bn : ℕ) → Fs → Run (ℕ × Fs)
  bmap ip bn w =
      if ltb bn ndirect
      then direct ip bn w
      else if ltb (bn - ndirect) nindirect
      then (do (table, w) ← direct ip ndirect w; indirect table (bn - ndirect) w)
      else stop panic_bmap

  -- The first loop of itrunc, with `n` rounds left from `i` on.
  unfoldable pub free_direct : (n i ip : ℕ) → Fs → Run Fs
  free_direct zero i ip w = ok w
  free_direct (suc n) i ip w = do
    let addr = (w.inodes ip).addrs i
    w ← if addr == 0 then ok w else do w ← bfree sb addr w; ok (set_addr ip i 0 w)
    free_direct n (i + 1) ip w

  -- The second one, over the indirect block at `table`.
  unfoldable pub free_indirect : (n j table : ℕ) → Fs → Run Fs
  free_indirect zero j table w = ok w
  free_indirect (suc n) j table w = do
    let addr = int_at (block_of table w) (4 * j)
    w ← if addr == 0 then ok w else bfree sb addr w
    free_indirect n (j + 1) table w

  unfoldable pub itrunc : (ip : ℕ) → Fs → Run Fs
  itrunc ip w = do
    w ← free_direct ndirect 0 ip w
    let table = (w.inodes ip).addrs ndirect
    w ← if table == 0 then ok w else do
      w ← free_indirect nindirect 0 table w
      w ← bfree sb table w
      ok (set_addr ip ndirect 0 w)
    iupdate sb ip (with_inode ip (record (w.inodes ip) { size = 0 }) w)

  -- The loop of readi over the `left` bytes from `off` on, with fuel.
  unfoldable pub read_blocks : (rounds ip off left : ℕ) → Fs → Run (List ℕ × Fs)
  read_blocks zero ip off left w = asleep
  read_blocks (suc n) ip off left w =
      let m = if ltb left (bsize - off % bsize) then left else bsize - off % bsize in
      let round = (do
        (addr, w) ← bmap ip (off / bsize) w
        let bytes = bytes_at (block_of addr w) (off % bsize) m
        (rest, w) ← read_blocks n ip (off + m) (left - m) w
        ok (bytes ++ rest, w)) in
      if left == 0 then ok ([], w) else round

  -- What a device reads.
  abbrev pub device_read :
      Option (ℕ → Kernel → Run (Option (List ℕ) × Kernel))
      → (n : ℕ) → Fs
      → Run (Option (List ℕ) × Fs)
  device_read none n w = ok (none, w)
  device_read (some f) n w = do (bs, k) ← f n w.kernel; ok (bs, with_kernel k w)

  -- The bytes that are read, or `none` for -1.
  unfoldable pub readi : Devices → (rounds ip off n : ℕ) → Fs → Run (Option (List ℕ) × Fs)
  readi devsw rounds ip off n w =
      let node = w.inodes ip in
      let n' = if ltb node.size (off + n) then node.size - off else n in
      let file = (do (bs, w) ← read_blocks rounds ip off n' w; ok (some bs, w)) in
      if node.type == t_dev
      then (if no_device node.major then ok (none, w) else device_read (devsw.read node.major) n w)
      else if ltb node.size off || ltb ((off + n) % 2 ^ 32) off
      then ok (none, w)
      else file

  -- The loop of writei, with fuel: the offset after it.
  unfoldable pub write_blocks : (rounds ip off : ℕ) → List ℕ → Fs → Run (ℕ × Fs)
  write_blocks zero ip off src w = asleep
  write_blocks (suc n) ip off src w =
      let m = if ltb (length src) (bsize - off % bsize) then length src else bsize - off % bsize in
      let round = (do
        (addr, w) ← bmap ip (off / bsize) w
        w ← write_block addr (write_bytes (off % bsize) (take m src) (block_of addr w)) w
        write_blocks n ip (off + m) (drop m src) w) in
      if length src == 0 then ok (off, w) else round

  abbrev pub device_write :
      Option (List ℕ → Kernel → Run (Option ℕ × Kernel)) → List ℕ → Fs → Run (Option ℕ × Fs)
  device_write none src w = ok (none, w)
  device_write (some f) src w = do (r, k) ← f src w.kernel; ok (r, with_kernel k w)

  -- The end of writei: a file that has grown gets its size.
  unfoldable pub grow : (ip off n : ℕ) → Fs → Run Fs
  grow ip off n w =
      if ltb 0 n && ltb (w.inodes ip).size off
      then iupdate sb ip (with_inode ip (record (w.inodes ip) { size = off }) w)
      else ok w

  -- The number of bytes written, or `none` for -1.
  unfoldable pub writei : Devices → (rounds ip off : ℕ) → List ℕ → Fs → Run (Option ℕ × Fs)
  writei devsw rounds ip off src w =
      let node = w.inodes ip in
      let file = (do
        (off, w) ← write_blocks rounds ip off src w
        w ← grow ip off (length src) w
        ok (some (length src), w)) in
      if node.type == t_dev
      then (if no_device node.major
          then ok (none, w)
          else device_write (devsw.write node.major) src w)
      else if ltb node.size off || ltb ((off + length src) % 2 ^ 32) off
      then ok (none, w)
      else if ltb (maxfile * bsize) (off + length src)
      then ok (none, w)
      else file

  -- The inode is freed on disk.
  unfoldable pub discard : (ip : ℕ) → Fs → Run Fs
  discard ip w = do
    w ← itrunc ip w
    w ← iupdate sb ip (with_inode ip (record (w.inodes ip) { type = 0 }) w)
    ok (with_inode ip (record (w.inodes ip) { valid = 0 }) w)

  -- The first half of iput, under the lock of the inode.
  unfoldable pub discard_last : (ip : ℕ) → Fs → Run Fs
  discard_last ip w =
      if (w.inodes ip).valid == 0 then ok w else if not ((w.inodes ip).nlink == 0) then ok w else do
        w ← lock_icache w
        let r = (w.inodes ip).ref
        w ← unlock_icache w
        if r == 1 then discard ip w else ok w

  unfoldable pub iput : (icache : ℕ) (swtch : Kernel → Kernel) (fuel ip : ℕ) → Fs → Run Fs
  iput icache swtch fuel ip w = do
    k ← acquiresleep swtch fuel (lock_of icache ip) w.kernel
    w ← discard_last ip (with_kernel k w)
    k ← releasesleep (lock_of icache ip) w.kernel
    w ← lock_icache (with_kernel k w)
    let n = w.inodes ip
    unlock_icache (with_inode ip (record n { ref = (n.ref + 2 ^ 32 - 1) % 2 ^ 32 }) w)

  unfoldable pub iunlockput : (icache : ℕ) (swtch : Kernel → Kernel) (fuel ip : ℕ) → Fs → Run Fs
  iunlockput icache swtch fuel ip w = do w ← iunlock icache ip w; iput icache swtch fuel ip w

-- stati: dev, ino, type, nlink and size.
unfoldable pub stati : (ip : ℕ) → Fs → List ℕ
stati ip w = let n = w.inodes ip in n.dev ∷ n.inum ∷ n.type ∷ n.nlink ∷ n.size ∷ []
