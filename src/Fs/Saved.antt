-- ===== src/Fs/Saved.antt =====
-- iupdate and the part of ilock that reads an inode from the disk.
use soproyecto.Common.{
  ℕ, zero, suc, ◌+◌, ◌*◌, ◌/◌, ◌%◌, ◌^◌, ◌<◌, ◌≡◌, ◌≢◌, refl, sym, ap, ◌∙◌, subst, true, false,
  some, List, [], ◌∷◌, ◌++◌, length, get_elem?, ok, ◌>>=◌, ◌==◌, ltb, arith,
}
use soproyecto.Machine.{update}
use soproyecto.Log.{logged}
use soproyecto.Paging.Copy.{write_bytes}
use soproyecto.Fs.{Superblock, Inode, Fs, with_kernel, block_of}
use soproyecto.Fs.Inodes.{
  iblock, dinode_at, short_bytes, int_bytes, ints_bytes, short_at, int_at, dinode_bytes,
  read_dinode, with_inode, iupdate, load_inode,
}
use soproyecto.Fs.Writes.{CanLog, wrote, write_block_lem}

write_bytes_below : (bs : List ℕ) (a x : ℕ) (m : ℕ → ℕ) → x < a → write_bytes a bs m x ≡ m x
unfolding write_bytes
write_bytes_below [] a x m h = refl
write_bytes_below (b ∷ bs) a x m h =
    write_bytes_below bs (a + 1) x (update m a b) (omega (arith, h)) ∙ ground (arith, h)

write_bytes_at :
    (bs : List ℕ) (a i : ℕ) {v : ℕ} (m : ℕ → ℕ)
    → get_elem? bs i ≡ some v
    → write_bytes a bs m (a + i) ≡ v
unfolding write_bytes
write_bytes_at [] a i m h = ground arith
write_bytes_at (b ∷ bs) a zero m h =
    let here : a + 0 ≡ a = omega arith in
    ap (write_bytes (a + 1) bs (update m a b)) here
    ∙ write_bytes_below bs (a + 1) a (update m a b) (omega arith)
    ∙ ground (arith, h)
write_bytes_at (b ∷ bs) a (suc i) m h =
    let there : a + suc i ≡ a + 1 + i = omega arith in
    ap (write_bytes (a + 1) bs (update m a b)) there ∙ write_bytes_at bs (a + 1) i (update m a b) h

pub write_bytes-append :
    (xs ys : List ℕ) (a : ℕ) (m : ℕ → ℕ)
    → write_bytes a (xs ++ ys) m ≡ write_bytes (a + length xs) ys (write_bytes a xs m)
unfolding write_bytes
write_bytes-append [] ys a m = ap (λ x. write_bytes x ys m) (omega arith)
write_bytes-append (b ∷ xs) ys a m =
    write_bytes-append xs ys (a + 1) (update m a b)
    ∙ ap (λ x. write_bytes x ys (write_bytes (a + 1) xs (update m a b))) (omega arith)

-- A short and an int are read back from their bytes.
short_at-write_bytes :
    (bs : List ℕ) (a i v : ℕ) (m : ℕ → ℕ)
    → get_elem? bs i ≡ some (v % 256)
    → get_elem? bs (i + 1) ≡ some (v / 256 % 256)
    → v < 2 ^ 16
    → short_at (write_bytes a bs m) (a + i) ≡ v
short_at-write_bytes bs a i v m low high small =
    let next : a + i + 1 ≡ a + (i + 1) = omega arith in
    rw next
      (rw (write_bytes_at bs a i m low, write_bytes_at bs a (i + 1) m high) (omega (arith, small)))

int_at-write_bytes :
    (bs : List ℕ) (a i v : ℕ) (m : ℕ → ℕ)
    → get_elem? bs i ≡ some (v % 256)
    → get_elem? bs (i + 1) ≡ some (v / 256 % 256)
    → get_elem? bs (i + 2) ≡ some (v / 65536 % 256)
    → get_elem? bs (i + 3) ≡ some (v / 16777216 % 256)
    → v < 2 ^ 32
    → int_at (write_bytes a bs m) (a + i) ≡ v
int_at-write_bytes bs a i v m b₀ b₁ b₂ b₃ small =
    let n₁ : a + i + 1 ≡ a + (i + 1) = omega arith in
    let n₂ : a + i + 2 ≡ a + (i + 2) = omega arith in
    let n₃ : a + i + 3 ≡ a + (i + 3) = omega arith in
    rw (n₁, n₂, n₃)
      (rw
        (
          write_bytes_at bs a i m b₀,
          write_bytes_at bs a (i + 1) m b₁,
          write_bytes_at bs a (i + 2) m b₂,
          write_bytes_at bs a (i + 3) m b₃,
        )
        (omega (arith, small)))

-- So are the ints of an array.
int_at-ints_bytes :
    (n j i a : ℕ) (f m : ℕ → ℕ)
    → i < n
    → f (j + i) < 2 ^ 32
    → int_at (write_bytes a (ints_bytes n j f) m) (a + 4 * i) ≡ f (j + i)
unfolding ints_bytes
int_at-ints_bytes zero j i a f m h small = absurd (omega (arith, h))
int_at-ints_bytes (suc n) j zero a f m h small =
    let first : f (j + 0) ≡ f j = ap f (omega arith) in
    int_at-write_bytes (int_bytes (f j) ++ ints_bytes n (j + 1) f) a 0 (f j) m refl refl refl refl
      (subst (λ v. v < 2 ^ 32) first small)
    ∙ sym first
int_at-ints_bytes (suc n) j (suc i) a f m h small =
    let later : f (j + suc i) ≡ f (j + 1 + i) = ap f (omega arith) in
    let place : a + 4 * suc i ≡ a + 4 + 4 * i = omega arith in
    rw (write_bytes-append (int_bytes (f j)) (ints_bytes n (j + 1) f) a m, place)
      (int_at-ints_bytes n (j + 1) i (a + 4) f (write_bytes a (int_bytes (f j)) m)
          (omega (arith, h)) (subst (λ v. v < 2 ^ 32) later small)
        ∙ sym later)

-- The fields of an inode that the disk has, in the ranges of their types.
pub record Fits (n : Inode) : Type 0 where
  pub type : n.type < 2 ^ 16
  pub major : n.major < 2 ^ 16
  pub minor : n.minor < 2 ^ 16
  pub nlink : n.nlink < 2 ^ 16
  pub size : n.size < 2 ^ 32
  pub addrs : (i : ℕ) → i < 13 → n.addrs i < 2 ^ 32

-- Two inodes with the same content on the disk.
pub record SameOnDisk (n n' : Inode) : Type 0 where
  pub type : n'.type ≡ n.type
  pub major : n'.major ≡ n.major
  pub minor : n'.minor ≡ n.minor
  pub nlink : n'.nlink ≡ n.nlink
  pub size : n'.size ≡ n.size
  pub addrs : (i : ℕ) → i < 13 → n'.addrs i ≡ n.addrs i

-- The bytes of a struct dinode before its array.
abbrev head_bytes : Inode → List ℕ
head_bytes n =
    short_bytes n.type
    ++ (short_bytes n.major ++ (short_bytes n.minor ++ (short_bytes n.nlink ++ int_bytes n.size)))

dinode_bytes-head_bytes : (n : Inode) → dinode_bytes n ≡ head_bytes n ++ ints_bytes 13 0 n.addrs
unfolding dinode_bytes
dinode_bytes-head_bytes n = refl

read_dinode-write_bytes :
    (n old : Inode) (a : ℕ) (m : ℕ → ℕ)
    → Fits n
    → SameOnDisk n (read_dinode (write_bytes a (dinode_bytes n) m) a old)
unfolding read_dinode dinode_bytes
read_dinode-write_bytes n old a m fits =
    let bs = dinode_bytes n in
    let start : a + 0 ≡ a = omega arith in
    record {
      type =
          ap (short_at (write_bytes a bs m)) (sym start)
          ∙ short_at-write_bytes bs a 0 n.type m refl refl fits.type;
      major = short_at-write_bytes bs a 2 n.major m refl refl fits.major;
      minor = short_at-write_bytes bs a 4 n.minor m refl refl fits.minor;
      nlink = short_at-write_bytes bs a 6 n.nlink m refl refl fits.nlink;
      size = int_at-write_bytes bs a 8 n.size m refl refl refl refl fits.size;
      addrs = λ i h.
          let inside : ltb i 13 ≡ true = ground (arith, h) in
          let same : 0 + i ≡ i = omega arith in
          let array : int_at (write_bytes a bs m) (a + 12 + 4 * i) ≡ n.addrs i =
            rw (write_bytes-append (head_bytes n) (ints_bytes 13 0 n.addrs) a m) (
              int_at-ints_bytes 13 0 i (a + 12) n.addrs (write_bytes a (head_bytes n) m) h
                (subst (λ v. n.addrs v < 2 ^ 32) (sym same) (fits.addrs i h))
              ∙ ap n.addrs same) in
          rw inside array;
    }

module _ (sb : Superblock) (w : Fs) (a : ℕ) where
  -- The state after iupdate.
  abbrev pub saved : Fs
  saved =
      let n = w.inodes a in
      let b = iblock n.inum sb in
      with_kernel
        (wrote b (write_bytes (dinode_at n.inum) (dinode_bytes n) (block_of b w)) w.kernel) w

  iupdate-saved : CanLog 1 w.kernel → iupdate sb a w ≡ ok saved
  unfolding iupdate
  iupdate-saved can =
      let n = w.inodes a in
      let b = iblock n.inum sb in
      write_block_lem b (write_bytes (dinode_at n.inum) (dinode_bytes n) (block_of b w)) w can

  -- The block of the inode, as the buffer cache has it after iupdate.
  saved_block :
      (inum : ℕ)
      → inum ≡ (w.inodes a).inum
      → block_of (iblock inum sb) saved
        ≡ write_bytes (dinode_at inum) (dinode_bytes (w.inodes a)) (block_of (iblock inum sb) w)
  unfolding logged
  saved_block inum same =
      subst
        (λ v.
          block_of (iblock v sb) saved
          ≡ write_bytes (dinode_at v) (dinode_bytes (w.inodes a)) (block_of (iblock v sb) w))
        (sym same) (ground arith)

  -- The inode that is read from the disk into the entry `b`.
  abbrev pub reread : (b : ℕ) → Inode
  reread b =
      let n = w.inodes b in read_dinode (block_of (iblock n.inum sb) saved) (dinode_at n.inum) n

  load_inode-saved :
      (b : ℕ)
      → (reread b).type ≢ 0
      → load_inode sb b saved ≡ ok (with_inode b (record (reread b) { valid = 1 }) saved)
  unfolding load_inode
  load_inode-saved b typed =
      let some_type : ((reread b).type == 0) ≡ false = ground (arith, typed) in rw some_type refl

  -- What iupdate saves of an inode in use, whose fields fit their types, is what ilock reads back,
  -- into any entry for the same inode; the entry keeps its device, number and references. The log
  -- must have room, within an operation, and its lock must be free.
  pub iupdate-load_inode :
      (b : ℕ)
      → CanLog 1 w.kernel
      → Fits (w.inodes a)
      → (w.inodes a).type ≢ 0
      → (w.inodes b).inum ≡ (w.inodes a).inum
      → ((iupdate sb a w >>= load_inode sb b)
          ≡ ok (with_inode b (record (reread b) { valid = 1 }) saved))
        × SameOnDisk (w.inodes a) (reread b)
        × ((reread b).dev ≡ (w.inodes b).dev)
        × ((reread b).inum ≡ (w.inodes b).inum)
        × ((reread b).ref ≡ (w.inodes b).ref)
  unfolding read_dinode
  iupdate-load_inode b can fits typed same =
      let n = w.inodes b in
      let content : SameOnDisk (w.inodes a) (reread b) =
        subst (λ m. SameOnDisk (w.inodes a) (read_dinode m (dinode_at n.inum) n))
          (sym (saved_block n.inum same))
          (read_dinode-write_bytes (w.inodes a) n (dinode_at n.inum) (block_of (iblock n.inum sb) w)
            fits) in
      (
        rw (iupdate-saved can) (load_inode-saved b (λ z. typed (sym content.type ∙ z))),
        content,
        refl,
        refl,
        refl,
      )
