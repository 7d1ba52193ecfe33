-- ===== src/Fs/Reading.antt =====
-- readi reads the bytes of a file, in the order of its blocks.
use soproyecto.Common.{
  ℕ, zero, suc, ◌+◌, ◌-◌, ◌*◌, ◌/◌, ◌%◌, ◌^◌, ◌<◌, ◌≤◌, ◌≡◌, ◌≢◌, ◌⊎◌, refl, sym, ap, ◌∙◌, subst,
  true, false, Bool-cases, inl, inr, ◌||◌, some, [], ◌∷◌, ◌++◌, ok, ◌==◌, ltb, if◌then◌else◌, arith,
}
use soproyecto.Fs.{Superblock, Fs, bsize, block_of}
use soproyecto.Fs.Inodes.{int_at}
use soproyecto.Fs.Content.{
  ndirect, nindirect, maxfile, t_dev, Devices, bytes_at, direct, indirect, bmap, read_blocks, readi,
}

-- The block of the file at the place `bn`, as the inode and its indirect block have it.
abbrev pub addr_of : Fs → (ip bn : ℕ) → ℕ
addr_of w ip bn =
    let a = (w.inodes ip).addrs in
    if ltb bn ndirect then a bn else int_at (block_of (a ndirect) w) (4 * (bn - ndirect))

-- The byte of the file at the offset `x`.
abbrev pub byte_of : Fs → (ip x : ℕ) → ℕ
byte_of w ip x = block_of (addr_of w ip (x / bsize)) w (x % bsize)

-- The file has all the blocks of its size.
pub record HasBlocks (w : Fs) (ip : ℕ) : Type 0 where
  pub bound : (w.inodes ip).size ≤ maxfile * bsize
  pub mapped : (bn : ℕ) → bn * bsize < (w.inodes ip).size → addr_of w ip bn ≢ 0
  pub table : ndirect * bsize < (w.inodes ip).size → (w.inodes ip).addrs ndirect ≢ 0

pub bytes_at-ext :
    (f g : ℕ → ℕ) (n a b : ℕ)
    → ((i : ℕ) → i < n → f (a + i) ≡ g (b + i))
    → bytes_at f a n ≡ bytes_at g b n
unfolding bytes_at
bytes_at-ext f g zero a b same = refl
bytes_at-ext f g (suc n) a b same =
    let first : f a ≡ g b = ap f (omega arith) ∙ same 0 (omega arith) ∙ ap g (omega arith) in
    let rest : bytes_at f (a + 1) n ≡ bytes_at g (b + 1) n =
      bytes_at-ext f g n (a + 1) (b + 1)
        (λ i h. ap f (omega arith) ∙ same (suc i) (omega (arith, h)) ∙ ap g (omega arith)) in
    λ i. first i ∷ rest i

bytes_at-append :
    (f : ℕ → ℕ) (m n a : ℕ) → bytes_at f a m ++ bytes_at f (a + m) n ≡ bytes_at f a (m + n)
unfolding bytes_at
bytes_at-append f zero n a =
    let start : a + 0 ≡ a = omega arith in
    let count : n ≡ 0 + n = omega arith in λ i. bytes_at f (start i) (count i)
bytes_at-append f (suc m) n a =
    let place : a + suc m ≡ a + 1 + m = omega arith in
    let count : suc (m + n) ≡ suc m + n = omega arith in
    ap (λ p. f a ∷ (bytes_at f (a + 1) m ++ bytes_at f p n)) place
    ∙ ap (λ l. f a ∷ l) (bytes_at-append f m n (a + 1))
    ∙ ap (bytes_at f a) count

-- The number of bytes of a round.
abbrev pub round_of : (off left : ℕ) → ℕ
round_of off left = if ltb left (bsize - off % bsize) then left else bsize - off % bsize

module _ (sb : Superblock) (maps : ℕ) (w : Fs) (ip : ℕ) (has : HasBlocks w ip) where
  -- bmap finds a block that the file has.
  pub bmap-mapped :
      (bn : ℕ) → bn * bsize < (w.inodes ip).size → bmap sb maps ip bn w ≡ ok (addr_of w ip bn, w)
  unfolding bmap direct indirect
  bmap-mapped bn h =
      let there : addr_of w ip bn ≢ 0 = has.mapped bn h in
      elim (Bool-cases (ltb bn ndirect)) [
        | inl near ↦
            let found : ((w.inodes ip).addrs bn == 0) ≡ false = ground (arith, near, there) in
            rw (near, found) refl
        | inr far ↦
            let beyond : ltb (bn - ndirect) nindirect ≡ true = ground (arith, far, h, has.bound) in
            let table : ((w.inodes ip).addrs ndirect == 0) ≡ false =
              ground (arith, has.table (ground (arith, far, h))) in
            let found : (int_at (block_of ((w.inodes ip).addrs ndirect) w) (4 * (bn - ndirect))
                  == 0)
                ≡ false =
              ground (arith, far, there) in
            rw (far, beyond, table, found) refl
      ]

  -- The bytes of one round of readi.
  round_bytes :
      (off m : ℕ)
      → off % bsize + m ≤ bsize
      → bytes_at (block_of (addr_of w ip (off / bsize)) w) (off % bsize) m
        ≡ bytes_at (byte_of w ip) off m
  round_bytes off m h =
      bytes_at-ext (block_of (addr_of w ip (off / bsize)) w) (byte_of w ip) m (off % bsize) off
        (λ i lt.
          let same : off / bsize ≡ (off + i) / bsize = omega (arith, h, lt) in
          let place : off % bsize + i ≡ (off + i) % bsize = omega (arith, h, lt) in
          λ j. block_of (addr_of w ip (same j)) w (place j))

  read_round :
      (n off left : ℕ)
      → 0 < left
      → off + left ≤ (w.inodes ip).size
      → read_blocks sb maps n ip (off + round_of off left) (left - round_of off left) w
        ≡ ok (bytes_at (byte_of w ip) (off + round_of off left) (left - round_of off left), w)
      → read_blocks sb maps (suc n) ip off left w ≡ ok (bytes_at (byte_of w ip) off left, w)
  unfolding read_blocks
  read_round n off left some_left inside rest =
      let m = round_of off left in
      let more : (left == 0) ≡ false = ground (arith, some_left) in
      let sum : m + (left - m) ≡ left = ground arith in
      rw more (
        rw (bmap-mapped (off / bsize) (omega (arith, some_left, inside))) (
          rw rest (
            ap (λ l. ok (l ++ bytes_at (byte_of w ip) (off + m) (left - m), w))
              (round_bytes off m (ground arith))
            ∙ ap (λ l. ok (l, w))
                (bytes_at-append (byte_of w ip) m (left - m) off
                  ∙ ap (bytes_at (byte_of w ip) off) sum))))

  read_none : (n off : ℕ) → read_blocks sb maps (suc n) ip off 0 w ≡ ok ([], w)
  unfolding read_blocks
  read_none n off = refl

  nothing_left :
      (n off left : ℕ)
      → (left == 0) ≡ true
      → read_blocks sb maps (suc n) ip off left w ≡ ok (bytes_at (byte_of w ip) off left, w)
  unfolding bytes_at
  nothing_left n off left e =
      let nothing : left ≡ 0 = ground (arith, e) in
      subst (λ v. read_blocks sb maps (suc n) ip off v w ≡ ok (bytes_at (byte_of w ip) off v, w))
        (sym nothing) (read_none n off)

  read_blocks_lem :
      (n off left : ℕ)
      → off + left ≤ (w.inodes ip).size
      → (0 < left → off % bsize + left ≤ bsize * n)
      → read_blocks sb maps (suc n) ip off left w ≡ ok (bytes_at (byte_of w ip) off left, w)
  read_blocks_lem zero off left inside enough = elim (Bool-cases (left == 0)) [
    | inl e ↦ nothing_left zero off left e
    | inr o ↦ absurd (ground (arith, o, enough (ground (arith, o))))
  ]
  read_blocks_lem (suc n) off left inside enough = elim (Bool-cases (left == 0)) [
    | inl e ↦ nothing_left (suc n) off left e
    | inr o ↦
        let some_left : 0 < left = ground (arith, o) in
        let room = enough some_left in
        let m = round_of off left in
        let within : m ≤ left = ground arith in
        let whole : left - m ≡ 0 ⊎ ((off + m) % bsize ≡ 0) × (off % bsize + m ≡ bsize) =
          elim (Bool-cases (ltb left (bsize - off % bsize))) [
            | inl few ↦ inl (rw few (omega arith))
            | inr many ↦ inr (rw many (omega arith, omega arith))
          ] in
        read_round (suc n) off left some_left inside (
          read_blocks_lem n (off + m) (left - m) (omega (arith, inside, within)) (λ some_more.
            elim whole [
              | inl z ↦ absurd (omega (arith, z, some_more))
              | inr (start, full) ↦ omega (arith, start, full, room, within)
            ]))
  ]

  -- readi of a file, not a device, from an offset within it, with the fuel of a round for each block
  -- and one more: the bytes of the file from there on are read, as many as asked for or as there
  -- are, and nothing changes.
  pub readi_lem :
      (devsw : Devices) (rounds off n : ℕ)
      → (w.inodes ip).type ≢ t_dev
      → off ≤ (w.inodes ip).size
      → off + n < 2 ^ 32
      → off % bsize + n ≤ bsize * rounds
      → readi sb maps devsw (suc rounds) ip off n w
        ≡ ok (
          some (
              bytes_at
                (byte_of w ip)
                off
                (if ltb (w.inodes ip).size (off + n) then (w.inodes ip).size - off else n)),
          w,
        )
  unfolding readi
  readi_lem devsw rounds off n is_file start fits enough =
      let count = if ltb (w.inodes ip).size (off + n) then (w.inodes ip).size - off else n in
      let file : ((w.inodes ip).type == t_dev) ≡ false = ground (arith, is_file) in
      let good : (ltb (w.inodes ip).size off || ltb ((off + n) % 2 ^ 32) off) ≡ false =
        ground (arith, start, fits) in
      let inside : off + count ≤ (w.inodes ip).size = ground (arith, start) in
      let fewer : count ≤ n = ground arith in
      rw (file, good)
        (rw (read_blocks_lem rounds off count inside (λ _. omega (arith, enough, fewer))) refl)
