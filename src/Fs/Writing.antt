-- ===== src/Fs/Writing.antt =====
-- writei within a file, and what readi reads after it.
use soproyecto.Common.{
  ℕ, zero, suc, ◌+◌, ◌-◌, ◌*◌, ◌/◌, ◌%◌, ◌^◌, ◌<◌, ◌≤◌, ◌≡◌, ◌≢◌, ◌⊎◌, refl, sym, ap, ◌∙◌, true,
  false, Bool-cases, inl, inr, ◌||◌, ◌&&◌, some, List, length, take, drop, ok, ◌==◌, ltb, arith,
}
use soproyecto.Paging.Copy.{write_bytes}
use soproyecto.Fs.{Superblock, Fs, bsize, block_of}
use soproyecto.Fs.Writes.{CanLog, CanLog-mono, CanLog-wrote, write_block_lem}
use soproyecto.Fs.Saved.{write_bytes-append}
use soproyecto.Fs.Content.{maxfile, t_dev, Devices, bytes_at, write_blocks, grow, writei, readi}
use soproyecto.Fs.Reading.{
  addr_of, byte_of, HasBlocks, bmap-mapped, bytes_at-ext, readi_lem, round_of,
}
use soproyecto.Fs.Rounds.{
  IsSeparate, write_bytes_shift, write_bytes_outside, length-take, length-drop, take-drop,
  bytes_at-write_bytes, after_round, byte_of-round, round-HasBlocks, round-IsSeparate,
}

-- The file after writei: its bytes are those of `f`, and the inodes are as before.
pub record IsWritten (w : Fs) (ip : ℕ) (f : ℕ → ℕ) (w' : Fs) : Type 0 where
  pub inodes : w'.inodes ≡ w.inodes
  pub content : (x : ℕ) → x < (w.inodes ip).size → byte_of w' ip x ≡ f x
  pub has : HasBlocks w' ip
  pub separate : IsSeparate w' ip

-- A write of bytes depends on the array at the places alone that are looked at.
write_bytes_same :
    (bs : List ℕ) (b x : ℕ) (f g : ℕ → ℕ) → f x ≡ g x → write_bytes b bs f x ≡ write_bytes b bs g x
write_bytes_same bs b x f g same = write_bytes_shift bs b b x x f g refl same

module _ (sb : Superblock) (maps ip : ℕ) where
  write_round :
      (w : Fs) (n off : ℕ) (src : List ℕ)
      → HasBlocks w ip
      → CanLog 1 w.kernel
      → 0 < length src
      → off + length src ≤ (w.inodes ip).size
      → (let m = round_of off (length src) in
          write_blocks sb maps (suc n) ip off src w
          ≡ write_blocks sb maps n ip (off + m) (drop m src) (after_round w ip off (take m src)))
  unfolding write_blocks
  write_round w n off src has can some_left inside =
      let m = round_of off (length src) in
      let more : (length src == 0) ≡ false = ground (arith, some_left) in
      let c = addr_of w ip (off / bsize) in
      rw more (
        rw (bmap-mapped sb maps w ip has (off / bsize) (omega (arith, some_left, inside))) (
          rw (write_block_lem c (write_bytes (off % bsize) (take m src) (block_of c w)) w can)
            refl))

  write_none :
      (w : Fs) (n off : ℕ) (src : List ℕ)
      → (length src == 0) ≡ true
      → write_blocks sb maps (suc n) ip off src w ≡ ok (off + length src, w)
  unfolding write_blocks
  write_none w n off src e =
      let nothing : length src ≡ 0 = ground (arith, e) in
      rw e (ap (λ v. ok (v, w)) (omega (arith, nothing)))

  -- Nothing is left to write.
  none-IsWritten :
      (w : Fs) (off : ℕ) (src : List ℕ)
      → (length src == 0) ≡ true
      → HasBlocks w ip
      → IsSeparate w ip
      → IsWritten w ip (write_bytes off src (byte_of w ip)) w
  none-IsWritten w off src e has separate = record {
    inodes = refl;
    content = λ x h. sym (
        write_bytes_outside src off x (byte_of w ip) (elim (Bool-cases (ltb x off)) [
          | inl below ↦ inl (ground (arith, below))
          | inr above ↦ inr (ground (arith, above, e))
        ]));
    has = has;
    separate = separate;
  }

  -- A round and what follows it write the bytes together.
  both-IsWritten :
      (w w' : Fs) (off m : ℕ) (src : List ℕ) (has : HasBlocks w ip) (separate : IsSeparate w ip)
      → m ≤ length src
      → off % bsize + m ≤ bsize
      → off < (w.inodes ip).size
      → IsWritten
          (after_round w ip off (take m src))
          ip
          (write_bytes (off + m) (drop m src) (byte_of (after_round w ip off (take m src)) ip))
          w'
      → IsWritten w ip (write_bytes off src (byte_of w ip)) w'
  both-IsWritten w w' off m src has separate le short inside rest =
      let head = length-take m src le in
      record {
        inodes = rest.inodes;
        content = λ x h.
            rest.content x h
            ∙ write_bytes_same (drop m src) (off + m) x
                (byte_of (after_round w ip off (take m src)) ip)
                (write_bytes off (take m src) (byte_of w ip))
                (byte_of-round w ip has separate off x (take m src) inside h
                  (omega (arith, head, short)))
            ∙ ap
                (λ l.
                  write_bytes (off + l) (drop m src) (write_bytes off (take m src) (byte_of w ip))
                    x)
                (sym head)
            ∙ ap (λ f. f x) (sym (write_bytes-append (take m src) (drop m src) off (byte_of w ip)))
            ∙ ap (λ l. write_bytes off l (byte_of w ip) x) (take-drop m src);
        has = rest.has;
        separate = rest.separate;
      }

  write_blocks_lem :
      (n : ℕ) (w : Fs) (off : ℕ) (src : List ℕ)
      → HasBlocks w ip
      → IsSeparate w ip
      → CanLog n w.kernel
      → off + length src ≤ (w.inodes ip).size
      → (0 < length src → off % bsize + length src ≤ bsize * n)
      → (w' : Fs) × (write_blocks sb maps (suc n) ip off src w ≡ ok (off + length src, w'))
        × IsWritten w ip (write_bytes off src (byte_of w ip)) w'
  write_blocks_lem zero w off src has separate can inside enough =
      elim (Bool-cases (length src == 0)) [
        | inl e ↦ (w, write_none w zero off src e, none-IsWritten w off src e has separate)
        | inr o ↦ absurd (ground (arith, o, enough (ground (arith, o))))
      ]
  write_blocks_lem (suc n) w off src has separate can inside enough =
      elim (Bool-cases (length src == 0)) [
        | inl e ↦ (w, write_none w (suc n) off src e, none-IsWritten w off src e has separate)
        | inr o ↦
            let some_left : 0 < length src = ground (arith, o) in
            let room = enough some_left in
            let m = round_of off (length src) in
            let le : m ≤ length src = ground arith in
            let short : off % bsize + m ≤ bsize = ground arith in
            let whole : (length src - m ≡ 0)
                ⊎ (((off + m) % bsize ≡ 0) × (off % bsize + m ≡ bsize)) =
              elim (Bool-cases (ltb (length src) (bsize - off % bsize))) [
                | inl few ↦ inl (rw few (omega arith))
                | inr many ↦ inr (rw many (omega arith, omega arith))
              ] in
            let start : off < (w.inodes ip).size = omega (arith, some_left, inside) in
            let left_of = length-drop m src le in
            let (w', r, written) =
              write_blocks_lem n (after_round w ip off (take m src)) (off + m) (drop m src)
                (round-HasBlocks w ip has separate off (take m src) start)
                (round-IsSeparate w ip has separate off (take m src) start)
                (CanLog-wrote n (addr_of w ip (off / bsize))
                  (write_bytes (off % bsize) (take m src) (block_of (addr_of w ip (off / bsize)) w))
                  w.kernel can)
                (omega (arith, left_of, le, inside))
                (λ some_more. elim whole [
                  | inl z ↦ absurd (omega (arith, z, left_of, some_more))
                  | inr (begins, full) ↦ omega (arith, begins, full, room, le, left_of)
                ]) in
            (
              w',
              write_round w (suc n) off src has (CanLog-mono 1 (suc n) w.kernel (omega arith) can)
                    some_left inside
                  ∙ r
                  ∙ ap (λ v. ok (v, w')) (omega (arith, left_of, le)),
              both-IsWritten w w' off m src has separate le short start written,
            )
      ]

  -- writei within a file, not a device, whose blocks are all there and apart, when the log has room
  -- for the blocks of the write within an operation, its lock is free, and the fuel is a round for
  -- each block and one more: it writes all the bytes, at their offsets and nowhere else in the
  -- file, and leaves the inodes as they were.
  pub writei_lem :
      (devsw : Devices) (rounds : ℕ) (w : Fs) (off : ℕ) (src : List ℕ)
      → HasBlocks w ip
      → IsSeparate w ip
      → (w.inodes ip).type ≢ t_dev
      → CanLog rounds w.kernel
      → off + length src ≤ (w.inodes ip).size
      → off % bsize + length src ≤ bsize * rounds
      → (w' : Fs) × (writei sb maps devsw (suc rounds) ip off src w ≡ ok (some (length src), w'))
        × IsWritten w ip (write_bytes off src (byte_of w ip)) w'
  unfolding writei grow
  writei_lem devsw rounds w off src has separate is_file can inside enough =
      let file : ((w.inodes ip).type == t_dev) ≡ false = ground (arith, is_file) in
      let good : (ltb (w.inodes ip).size off || ltb ((off + length src) % 2 ^ 32) off) ≡ false =
        ground (arith, inside, has.bound) in
      let small : ltb (maxfile * bsize) (off + length src) ≡ false =
        ground (arith, inside, has.bound) in
      let (w', r, written) =
        write_blocks_lem rounds w off src has separate can inside (λ _. enough) in
      let kept : (ltb 0 (length src) && ltb (w'.inodes ip).size (off + length src)) ≡ false =
        let same : (w'.inodes ip).size ≡ (w.inodes ip).size =
          ap (λ f. (f ip).size) written.inodes in
        ground (arith, inside, same) in
      (w', rw (file, good, small) (rw r (rw kept refl)), written)

  -- On the same conditions, readi at the same offset gives back the bytes that writei wrote.
  pub writei-readi :
      (devsw : Devices) (rounds : ℕ) (w : Fs) (off : ℕ) (src : List ℕ)
      → HasBlocks w ip
      → IsSeparate w ip
      → (w.inodes ip).type ≢ t_dev
      → CanLog rounds w.kernel
      → off + length src ≤ (w.inodes ip).size
      → off % bsize + length src ≤ bsize * rounds
      → (w' : Fs) × (writei sb maps devsw (suc rounds) ip off src w ≡ ok (some (length src), w'))
        × (readi sb maps devsw (suc rounds) ip off (length src) w' ≡ ok (some src, w'))
  writei-readi devsw rounds w off src has separate is_file can inside enough =
      let (w', r, written) =
        writei_lem devsw rounds w off src has separate is_file can inside enough in
      let size : (w'.inodes ip).size ≡ (w.inodes ip).size = ap (λ f. (f ip).size) written.inodes in
      let type : (w'.inodes ip).type ≡ (w.inodes ip).type = ap (λ f. (f ip).type) written.inodes in
      let all : ltb (w'.inodes ip).size (off + length src) ≡ false = ground (arith, size, inside) in
      let bytes : bytes_at (byte_of w' ip) off (length src) ≡ src =
        bytes_at-ext (byte_of w' ip) (write_bytes off src (byte_of w ip)) (length src) off off
          (λ i h. written.content (off + i) (omega (arith, h, inside)))
        ∙ bytes_at-write_bytes src off (byte_of w ip) in
      (
        w',
        r,
        readi_lem sb maps w' ip written.has devsw rounds off (length src)
              (λ e. is_file (sym type ∙ e)) (omega (arith, size, inside))
              (omega (arith, inside, has.bound)) enough
            ∙ rw all (ap (λ l. ok (some l, w')) bytes),
      )
