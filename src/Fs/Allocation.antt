-- ===== src/Fs/Allocation.antt =====
-- balloc: which block of the disk it gives.
use soproyecto.Common.{
  ℕ, zero, suc, ◌+◌, ◌-◌, ◌*◌, ◌/◌, ◌%◌, ◌<◌, ◌≤◌, ◌≡◌, ◌≢◌, refl, sym, ap, ◌∙◌, subst, Bool, true,
  false, Bool-cases, inl, inr, Option, none, some, Run, ok, stop, panic_balloc, ◌>>=◌, ◌==◌, ltb,
  if◌then◌else◌, arith,
}
use soproyecto.Log.{logged}
use soproyecto.Fs.{
  Superblock, Fs, bsize, bpb, bblock, with_kernel, block_of, write_block, bzero, is_used, mark,
  free_bit, take_bit, balloc_from, balloc,
}
use soproyecto.Fs.Bitmap.{is_used-mark, is_used-mark_ne}
use soproyecto.Fs.Writes.{CanLog, CanLog-mono, CanLog-wrote, wrote, write_block_lem}

-- What the inner loop finds: the first bit that is 0, if it is of a block below `size`.
pub data BitFound (n b size bi : ℕ) (bytes : ℕ → ℕ) (r : Option ℕ) : Type 0 where
  bit :
      (j : ℕ)
      → bi ≤ j
      → j < bi + n
      → b + j < size
      → is_used bytes j ≡ false
      → ((i : ℕ) → bi ≤ i → i < j → is_used bytes i ≡ true)
      → r ≡ some j
      → BitFound n b size bi bytes r
  no_bit :
      ((i : ℕ) → bi ≤ i → i < bi + n → b + i < size → is_used bytes i ≡ true)
      → r ≡ none
      → BitFound n b size bi bytes r

free_bit-BitFound :
    (n b size bi : ℕ) (bytes : ℕ → ℕ) → BitFound n b size bi bytes (free_bit n b size bi bytes)
unfolding free_bit
free_bit-BitFound zero b size bi bytes = no_bit (λ i lo hi s. absurd (omega (arith, lo, hi))) refl
free_bit-BitFound (suc n) b size bi bytes = elim (Bool-cases (ltb (b + bi) size)) [
  | inr over ↦ no_bit (λ i lo hi s. absurd (ground (arith, over, lo, s))) (rw over refl)
  | inl below ↦ elim (Bool-cases (is_used bytes bi)) [
    | inr free ↦
        bit bi (omega arith) (omega arith) (ground (arith, below)) free
          (λ i lo hi. absurd (omega (arith, lo, hi))) (rw (below, free) refl)
    | inl used ↦
        let next : free_bit (suc n) b size bi bytes ≡ free_bit n b size (bi + 1) bytes =
          rw (below, used) refl in
        let first : (i : ℕ) → (bi ≡ i) → is_used bytes i ≡ true =
          λ i e. subst (λ v. is_used bytes v ≡ true) e used in
        elim (free_bit-BitFound n b size (bi + 1) bytes) [
          | bit j lo hi s free others r ↦
              bit j (omega (arith, lo)) (omega (arith, hi)) s free
                (λ i l h. elim (Bool-cases (bi == i)) [
                  | inl e ↦ first i (ground (arith, e))
                  | inr o ↦ others i (ground (arith, o, l)) h
                ])
                (next ∙ r)
          | no_bit all r ↦
              no_bit
                (λ i l h s. elim (Bool-cases (bi == i)) [
                  | inl e ↦ first i (ground (arith, e))
                  | inr o ↦ all i (ground (arith, o, l)) (omega (arith, h)) s
                ])
                (next ∙ r)
        ]
  ]
]

-- The bit of a block in the free map is set.
abbrev pub in_use : Superblock → Fs → (x : ℕ) → Bool
in_use sb w x = is_used (block_of (bblock x sb) w) (x % bpb)

module _ (sb : Superblock) (w : Fs) where
  -- The state after the block `x` has been marked, and after it has been zeroed as well.
  abbrev pub marked : ℕ → Fs
  marked x =
      with_kernel (wrote (bblock x sb) (mark (x % bpb) (block_of (bblock x sb) w)) w.kernel) w

  abbrev pub zeroed : ℕ → Fs
  zeroed x =
      with_kernel
        (wrote x (λ i. if ltb i bsize then 0 else block_of x (marked x) i) (marked x).kernel) w

  -- balloc gives the first block that is free, or panics when there is none.
  pub data Allocated (r : Run (ℕ × Fs)) : Type 0 where
    allocated :
        (x : ℕ)
        → x < sb.size
        → in_use sb w x ≡ false
        → ((y : ℕ) → y < x → in_use sb w y ≡ true)
        → r ≡ ok (x, zeroed x)
        → in_use sb (zeroed x) x ≡ true
        → ((y : ℕ) → y < sb.size → x ≢ y → in_use sb (zeroed x) y ≡ in_use sb w y)
        → ((i : ℕ) → i < bsize → block_of x (zeroed x) i ≡ 0)
        → Allocated r
    all_used : ((y : ℕ) → y < sb.size → in_use sb w y ≡ true) → r ≡ stop panic_balloc → Allocated r

  block_of-marked :
      (x : ℕ) → block_of (bblock x sb) (marked x) ≡ mark (x % bpb) (block_of (bblock x sb) w)
  unfolding logged
  block_of-marked x = ground arith

  block_of-marked_ne : (x c : ℕ) → bblock x sb ≢ c → block_of c (marked x) ≡ block_of c w
  unfolding logged
  block_of-marked_ne x c apart = ground (arith, apart)

  block_of-zeroed_ne : (x c : ℕ) → x ≢ c → block_of c (zeroed x) ≡ block_of c (marked x)
  unfolding logged
  block_of-zeroed_ne x c apart = ground (arith, apart)

  block_of-zeroed : (x i : ℕ) → i < bsize → block_of x (zeroed x) i ≡ 0
  unfolding logged
  block_of-zeroed x i h = ground (arith, h)

  -- The map after the two writes, which the zeroing leaves alone.
  in_use-zeroed : (x : ℕ) → in_use sb w x ≡ false → x ≢ bblock x sb → in_use sb (zeroed x) x ≡ true
  in_use-zeroed x free data_block =
      ap (λ m. is_used m (x % bpb))
        (block_of-zeroed_ne x (bblock x sb) data_block ∙ block_of-marked x)
      ∙ is_used-mark (block_of (bblock x sb) w) (x % bpb) free

  in_use-zeroed_ne :
      (x y : ℕ)
      → in_use sb w x ≡ false
      → x ≢ bblock y sb
      → x ≢ y
      → in_use sb (zeroed x) y ≡ in_use sb w y
  in_use-zeroed_ne x y free data_block apart =
      ap (λ m. is_used m (y % bpb)) (block_of-zeroed_ne x (bblock y sb) data_block)
      ∙ elim (Bool-cases (x / bpb == y / bpb)) [
        | inl e ↦
            let same : bblock x sb ≡ bblock y sb = ground (arith, e) in
            ap (λ c. is_used (block_of c (marked x)) (y % bpb)) (sym same)
            ∙ ap (λ m. is_used m (y % bpb)) (block_of-marked x)
            ∙ is_used-mark_ne (block_of (bblock x sb) w) (x % bpb) (y % bpb) free
                (λ r. apart (ground (arith, e, r)))
            ∙ ap (λ c. is_used (block_of c w) (y % bpb)) same
        | inr o ↦
            ap (λ m. is_used m (y % bpb))
              (block_of-marked_ne x (bblock y sb) (λ r. ground (arith, o, r)))
      ]

  -- The end of balloc for the block `x`, with its block `c` and its bit `v` of the free map.
  abbrev taking : (c v x : ℕ) → Run (ℕ × Fs)
  taking c v x = do w ← write_block c (mark v (block_of c w)) w; w ← bzero x w; ok (x, w)

  taking_lem : (x : ℕ) → CanLog 2 w.kernel → taking (bblock x sb) (x % bpb) x ≡ ok (x, zeroed x)
  unfolding bzero
  taking_lem x can =
      let first = mark (x % bpb) (block_of (bblock x sb) w) in
      rw (write_block_lem (bblock x sb) first w (CanLog-mono 1 2 w.kernel (omega arith) can)) (
        rw
          (write_block_lem x (λ i. if ltb i bsize then 0 else block_of x (marked x) i) (marked x)
            (CanLog-wrote 1 (bblock x sb) first w.kernel can))
          refl)

  take_bit_lem :
      (b j : ℕ) (rest : Run (ℕ × Fs))
      → CanLog 2 w.kernel
      → bblock (b + j) sb ≡ bblock b sb
      → (b + j) % bpb ≡ j
      → take_bit sb b rest w (some j) ≡ ok (b + j, zeroed (b + j))
  take_bit_lem b j rest can same place =
      sym (λ i. taking (same i) (place i) (b + j)) ∙ taking_lem (b + j) can

  -- The blocks of one block of the free map.
  bblock_of : (b j : ℕ) → b % bpb ≡ 0 → j < bpb → bblock (b + j) sb ≡ bblock b sb
  bblock_of b j whole h = ap (λ x. x + sb.bmapstart) (omega (arith, whole, h))

  in_use-bit :
      (b y : ℕ)
      → b % bpb ≡ 0
      → b ≤ y
      → y < b + bpb
      → in_use sb w y ≡ is_used (block_of (bblock b sb) w) (y - b)
  in_use-bit b y whole lo hi =
      let same : y / bpb ≡ b / bpb = omega (arith, whole, lo, hi) in
      let place : y % bpb ≡ y - b = omega (arith, whole, lo, hi) in
      λ i. is_used (block_of (same i + sb.bmapstart) w) (place i)

  balloc_from-Allocated :
      (n b : ℕ)
      → CanLog 2 w.kernel
      → ((y : ℕ) → y < sb.size → in_use sb w (bblock y sb) ≡ true)
      → b % bpb ≡ 0
      → b < sb.size + bpb
      → sb.size + bpb ≤ b + bpb * n
      → ((y : ℕ) → y < b → y < sb.size → in_use sb w y ≡ true)
      → Allocated (balloc_from sb n b w)
  unfolding balloc_from
  balloc_from-Allocated zero b can map_used whole lo enough used =
      absurd (omega (arith, lo, enough))
  balloc_from-Allocated (suc n) b can map_used whole lo enough used =
      elim (Bool-cases (ltb b sb.size)) [
        | inr over ↦ all_used (λ y h. used y (ground (arith, over, h)) h) (rw over refl)
        | inl below ↦ elim (free_bit-BitFound bpb b sb.size 0 (block_of (bblock b sb) w)) [
          | bit j low high s free others r ↦
              let x = b + j in
              let inside : j < bpb = omega (arith, high) in
              let is_free : in_use sb w x ≡ false =
                in_use-bit b x whole (omega arith) (omega (arith, inside))
                ∙ ap (is_used (block_of (bblock b sb) w)) (omega arith)
                ∙ free in
              let data_block : (y : ℕ) → y < sb.size → x ≢ bblock y sb =
                λ y h e. ground (arith, is_free, ap (in_use sb w) e ∙ map_used y h) in
              allocated x s is_free
                (λ y h. elim (Bool-cases (ltb y b)) [
                  | inl e ↦ used y (ground (arith, e)) (omega (arith, h, s))
                  | inr e ↦
                      in_use-bit b y whole (ground (arith, e)) (omega (arith, h, inside))
                      ∙ others (y - b) (omega arith) (ground (arith, e, h))
                ])
                (rw (below, r)
                  (take_bit_lem b j (balloc_from sb n (b + bpb) w) can (bblock_of b j whole inside)
                    (omega (arith, whole, inside))))
                (in_use-zeroed x is_free (data_block x s))
                (λ y h apart. in_use-zeroed_ne x y is_free (data_block y h) apart)
                (λ i h. block_of-zeroed x i h)
          | no_bit all r ↦ subst Allocated (rw (below, r) refl) (
              balloc_from-Allocated n (b + bpb) can map_used (omega (arith, whole))
                (ground (arith, below)) (omega (arith, enough))
                (λ y h s. elim (Bool-cases (ltb y b)) [
                  | inl e ↦ used y (ground (arith, e)) s
                  | inr e ↦
                      in_use-bit b y whole (ground (arith, e)) (omega (arith, h))
                      ∙ all (y - b) (omega arith) (ground (arith, e, h)) (ground (arith, e, s))
                ]))
        ]
      ]

  -- balloc, when the blocks of the free map are marked as used themselves, the log has room for
  -- two blocks within an operation, its lock is free, and the fuel is for every block of the map
  -- and one round more: the first block that is free is given, marked, and zeroed, and no other
  -- block's mark changes; or it panics, all blocks being used.
  pub balloc-Allocated :
      (rounds : ℕ)
      → CanLog 2 w.kernel
      → ((y : ℕ) → y < sb.size → in_use sb w (bblock y sb) ≡ true)
      → sb.size + bpb ≤ bpb * rounds
      → Allocated (balloc sb rounds w)
  unfolding balloc
  balloc-Allocated rounds can map_used enough =
      balloc_from-Allocated rounds 0 can map_used refl (omega arith) (omega (arith, enough))
        (λ y h. absurd (omega (arith, h)))
