-- ===== src/Fs/Rounds.antt =====
-- A round of writei: what it does to the bytes of a file.
use soproyecto.Common.{
  ℕ, zero, suc, ◌+◌, ◌-◌, ◌*◌, ◌/◌, ◌%◌, ◌<◌, ◌≤◌, ◌≡◌, ◌≢◌, ◌⊎◌, refl, sym, ap, ◌∙◌, Bool-cases,
  inl, inr, List, [], ◌∷◌, ◌++◌, length, take, drop, ◌==◌, ltb, arith,
}
use soproyecto.Machine.{update}
use soproyecto.Log.{logged}
use soproyecto.Paging.Copy.{write_bytes}
use soproyecto.Fs.{Fs, bsize, with_kernel, block_of}
use soproyecto.Fs.Writes.{wrote}
use soproyecto.Fs.Inodes.{int_at}
use soproyecto.Fs.Content.{ndirect, bytes_at}
use soproyecto.Fs.Reading.{addr_of, byte_of, HasBlocks}

-- No two places of the file share a block, and none is the indirect block.
pub record IsSeparate (w : Fs) (ip : ℕ) : Type 0 where
  pub distinct :
      (b c : ℕ)
      → b * bsize < (w.inodes ip).size
      → c * bsize < (w.inodes ip).size
      → addr_of w ip b ≡ addr_of w ip c
      → b ≡ c
  pub apart :
      (b : ℕ)
      → b * bsize < (w.inodes ip).size
      → ndirect * bsize < (w.inodes ip).size
      → addr_of w ip b ≢ (w.inodes ip).addrs ndirect

-- A write to an array is seen at the same place after a shift.
pub write_bytes_shift :
    (bs : List ℕ) (a b x y : ℕ) (f g : ℕ → ℕ)
    → a + x ≡ b + y
    → f x ≡ g y
    → write_bytes b bs f x ≡ write_bytes a bs g y
unfolding write_bytes
write_bytes_shift [] a b x y f g move same = same
write_bytes_shift (v ∷ bs) a b x y f g move same =
    write_bytes_shift bs (a + 1) (b + 1) x y (update f b v) (update g a v) (omega (arith, move))
      (ground (arith, move, same))

pub write_bytes_outside :
    (bs : List ℕ) (b x : ℕ) (f : ℕ → ℕ) → (x < b) ⊎ (b + length bs ≤ x) → write_bytes b bs f x ≡ f x
unfolding write_bytes
write_bytes_outside [] b x f out = refl
write_bytes_outside (v ∷ bs) b x f (inl below) =
    write_bytes_outside bs (b + 1) x (update f b v) (inl (omega (arith, below)))
    ∙ ground (arith, below)
write_bytes_outside (v ∷ bs) b x f (inr above) =
    write_bytes_outside bs (b + 1) x (update f b v) (inr (omega (arith, above)))
    ∙ ground (arith, above)

pub length-take : (m : ℕ) (bs : List ℕ) → m ≤ length bs → length (take m bs) ≡ m
length-take zero bs h = refl
length-take (suc m) [] h = absurd (omega (arith, h))
length-take (suc m) (b ∷ bs) h = ap suc (length-take m bs (omega (arith, h)))

pub length-drop : (m : ℕ) (bs : List ℕ) → m ≤ length bs → length (drop m bs) ≡ length bs - m
length-drop zero bs h = omega arith
length-drop (suc m) [] h = absurd (omega (arith, h))
length-drop (suc m) (b ∷ bs) h = length-drop m bs (omega (arith, h)) ∙ omega arith

pub take-drop : (m : ℕ) (bs : List ℕ) → take m bs ++ drop m bs ≡ bs
take-drop zero bs = refl
take-drop (suc m) [] = refl
take-drop (suc m) (b ∷ bs) = ap (λ l. b ∷ l) (take-drop m bs)

pub bytes_at-write_bytes :
    (bs : List ℕ) (a : ℕ) (f : ℕ → ℕ) → bytes_at (write_bytes a bs f) a (length bs) ≡ bs
unfolding bytes_at write_bytes
bytes_at-write_bytes [] a f = refl
bytes_at-write_bytes (b ∷ bs) a f =
    let first : write_bytes (a + 1) bs (update f a b) a ≡ b =
      write_bytes_outside bs (a + 1) a (update f a b) (inl (omega arith)) ∙ ground arith in
    let rest = bytes_at-write_bytes bs (a + 1) (update f a b) in λ i. first i ∷ rest i

-- The state after a round of writei at `off` with the bytes `bs`.
abbrev pub after_round : Fs → (ip off : ℕ) → List ℕ → Fs
after_round w ip off bs =
    let c = addr_of w ip (off / bsize) in
    with_kernel (wrote c (write_bytes (off % bsize) bs (block_of c w)) w.kernel) w

module _ (w : Fs) (ip : ℕ) (has : HasBlocks w ip) (separate : IsSeparate w ip) where
  block_of-round :
      (off : ℕ) (bs : List ℕ)
      → block_of (addr_of w ip (off / bsize)) (after_round w ip off bs)
        ≡ write_bytes (off % bsize) bs (block_of (addr_of w ip (off / bsize)) w)
  unfolding logged
  block_of-round off bs = ground arith

  block_of-round_ne :
      (off c : ℕ) (bs : List ℕ)
      → addr_of w ip (off / bsize) ≢ c
      → block_of c (after_round w ip off bs) ≡ block_of c w
  unfolding logged
  block_of-round_ne off c bs apart = ground (arith, apart)

  addr_of-round :
      (off b : ℕ) (bs : List ℕ)
      → off < (w.inodes ip).size
      → b * bsize < (w.inodes ip).size
      → addr_of (after_round w ip off bs) ip b ≡ addr_of w ip b
  addr_of-round off b bs inside h = elim (Bool-cases (ltb b ndirect)) [
    | inl near ↦ rw near refl
    | inr far ↦
        let same : block_of ((w.inodes ip).addrs ndirect) (after_round w ip off bs)
            ≡ block_of ((w.inodes ip).addrs ndirect) w =
          block_of-round_ne off ((w.inodes ip).addrs ndirect) bs
            (separate.apart (off / bsize) (omega (arith, inside)) (ground (arith, far, h))) in
        rw far (ap (λ m. int_at m (4 * (b - ndirect))) same)
  ]

  -- A round writes its bytes into the file, and nothing else.
  pub byte_of-round :
      (off x : ℕ) (bs : List ℕ)
      → off < (w.inodes ip).size
      → x < (w.inodes ip).size
      → off % bsize + length bs ≤ bsize
      → byte_of (after_round w ip off bs) ip x ≡ write_bytes off bs (byte_of w ip) x
  byte_of-round off x bs inside h short =
      ap (λ c. block_of c (after_round w ip off bs) (x % bsize))
        (addr_of-round off (x / bsize) bs inside (omega (arith, h)))
      ∙ elim (Bool-cases (off / bsize == x / bsize)) [
        | inl e ↦
            let same : off / bsize ≡ x / bsize = ground (arith, e) in
            ap (λ b. block_of (addr_of w ip b) (after_round w ip off bs) (x % bsize)) (sym same)
            ∙ ap (λ m. m (x % bsize)) (block_of-round off bs)
            ∙ sym (
                write_bytes_shift bs (off % bsize) off x (x % bsize) (byte_of w ip)
                  (block_of (addr_of w ip (off / bsize)) w) (omega (arith, same))
                  (ap (λ b. block_of (addr_of w ip b) w (x % bsize)) (sym same)))
        | inr o ↦
            let other : off / bsize ≢ x / bsize = λ e. ground (arith, o, e) in
            ap (λ m. m (x % bsize))
              (block_of-round_ne off (addr_of w ip (x / bsize)) bs (λ e. other (
                separate.distinct (off / bsize) (x / bsize) (omega (arith, inside))
                  (omega (arith, h)) e)))
            ∙ sym (
                write_bytes_outside bs off x (byte_of w ip) (elim (Bool-cases (ltb x off)) [
                  | inl below ↦ inl (ground (arith, below))
                  | inr above ↦ inr (ground (arith, above, other, short))
                ]))
      ]

  pub round-HasBlocks :
      (off : ℕ) (bs : List ℕ) → off < (w.inodes ip).size → HasBlocks (after_round w ip off bs) ip
  round-HasBlocks off bs inside = record {
    bound = has.bound;
    mapped = λ b h z. has.mapped b h (sym (addr_of-round off b bs inside h) ∙ z);
    table = has.table;
  }

  pub round-IsSeparate :
      (off : ℕ) (bs : List ℕ) → off < (w.inodes ip).size → IsSeparate (after_round w ip off bs) ip
  round-IsSeparate off bs inside = record {
    distinct = λ b c hb hc e.
        separate.distinct b c hb hc
          (sym (addr_of-round off b bs inside hb) ∙ e ∙ addr_of-round off c bs inside hc);
    apart = λ b h big e. separate.apart b h big (sym (addr_of-round off b bs inside h) ∙ e);
  }
