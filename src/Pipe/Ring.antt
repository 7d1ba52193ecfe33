-- ===== src/Pipe/Ring.antt =====
-- The ring buffer of a pipe as a queue of bytes.
use soproyecto.Common.{
  ℕ, zero, suc, ◌+◌, ◌-◌, ◌%◌, ◌^◌, ◌<◌, ◌≤◌, ◌≡◌, ◌≢◌, refl, ap, ◌∙◌, sym, true, false, List, [],
  ◌∷◌, ◌++◌, length, ◌==◌, Bool-cases, ◌⊎◌, inl, inr, if◌then◌else◌, arith,
}
use mathlib.Core.List.{append-nil, append_assoc}
use soproyecto.Machine.{update}
use soproyecto.Proc.Defs.{Pipe}
use soproyecto.Pipe.{pipesize, is_empty, put, advance, read_bytes}

-- The number of bytes in a pipe, whose counters wrap around.
abbrev pub count : Pipe → ℕ
count q = (q.nwrite + 2 ^ 32 - q.nread) % 2 ^ 32

-- `n` entries of the buffer from the counter `r` on.
abbrev pub window : (ℕ → ℕ) → ℕ → ℕ → List ℕ
window d r zero = []
window d r (suc n) = d (r % pipesize) ∷ window d ((r + 1) % 2 ^ 32) n

-- What a pipe holds, oldest byte first.
abbrev pub contents : Pipe → List ℕ
contents q = window q.bytes q.nread (count q)

pub record IsRing (q : Pipe) : Type 0 where
  pub read : q.nread < 2 ^ 32
  pub written : q.nwrite < 2 ^ 32
  pub fits : count q ≤ 512

-- A write at most one buffer ahead, past the window, does not show in it.
window-update :
    (d : ℕ → ℕ) (b n r m : ℕ)
    → n ≤ m
    → m < 512
    → window (update d ((r + m) % 512) b) r n ≡ window d r n
window-update d b zero r m h h' = refl
window-update d b (suc n) r zero h h' = elim h [ ]
window-update d b (suc n) r (suc m) h h' =
    let apart : ((r + suc m) % 512 == r % 512) ≡ false = ground arith in
    let next : (r + suc m) % 512 ≡ ((r + 1) % 2 ^ 32 + m) % 512 = omega arith in
    ap
      (λ c.
        (if c then b else d (r % 512))
        ∷ window (update d ((r + suc m) % 512) b) ((r + 1) % 2 ^ 32) n)
      apart
    ∙ ap (λ w. d (r % 512) ∷ window (update d w b) ((r + 1) % 2 ^ 32) n) next
    ∙ ap (λ xs. d (r % 512) ∷ xs)
        (window-update d b n ((r + 1) % 2 ^ 32) m (omega arith) (omega arith))

window-snoc : (d : ℕ → ℕ) (n r : ℕ) → window d r (suc n) ≡ window d r n ++ (d ((r + n) % 512) ∷ [])
window-snoc d zero r = let same : r % 512 ≡ (r + 0) % 512 = omega arith in ap (λ i. d i ∷ []) same
window-snoc d (suc n) r =
    let next : ((r + 1) % 2 ^ 32 + n) % 512 ≡ (r + suc n) % 512 = omega arith in
    ap (λ xs. d (r % 512) ∷ xs)
      (window-snoc d n ((r + 1) % 2 ^ 32)
        ∙ ap (λ i. window d ((r + 1) % 2 ^ 32) n ++ (d i ∷ [])) next)

pub count-put : (b : ℕ) (q : Pipe) → IsRing q → count q < 512 → count (put b q) ≡ suc (count q)
count-put b q ring room = omega (arith, ring.read, ring.written)

end_of_window : (q : Pipe) → IsRing q → (q.nread + count q) % 512 ≡ q.nwrite % 512
end_of_window q ring = omega (arith, ring.read, ring.written, ring.fits)

pub IsRing-put : (b : ℕ) (q : Pipe) → IsRing q → count q < 512 → IsRing (put b q)
IsRing-put b q ring room = record {
  read = ring.read;
  written = omega arith;
  fits = omega (arith, count-put b q ring room);
}

-- A byte that is put goes to the end.
pub contents-put :
    (b : ℕ) (q : Pipe) → IsRing q → count q < 512 → contents (put b q) ≡ contents q ++ (b ∷ [])
contents-put b q ring room =
    let d = update q.bytes (q.nwrite % 512) b in
    let there : (q.nwrite % 512 == (q.nread + count q) % 512) ≡ true =
      ground (arith, end_of_window q ring) in
    ap (window d q.nread) (count-put b q ring room)
    ∙ window-snoc d (count q) q.nread
    ∙ ap
        (λ c.
          window d q.nread (count q)
          ++ ((if c then b else q.bytes ((q.nread + count q) % 512)) ∷ []))
        there
    ∙ ap (λ xs. xs ++ (b ∷ []))
        (ap (λ i. window (update q.bytes i b) q.nread (count q)) (sym (end_of_window q ring))
          ∙ window-update q.bytes b (count q) q.nread (count q) (omega arith) room)

count-advance : (q : Pipe) → IsRing q → q.nread ≢ q.nwrite → count q ≡ suc (count (advance q))
count-advance q ring some_left = omega (arith, ring.read, ring.written)

pub IsRing-advance : (q : Pipe) → IsRing q → q.nread ≢ q.nwrite → IsRing (advance q)
IsRing-advance q ring some_left = record {
  read = omega arith;
  written = ring.written;
  fits = omega (arith, ring.fits, count-advance q ring some_left);
}

-- The byte at the front of a pipe that is not empty.
pub contents-advance :
    (q : Pipe)
    → IsRing q
    → q.nread ≢ q.nwrite
    → contents q ≡ q.bytes (q.nread % 512) ∷ contents (advance q)
contents-advance q ring some_left = ap (window q.bytes q.nread) (count-advance q ring some_left)

contents-empty : (q : Pipe) → IsRing q → q.nread ≡ q.nwrite → contents q ≡ []
contents-empty q ring e =
    let none_left : count q ≡ 0 = omega (arith, ring.read, ring.written) in
    ap (window q.bytes q.nread) none_left

-- The pipe with all of the bytes.
abbrev pub puts : List ℕ → Pipe → Pipe
puts [] q = q
puts (b ∷ bs) q = puts bs (put b q)

pub contents-puts :
    (bs : List ℕ) (q : Pipe)
    → IsRing q
    → count q + length bs ≤ 512
    → IsRing (puts bs q) × (contents (puts bs q) ≡ contents q ++ bs)
contents-puts [] q ring room = (ring, sym (append-nil (contents q)))
contents-puts (b ∷ bs) q ring room =
    let here : count q < 512 = omega arith in
    let (ring', e) =
      contents-puts bs (put b q) (IsRing-put b q ring here)
        (omega (arith, count-put b q ring here)) in
    (
      ring',
      e ∙ ap (λ xs. xs ++ bs) (contents-put b q ring here) ∙ append_assoc (contents q) (b ∷ []) bs,
    )

-- The copying loop takes the first `n` bytes, or all if there are fewer.
pub read_bytes_lem :
    (n : ℕ) (q : Pipe)
    → IsRing q
    → (bs : List ℕ) × (q' : Pipe) × (read_bytes n q ≡ (bs, q'))
      × IsRing q'
      × (contents q ≡ bs ++ contents q')
      × (length bs ≤ n)
      × ((length bs ≡ n) ⊎ (contents q' ≡ []))
unfolding read_bytes
read_bytes_lem zero q ring = ([], q, refl, ring, refl, omega arith, inl refl)
read_bytes_lem (suc n) q ring = elim (Bool-cases (is_empty q)) [
  | inl e ↦
      let nothing = contents-empty q ring (ground (arith, e)) in
      ([], q, rw e refl, ring, refl, omega arith, inr nothing)
  | inr e ↦
      let some_left : q.nread ≢ q.nwrite = λ h. ground (arith, e, h) in
      let (bs, q', run, ring', same, short, full) =
        read_bytes_lem n (advance q) (IsRing-advance q ring some_left) in
      (
        q.bytes (q.nread % 512) ∷ bs,
        q',
        rw (e, run) refl,
        ring',
        contents-advance q ring some_left ∙ ap (λ xs. q.bytes (q.nread % 512) ∷ xs) same,
        omega (arith, short),
        elim full [ inl f ↦ inl (ap suc f) | inr f ↦ inr f ],
      )
]
