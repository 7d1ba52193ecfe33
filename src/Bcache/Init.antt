-- ===== src/Bcache/Init.antt =====
-- binit makes a ring of all buffers.
use soproyecto.Common.{
  ℕ, zero, suc, ◌+◌, ◌*◌, ◌<◌, ◌≤◌, ◌≡◌, ◌≢◌, refl, List, [], ◌∷◌, length, ◌==◌, true, arith,
}
use soproyecto.Kalloc.Chain.{Apart, All}
use soproyecto.Bcache.{Buf, Bcache, nbuf, head_of, set_next, set_prev, add_bufs, binit}
use soproyecto.Bcache.Ring.{IsRing, Linked, Linked-insert_front}

-- The buffers after `n` more from `b` on are put in front of `xs`.
abbrev pub with_added : (n b : ℕ) → List ℕ → List ℕ
with_added zero b xs = xs
with_added (suc n) b xs = with_added n (b + 604) (b ∷ xs)

abbrev AllBelow : ℕ → List ℕ → Type 0
AllBelow b xs = All (λ c. c < b) xs

Apart-of_AllBelow : (b c : ℕ) (xs : List ℕ) → b ≤ c → AllBelow b xs → Apart c xs
Apart-of_AllBelow b c [] h below = tt
Apart-of_AllBelow b c (x ∷ xs) h below =
    (λ e. omega (arith, h, below.0, e), Apart-of_AllBelow b c xs h below.1)

AllBelow-le : (b c : ℕ) (xs : List ℕ) → b ≤ c → AllBelow b xs → AllBelow c xs
AllBelow-le b c [] h below = tt
AllBelow-le b c (x ∷ xs) h below = (omega (arith, h, below.0), AllBelow-le b c xs h below.1)

add_bufs-IsRing :
    (n head b : ℕ) (w : Bcache) (xs : List ℕ)
    → b + 604 * n ≤ head
    → AllBelow b xs
    → IsRing w.bufs head xs
    → IsRing (add_bufs n head b w).bufs head (with_added n b xs)
unfolding add_bufs
add_bufs-IsRing zero head b w xs room below ring = ring
add_bufs-IsRing (suc n) head b w xs room below ring =
    let new : Apart b xs = Apart-of_AllBelow b b xs (omega arith) below in
    let ne : head ≢ b = λ e. omega (arith, room, e) in
    add_bufs-IsRing n head (b + 604) _ (b ∷ xs) (omega arith)
      (omega arith, AllBelow-le b (b + 604) xs (omega arith) below)
      (record {
        linked = Linked-insert_front w.bufs head b xs ne new ring.distinct ring.apart ring.linked;
        distinct = (new, ring.distinct);
        apart = (ne, ring.apart);
      })

length-with_added : (n b : ℕ) (xs : List ℕ) → length (with_added n b xs) ≡ n + length xs
length-with_added zero b xs = omega arith
length-with_added (suc n) b xs = omega (arith, length-with_added n (b + 604) (b ∷ xs))

empty-Linked :
    (head : ℕ) (m : ℕ → Buf) → Linked (set_next head head (set_prev head head m)) head [] head
empty-Linked head m =
    let same : (head == head) ≡ true = ground arith in (rw same refl, rw same refl)

-- binit makes a ring of the 30 buffers, each once, the last one first.
pub binit-IsRing :
    (bcache : ℕ) (w : Bcache)
    → IsRing (binit bcache w).bufs (head_of bcache) (with_added nbuf bcache [])
      × (length (with_added nbuf bcache []) ≡ 30)
unfolding binit
binit-IsRing bcache w =
    let head = head_of bcache in
    let m = set_next head head (set_prev head head w.bufs) in
    let start : IsRing m head [] = record {
      linked = empty-Linked head w.bufs;
      distinct = tt;
      apart = tt;
    } in
    (add_bufs-IsRing nbuf head bcache _ [] (omega arith) tt start, length-with_added nbuf bcache [])
