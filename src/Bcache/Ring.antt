-- ===== src/Bcache/Ring.antt =====
-- The ring of buffers as the list of its members, and what unlink and insert_front do to it.
use soproyecto.Common.{ℕ, ◌≡◌, ◌≢◌, sym, ◌∙◌, List, [], ◌∷◌, ◌++◌, ◌==◌, if◌then◌else◌, arith}
use soproyecto.Kalloc.Chain.{
  Apart, Distinct, All, last_or, Apart-append, ne_last, Distinct-unlink, Apart-unlink,
  Apart-without,
}
use soproyecto.Bcache.{Buf, insert_front, unlink}

-- From `a` the `next` pointers lead through the list to `z`, and the `prev` pointers back.
abbrev pub Linked : (ℕ → Buf) → (a : ℕ) → List ℕ → (z : ℕ) → Type 0
Linked m a [] z = ((m a).next ≡ z) × ((m z).prev ≡ a)
Linked m a (x ∷ xs) z = ((m a).next ≡ x) × ((m x).prev ≡ a) × Linked m x xs z

-- The buffers of the ring, the last one used first; the head is none of them.
pub record IsRing (m : ℕ → Buf) (head : ℕ) (xs : List ℕ) : Type 0 where
  pub linked : Linked m head xs head
  pub distinct : Distinct xs
  pub apart : Apart head xs

abbrev pub SameNext : (m m' : ℕ → Buf) → ℕ → Type 0
SameNext m m' c = (m' c).next ≡ (m c).next

abbrev pub SamePrev : (m m' : ℕ → Buf) → ℕ → Type 0
SamePrev m m' c = (m' c).prev ≡ (m c).prev

Linked-same :
    (m m' : ℕ → Buf) (a : ℕ) (xs : List ℕ) (z : ℕ)
    → All (SameNext m m') (a ∷ xs)
    → All (SamePrev m m') xs
    → SamePrev m m' z
    → Linked m a xs z
    → Linked m' a xs z
Linked-same m m' a [] z n p e l = (n.0 ∙ l.0, e ∙ l.1)
Linked-same m m' a (x ∷ xs) z n p e l =
    (n.0 ∙ l.0, p.0 ∙ l.1, Linked-same m m' x xs z n.1 p.1 e l.2)

-- Links that are the same everywhere.
pub Linked_of_same :
    (m m' : ℕ → Buf)
    → ((c : ℕ) → SameNext m m' c)
    → ((c : ℕ) → SamePrev m m' c)
    → (a : ℕ) (xs : List ℕ) (z : ℕ) → Linked m a xs z
    → Linked m' a xs z
Linked_of_same m m' n p a [] z l = (n a ∙ l.0, p z ∙ l.1)
Linked_of_same m m' n p a (x ∷ xs) z l = (n a ∙ l.0, p x ∙ l.1, Linked_of_same m m' n p x xs z l.2)

-- What holds of all addresses but one holds of a list without it.
All-of_Apart :
    (P : ℕ → Type 0) (b : ℕ) (xs : List ℕ) → ((c : ℕ) → b ≢ c → P c) → Apart b xs → All P xs
All-of_Apart P b [] h out = tt
All-of_Apart P b (x ∷ xs) h out = (h x out.0, All-of_Apart P b xs h out.1)

All-of_two :
    (P : ℕ → Type 0) (a b : ℕ) (xs : List ℕ)
    → ((c : ℕ) → a ≢ c → b ≢ c → P c)
    → Apart a xs
    → Apart b xs
    → All P xs
All-of_two P a b [] h out new = tt
All-of_two P a b (x ∷ xs) h out new = (h x out.0 new.0, All-of_two P a b xs h out.1 new.1)

-- The writes of unlink, seen from any buffer.
next-unlink :
    (b : ℕ) (m : ℕ → Buf) (c : ℕ)
    → (m b).next ≢ b
    → (unlink b m c).next ≡ (if (m b).prev == c then (m b).next else (m c).next)
unfolding unlink
next-unlink b m c ne = ground (arith, ne)

prev-unlink :
    (b : ℕ) (m : ℕ → Buf) (c : ℕ)
    → (m b).next ≢ b
    → (unlink b m c).prev ≡ (if (m b).next == c then (m b).prev else (m c).prev)
unfolding unlink
prev-unlink b m c ne = ground (arith, ne)

next-insert_front :
    (head b : ℕ) (m : ℕ → Buf) (c : ℕ)
    → head ≢ b
    → (m head).next ≢ b
    → (insert_front head b m c).next
      ≡ (if head == c then b else if b == c then (m head).next else (m c).next)
unfolding insert_front
next-insert_front head b m c ne apart = ground (arith, ne, apart)

prev-insert_front :
    (head b : ℕ) (m : ℕ → Buf) (c : ℕ)
    → head ≢ b
    → (m head).next ≢ b
    → (insert_front head b m c).prev
      ≡ (if (m head).next == c then b else if b == c then head else (m c).prev)
unfolding insert_front
prev-insert_front head b m c ne apart = ground (arith, ne, apart)

-- The ends of the list around its member `b`.
abbrev first_or : ℕ → List ℕ → ℕ
first_or z [] = z
first_or z (x ∷ xs) = x

Linked-around :
    (m : ℕ → Buf) (a b z : ℕ) (ys zs : List ℕ)
    → Linked m a (ys ++ b ∷ zs) z
    → ((m b).prev ≡ last_or a ys) × ((m b).next ≡ first_or z zs)
Linked-around m a b z [] [] l = (l.1, l.2.0)
Linked-around m a b z [] (c ∷ zs) l = (l.1, l.2.0)
Linked-around m a b z (y ∷ ys) zs l = Linked-around m y b z ys zs l.2

ne_first : (y b z : ℕ) (ys zs : List ℕ) → Apart y (ys ++ b ∷ zs) → z ≢ y → y ≢ first_or z zs
ne_first y b z ys [] d out e = out (sym e)
ne_first y b z ys (c ∷ zs) d out e = (Apart-append y ys (b ∷ c ∷ zs) d).1.1.0 e

next_ne_self : (b z : ℕ) (zs : List ℕ) → Apart b zs → z ≢ b → b ≢ first_or z zs
next_ne_self b z [] out ne e = ne (sym e)
next_ne_self b z (c ∷ zs) out ne e = out.0 e

pub Linked-unlink :
    (m : ℕ → Buf) (a b z : ℕ) (ys zs : List ℕ)
    → (m b).next ≢ b
    → Distinct (a ∷ ys ++ b ∷ zs)
    → Apart z (ys ++ b ∷ zs)
    → Linked m a (ys ++ b ∷ zs) z
    → Linked (unlink b m) a (ys ++ zs) z
Linked-unlink m a b z [] [] ne d out l = (
  ground (arith, next-unlink b m a ne, l.1, l.2.0),
  ground (arith, prev-unlink b m z ne, l.1, l.2.0),
)
Linked-unlink m a b z [] (c ∷ zs) ne d out l = (
  ground (arith, next-unlink b m a ne, l.1, l.2.0),
  ground (arith, prev-unlink b m c ne, l.1, l.2.0),
  Linked-same m (unlink b m) c zs z
      (All-of_Apart (SameNext m (unlink b m)) a (c ∷ zs)
        (λ e apart. ground (arith, next-unlink b m e ne, l.1, apart)) d.0.1)
      (All-of_Apart (SamePrev m (unlink b m)) c zs
        (λ e apart. ground (arith, prev-unlink b m e ne, l.2.0, apart)) d.1.1.0)
      (ground (arith, prev-unlink b m z ne, l.2.0, out.1.0)) l.2.2,
)
Linked-unlink m a b z (y ∷ ys) zs ne d out l =
    let (back, forth) = Linked-around m y b z ys zs l.2 in
    let front : Apart a (y ∷ ys) = (Apart-append a (y ∷ ys) (b ∷ zs) d.0).0 in
    let before : (m b).prev ≢ a = λ e. ne_last a y ys front (sym e ∙ back) in
    let after : (m b).next ≢ y = λ e. ne_first y b z ys zs d.1.0 (λ x. out.0 x) (sym e ∙ forth) in
    (
      ground (arith, next-unlink b m a ne, l.0, before),
      ground (arith, prev-unlink b m y ne, l.1, after),
      Linked-unlink m y b z ys zs ne d.1 out.1 l.2,
    )

pub Linked-insert_front :
    (m : ℕ → Buf) (head b : ℕ) (xs : List ℕ)
    → head ≢ b
    → Apart b xs
    → Distinct xs
    → Apart head xs
    → Linked m head xs head
    → Linked (insert_front head b m) head (b ∷ xs) head
Linked-insert_front m head b [] ne new d out l =
    let apart : (m head).next ≢ b = λ e. ne (sym l.0 ∙ e) in
    (
      ground (arith, next-insert_front head b m head ne apart),
      ground (arith, prev-insert_front head b m b ne apart, l.0, ne),
      (
        ground (arith, next-insert_front head b m b ne apart, l.0, ne),
        ground (arith, prev-insert_front head b m head ne apart, l.0, ne),
      ),
    )
Linked-insert_front m head b (x ∷ xs) ne new d out l =
    let m' = insert_front head b m in
    let apart : (m head).next ≢ b = λ e. new.0 (sym e ∙ l.0) in
    (
      ground (arith, next-insert_front head b m head ne apart),
      ground (arith, prev-insert_front head b m b ne apart, l.0, new.0),
      (
        ground (arith, next-insert_front head b m b ne apart, l.0, ne),
        ground (arith, prev-insert_front head b m x ne apart, l.0),
        Linked-same m m' x xs head
            (All-of_two (SameNext m m') head b (x ∷ xs)
              (λ c off new'. ground (arith, next-insert_front head b m c ne apart, off, new')) out
              new)
            (All-of_two (SamePrev m m') x b xs
              (λ c off new'. ground (arith, prev-insert_front head b m c ne apart, l.0, off, new'))
              d.0 new.1)
            (ground (arith, prev-insert_front head b m head ne apart, l.0, out.0, ne)) l.2,
      ),
    )

-- A buffer of the ring that is moved to the front, as brelse does.
pub front-IsRing :
    (m : ℕ → Buf) (head b : ℕ) (ys zs : List ℕ)
    → IsRing m head (ys ++ b ∷ zs)
    → IsRing (insert_front head b (unlink b m)) head (b ∷ ys ++ zs)
front-IsRing m head b ys zs ring =
    let around = Linked-around m head b head ys zs ring.linked in
    let (ne, rest) = Apart-without head b ys zs ring.apart in
    let new : Apart b (ys ++ zs) = Apart-unlink ys zs b ring.distinct in
    let out : Apart b zs = (Apart-append b ys zs new).1 in
    let next_ne : (m b).next ≢ b = λ e. next_ne_self b head zs out ne (sym e ∙ around.1) in
    record {
      linked =
          Linked-insert_front (unlink b m) head b (ys ++ zs) ne new
            (Distinct-unlink ys zs b ring.distinct) rest
            (Linked-unlink m head b head ys zs next_ne (ring.apart, ring.distinct) ring.apart
              ring.linked);
      distinct = (new, Distinct-unlink ys zs b ring.distinct);
      apart = (ne, rest);
    }
