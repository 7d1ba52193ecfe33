-- ===== src/Kalloc/Chain.antt =====
-- The free list in memory as the list of its blocks.
use soproyecto.Common.{ℕ, ◌≡◌, ◌≢◌, sym, true, false, List, [], ◌∷◌, ◌++◌, ◌==◌, arith}
use soproyecto.Machine.{update}
use soproyecto.Kalloc.{Block}

-- From `p` the `next` pointers lead through the blocks of the list to NULL.
abbrev pub Chain : (ℕ → Block) → ℕ → List ℕ → Type 0
Chain mem p [] = p ≡ 0
Chain mem p (a ∷ rest) = (p ≡ a) × (a ≢ 0) × Chain mem (mem a).next rest

-- The block is none of the list.
abbrev pub Apart : ℕ → List ℕ → Type 0
Apart a [] = Unit
Apart a (b ∷ bs) = (a ≢ b) × Apart a bs

-- No block stands twice in the list.
abbrev pub Distinct : List ℕ → Type 0
Distinct [] = Unit
Distinct (a ∷ rest) = Apart a rest × Distinct rest

abbrev pub All : (ℕ → Type 0) → List ℕ → Type 0
All P [] = Unit
All P (a ∷ rest) = P a × All P rest

-- A chain does not see a write to a block that is not in it.
pub Chain-update :
    (mem : ℕ → Block) (b : ℕ) (v : Block) (p : ℕ) (xs : List ℕ)
    → Apart b xs
    → Chain mem p xs
    → Chain (update mem b v) p xs
Chain-update mem b v p [] apart c = c
Chain-update mem b v p (a ∷ rest) apart c =
    let missed : (b == a) ≡ false = ground (arith, apart.0) in
    (c.0, c.1, rw missed (Chain-update mem b v (mem a).next rest apart.1 c.2))

-- The last block of a list, or 0.
abbrev pub last_or : ℕ → List ℕ → ℕ
last_or d [] = d
last_or d (a ∷ rest) = last_or a rest

pub Apart-append : (a : ℕ) (xs ys : List ℕ) → Apart a (xs ++ ys) → Apart a xs × Apart a ys
Apart-append a [] ys h = (tt, h)
Apart-append a (x ∷ xs) ys h = let (l, r) = Apart-append a xs ys h.1 in ((h.0, l), r)

pub ne_last : (x y : ℕ) (ys : List ℕ) → Apart x (y ∷ ys) → x ≢ last_or y ys
ne_last x y [] h = h.0
ne_last x y (z ∷ ys) h = ne_last x z ys h.1

-- Taking a block out of a chain, after its first block: the block before it gets its successor.
pub Chain-unlink :
    (mem : ℕ → Block) (p x b : ℕ) (ys zs : List ℕ)
    → Distinct (x ∷ ys ++ b ∷ zs)
    → Chain mem p (x ∷ ys ++ b ∷ zs)
    → Chain
        (update mem (last_or x ys) (record (mem (last_or x ys)) { next = (mem b).next }))
        p
        (x ∷ ys ++ zs)
Chain-unlink mem p x b [] zs d c =
    let here : (x == x) ≡ true = ground arith in
    (c.0, c.1, rw here (Chain-update mem x _ (mem b).next zs d.0.1 c.2.2))
Chain-unlink mem p x b (y ∷ ys) zs d c =
    let there : (last_or y ys == x) ≡ false =
      ground (arith, ne_last x y ys (Apart-append x (y ∷ ys) (b ∷ zs) d.0).0) in
    (c.0, c.1, rw there (Chain-unlink mem (mem x).next y b ys zs d.1 c.2))

pub Apart-join : (a : ℕ) (xs ys : List ℕ) → Apart a xs → Apart a ys → Apart a (xs ++ ys)
Apart-join a [] ys l r = r
Apart-join a (x ∷ xs) ys l r = (l.0, Apart-join a xs ys l.1 r)

-- The last block of a non-empty front of a chain is a block.
pub Chain-last :
    (mem : ℕ → Block) (p y : ℕ) (ys zs : List ℕ) → Chain mem p (y ∷ ys ++ zs) → last_or y ys ≢ 0
Chain-last mem p y [] zs c = c.1
Chain-last mem p y (x ∷ ys) zs c = Chain-last mem (mem y).next x ys zs c.2

-- A list without one of its members.
pub Distinct-unlink : (ys zs : List ℕ) (b : ℕ) → Distinct (ys ++ b ∷ zs) → Distinct (ys ++ zs)
Distinct-unlink [] zs b d = d.1
Distinct-unlink (y ∷ ys) zs b d =
    let (l, r) = Apart-append y ys (b ∷ zs) d.0 in
    (Apart-join y ys zs l r.1, Distinct-unlink ys zs b d.1)

pub Apart-unlink : (ys zs : List ℕ) (b : ℕ) → Distinct (ys ++ b ∷ zs) → Apart b (ys ++ zs)
Apart-unlink [] zs b d = d.0
Apart-unlink (y ∷ ys) zs b d =
    let (l, r) = Apart-append y ys (b ∷ zs) d.0 in ((λ e. r.0 (sym e)), Apart-unlink ys zs b d.1)

pub Apart-without :
    (a b : ℕ) (ys zs : List ℕ) → Apart a (ys ++ b ∷ zs) → (a ≢ b) × Apart a (ys ++ zs)
Apart-without a b ys zs h =
    let (l, r) = Apart-append a ys (b ∷ zs) h in (r.0, Apart-join a ys zs l r.1)
