-- ===== src/Bcache/Unique.antt =====
-- What bget keeps: the ring, and that no block is in two buffers.
use soproyecto.Common.{
  ℕ, ◌+◌, ◌%◌, ◌^◌, ◌≡◌, ◌≢◌, ◌⊎◌, refl, sym, ap, ◌∙◌, subst, Bool, true, false, Bool-cases, inl,
  inr, List, [], ◌∷◌, ◌==◌, arith,
}
use soproyecto.Machine.{update}
use soproyecto.Bcache.{Buf, caches, is_unused, one_more, assigned}
use soproyecto.Bcache.Ring.{IsRing, Linked_of_same}
use soproyecto.Bcache.Lookup.{NonePass, IsFirst, IsLast}

-- The address is in the list.
abbrev pub Member : ℕ → List ℕ → Type 0
Member c [] = ⊥
Member c (x ∷ xs) = (c ≡ x) ⊎ Member c xs

-- No two buffers of the list cache the same block of a device; device 0 is none.
abbrev pub IsUnique : (ℕ → Buf) → List ℕ → Type 0
IsUnique m xs =
    (a b : ℕ)
    → Member a xs
    → Member b xs
    → (m a).dev ≡ (m b).dev
    → (m a).blockno ≡ (m b).blockno
    → (m a).dev ≢ 0
    → a ≡ b

None_at :
    (test : Buf → Bool) (m : ℕ → Buf) (xs : List ℕ) (c : ℕ)
    → NonePass test m xs
    → Member c xs
    → test (m c) ≡ false
None_at test m [] c off i = elim i [ ]
None_at test m (x ∷ xs) c off (inl e) = ap (λ v. test (m v)) e ∙ off.0
None_at test m (x ∷ xs) c off (inr i) = None_at test m xs c off.1 i

cached_not :
    (dev blockno : ℕ) (m : ℕ → Buf) (xs : List ℕ) (c : ℕ)
    → NonePass (caches dev blockno) m xs
    → Member c xs
    → (m c).dev ≡ dev
    → (m c).blockno ≢ blockno
cached_not dev blockno m xs c off i d k =
    ground (arith, d, k, None_at (caches dev blockno) m xs c off i)

-- How bget has found its buffer.
pub data Origin (dev blockno : ℕ) (m m' : ℕ → Buf) (xs : List ℕ) (b : ℕ) : Type 0 where
  hit : IsFirst (caches dev blockno) m xs b → m' ≡ one_more b m → Origin dev blockno m m' xs b
  recycled :
      NonePass (caches dev blockno) m xs
      → IsLast is_unused m xs b
      → m' ≡ assigned dev blockno b m
      → Origin dev blockno m m' xs b

-- The ring sees no write to the other fields of a buffer.
write-IsRing :
    (b : ℕ) (v : Buf) (m : ℕ → Buf) (head : ℕ) (xs : List ℕ)
    → v.next ≡ (m b).next
    → v.prev ≡ (m b).prev
    → IsRing m head xs
    → IsRing (update m b v) head xs
write-IsRing b v m head xs n p ring = record {
  linked =
      Linked_of_same m (update m b v) (λ c. ground (arith, n)) (λ c. ground (arith, p)) head xs head
        ring.linked;
  distinct = ring.distinct;
  apart = ring.apart;
}

pub Origin-IsRing :
    (dev blockno : ℕ) (m m' : ℕ → Buf) (head : ℕ) (xs : List ℕ) (b : ℕ)
    → Origin dev blockno m m' xs b
    → IsRing m head xs
    → IsRing m' head xs
Origin-IsRing dev blockno m m' head xs b (hit f e) ring =
    subst (λ v. IsRing v head xs) (sym e)
      (write-IsRing b (record (m b) { refcnt = ((m b).refcnt + 1) % 2 ^ 32 }) m head xs refl refl
        ring)
Origin-IsRing dev blockno m m' head xs b (recycled off f e) ring =
    subst (λ v. IsRing v head xs) (sym e)
      (write-IsRing b (record (m b) { dev = dev; blockno = blockno; flags = 0; refcnt = 1 }) m head
        xs refl refl ring)

one_more-IsUnique : (b : ℕ) (m : ℕ → Buf) (xs : List ℕ) → IsUnique m xs → IsUnique (one_more b m) xs
one_more-IsUnique b m xs unique a c i j dev block real =
    let same_dev : (e : ℕ) → (one_more b m e).dev ≡ (m e).dev = λ e. ground arith in
    let same_block : (e : ℕ) → (one_more b m e).blockno ≡ (m e).blockno = λ e. ground arith in
    unique a c i j (sym (same_dev a) ∙ dev ∙ same_dev c) (sym (same_block a) ∙ block ∙ same_block c)
      (λ z. real (same_dev a ∙ z))

assigned-IsUnique :
    (dev blockno b : ℕ) (m : ℕ → Buf) (xs : List ℕ)
    → NonePass (caches dev blockno) m xs
    → IsUnique m xs
    → IsUnique (assigned dev blockno b m) xs
assigned-IsUnique dev blockno b m xs off unique a c i j same block real =
    let new : ℕ → Buf = assigned dev blockno b m in
    let at_new : (e : ℕ) → (b == e) ≡ true → ((new e).dev ≡ dev) × ((new e).blockno ≡ blockno) =
      λ e h. (rw h refl, rw h refl) in
    let at_old : (e : ℕ)
        → (b == e) ≡ false
        → ((new e).dev ≡ (m e).dev) × ((new e).blockno ≡ (m e).blockno) =
      λ e h. (rw h refl, rw h refl) in
    elim (Bool-cases (b == a)) [
      | inl ea ↦ elim (Bool-cases (b == c)) [
        | inl ec ↦ ground (arith, ea, ec)
        | inr oc ↦ absurd (
            cached_not dev blockno m xs c off j (sym (at_old c oc).0 ∙ sym same ∙ (at_new a ea).0)
              (sym (at_old c oc).1 ∙ sym block ∙ (at_new a ea).1))
      ]
      | inr oa ↦ elim (Bool-cases (b == c)) [
        | inl ec ↦ absurd (
            cached_not dev blockno m xs a off i (sym (at_old a oa).0 ∙ same ∙ (at_new c ec).0)
              (sym (at_old a oa).1 ∙ block ∙ (at_new c ec).1))
        | inr oc ↦
            unique a c i j (sym (at_old a oa).0 ∙ same ∙ (at_old c oc).0)
              (sym (at_old a oa).1 ∙ block ∙ (at_old c oc).1) (λ z. real ((at_old a oa).0 ∙ z))
      ]
    ]

pub Origin-IsUnique :
    (dev blockno : ℕ) (m m' : ℕ → Buf) (xs : List ℕ) (b : ℕ)
    → Origin dev blockno m m' xs b
    → IsUnique m xs
    → IsUnique m' xs
Origin-IsUnique dev blockno m m' xs b (hit f e) unique =
    subst (λ v. IsUnique v xs) (sym e) (one_more-IsUnique b m xs unique)
Origin-IsUnique dev blockno m m' xs b (recycled off f e) unique =
    subst (λ v. IsUnique v xs) (sym e) (assigned-IsUnique dev blockno b m xs off unique)
