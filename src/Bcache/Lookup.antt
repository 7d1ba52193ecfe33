-- ===== src/Bcache/Lookup.antt =====
-- bget: the loops over the ring, and which buffer they give.
use soproyecto.Common.{
  ℕ, zero, suc, ◌<◌, ◌≡◌, ◌≢◌, refl, sym, ap, ◌∙◌, subst, Bool, true, false, Bool-cases, inl, inr,
  Option, some, List, [], ◌∷◌, ◌++◌, length, ◌==◌, arith,
}
use mathlib.Core.List.{append_assoc}
use soproyecto.Kalloc.Chain.{Apart, All, Apart-append}
use soproyecto.Bcache.{Buf, scan_next, scan_prev}
use soproyecto.Bcache.Ring.{Linked}

-- No buffer of the list passes the test.
abbrev pub NonePass : (Buf → Bool) → (ℕ → Buf) → List ℕ → Type 0
NonePass test m xs = All (λ c. test (m c) ≡ false) xs

-- `b` passes the test, as the first of the list, and as the last.
pub record IsFirst (test : Buf → Bool) (m : ℕ → Buf) (xs : List ℕ) (b : ℕ) : Type 0 where
  pub before : List ℕ
  pub after : List ℕ
  pub splits : xs ≡ before ++ b ∷ after
  pub passes : test (m b) ≡ true
  pub others : NonePass test m before

pub record IsLast (test : Buf → Bool) (m : ℕ → Buf) (xs : List ℕ) (b : ℕ) : Type 0 where
  pub before : List ℕ
  pub after : List ℕ
  pub splits : xs ≡ before ++ b ∷ after
  pub passes : test (m b) ≡ true
  pub others : NonePass test m after

module _ (test : Buf → Bool) (m : ℕ → Buf) (head : ℕ) where
  -- What a scan finds: nothing and the head, or a buffer that is as `Found` says.
  pub data Scanned (Found : ℕ → Type 0) (xs : List ℕ) (o : Option ℕ) : Type 0 where
    missed : NonePass test m xs → o ≡ some head → Scanned Found xs o
    found : (b : ℕ) → Found b → b ≢ head → o ≡ some b → Scanned Found xs o

  First-later :
      (x : ℕ) (xs : List ℕ) (b : ℕ)
      → test (m x) ≡ false
      → IsFirst test m xs b
      → IsFirst test m (x ∷ xs) b
  First-later x xs b off f = record {
    before = x ∷ f.before;
    after = f.after;
    splits = ap (λ l. x ∷ l) f.splits;
    passes = f.passes;
    others = (off, f.others);
  }

  pub next_Scanned :
      (n a : ℕ) (xs : List ℕ)
      → Linked m a xs head
      → Apart head xs
      → length xs < n
      → Scanned (IsFirst test m xs) xs (scan_next n test head (m a).next m)
  unfolding scan_next
  next_Scanned zero a xs l out h = absurd (omega arith)
  next_Scanned (suc n) a [] l out h =
      let here : ((m a).next == head) ≡ true = ground (arith, l.0) in missed tt (rw here refl)
  next_Scanned (suc n) a (x ∷ xs) l out h =
      let at : (m a).next ≡ x = l.0 in
      let not_head : (x == head) ≡ false = ground (arith, out.0) in
      elim (Bool-cases (test (m x))) [
        | inl yes' ↦
            found x (record { before = []; after = xs; splits = refl; passes = yes'; others = tt })
              (λ e. out.0 (sym e)) (rw at (rw (not_head, yes') refl))
        | inr no' ↦ elim (next_Scanned n x xs l.2 out.1 (omega arith)) [
          | missed off e ↦ missed (no', off) (rw at (rw (not_head, no') e))
          | found b f ne e ↦ found b (First-later x xs b no' f) ne (rw at (rw (not_head, no') e))
        ]
      ]

-- A list is empty, or it has a last member.
data FromEnd : List ℕ → Type 0 where
  none_left : {xs : List ℕ} → xs ≡ [] → FromEnd xs
  last_of : {xs : List ℕ} (ws : List ℕ) (x : ℕ) → xs ≡ ws ++ x ∷ [] → FromEnd xs

from_end : (xs : List ℕ) → FromEnd xs
from_end [] = none_left refl
from_end (x ∷ xs) = elim (from_end xs) [
  | none_left e ↦ last_of [] x (ap (λ l. x ∷ l) e)
  | last_of ws y e ↦ last_of (x ∷ ws) y (ap (λ l. x ∷ l) e)
]

length_snoc : (ws : List ℕ) (x : ℕ) → length (ws ++ x ∷ []) ≡ suc (length ws)
length_snoc [] x = refl
length_snoc (w ∷ ws) x = ap suc (length_snoc ws x)

Linked_last :
    (m : ℕ → Buf) (a : ℕ) (ws : List ℕ) (x z : ℕ)
    → Linked m a (ws ++ x ∷ []) z
    → ((m z).prev ≡ x) × Linked m a ws x
Linked_last m a [] x z l = (l.2.1, (l.0, l.1))
Linked_last m a (w ∷ ws) x z l = let (p, rest) = Linked_last m w ws x z l.2 in (p, (l.0, l.1, rest))

All-snoc : (P : ℕ → Type 0) (xs : List ℕ) (x : ℕ) → All P xs → P x → All P (xs ++ x ∷ [])
All-snoc P [] x h p = (p, tt)
All-snoc P (y ∷ xs) x h p = (h.0, All-snoc P xs x h.1 p)

module _ (test : Buf → Bool) (m : ℕ → Buf) (head : ℕ) where
  Last-earlier :
      (ws : List ℕ) (x b : ℕ)
      → test (m x) ≡ false
      → IsLast test m ws b
      → IsLast test m (ws ++ x ∷ []) b
  Last-earlier ws x b off f = record {
    before = f.before;
    after = f.after ++ x ∷ [];
    splits = ap (λ l. l ++ x ∷ []) f.splits ∙ append_assoc f.before (b ∷ f.after) (x ∷ []);
    passes = f.passes;
    others = All-snoc (λ c. test (m c) ≡ false) f.after x f.others off;
  }

  pub prev_Scanned :
      (n : ℕ) (xs : List ℕ) (z : ℕ)
      → Linked m head xs z
      → Apart head xs
      → length xs < n
      → Scanned test m head (IsLast test m xs) xs (scan_prev n test head (m z).prev m)
  unfolding scan_prev
  prev_Scanned zero xs z l out h = absurd (omega arith)
  prev_Scanned (suc n) xs z l out h = elim (from_end xs) [
    | none_left e ↦
        let at : (m z).prev ≡ head = (subst (λ v. Linked m head v z) e l).1 in
        let here : ((m z).prev == head) ≡ true = ground (arith, at) in
        missed (subst (NonePass test m) (sym e) tt) (rw here refl)
    | last_of ws x e ↦
        let (at, rest) = Linked_last m head ws x z (subst (λ v. Linked m head v z) e l) in
        let (front, end') = Apart-append head ws (x ∷ []) (subst (Apart head) e out) in
        let not_head : (x == head) ≡ false = ground (arith, end'.0) in
        let shorter : length ws < n = omega (arith, ap length e, length_snoc ws x) in
        subst
          (λ v. Scanned test m head (IsLast test m v) v (scan_prev (suc n) test head (m z).prev m))
          (sym e)
          (elim (Bool-cases (test (m x))) [
            | inl yes' ↦
                found x
                  (record { before = ws; after = []; splits = refl; passes = yes'; others = tt })
                  (λ e'. end'.0 (sym e')) (rw at (rw (not_head, yes') refl))
            | inr no' ↦ elim (prev_Scanned n ws x rest front shorter) [
              | missed off e' ↦
                  missed (All-snoc (λ c. test (m c) ≡ false) ws x off no')
                    (rw at (rw (not_head, no') e'))
              | found b f ne e' ↦
                  found b (Last-earlier ws x b no' f) ne (rw at (rw (not_head, no') e'))
            ]
          ])
  ]
