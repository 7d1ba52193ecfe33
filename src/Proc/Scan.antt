-- ===== src/Proc/Scan.antt =====
-- What the scans of the process table find.
use soproyecto.Common.{
  ℕ, zero, suc, ◌≢◌, ◌<◌, ◌≡◌, refl, ap, subst, Bool, true, false, Bool-cases, inl, inr, Option,
  none, some, List, [], ◌∷◌, arith, get_elem?, length, Option-cases,
}
use mathlib.Core.Option
use soproyecto.Proc.Defs.{Proc, modify}
use soproyecto.Proc.Table.{find_index, wakeup1, wake}

-- `i` is the first slot that passes the test.
pub record IsFirst (test : Proc → Bool) (ps : List Proc) (i : ℕ) : Type 0 where
  pub slot : Proc
  pub at : get_elem? ps i ≡ some slot
  pub passes : test slot ≡ true
  pub before : (j : ℕ) (q : Proc) → j < i → get_elem? ps j ≡ some q → test q ≡ false

-- No slot passes the test.
abbrev pub NonePass : (Proc → Bool) → List Proc → Type 0
NonePass test ps = (j : ℕ) (q : Proc) → get_elem? ps j ≡ some q → test q ≡ false

-- What a scan with a given result has found.
abbrev pub Found : (Proc → Bool) → List Proc → Option ℕ → Type 0
Found test ps none = NonePass test ps
Found test ps (some i) = IsFirst test ps i

module _ (test : Proc → Bool) where
  Found-here : (p : Proc) (ps : List Proc) → test p ≡ true → IsFirst test (p ∷ ps) 0
  Found-here p ps yes' = record {
    slot = p;
    at = refl;
    passes = yes';
    before = λ j q h e. absurd (omega arith);
  }

  Found-later :
      (p : Proc) (ps : List Proc) (o : Option ℕ)
      → test p ≡ false
      → Found test ps o
      → Found test (p ∷ ps) (Option.map suc o)
  Found-later p ps none no' f = go
    where
      go : NonePass test (p ∷ ps)
      go zero q e = ground arith
      go (suc j) q e = f j q e
  Found-later p ps (some i) no' f = record {
    slot = f.slot;
    at = f.at;
    passes = f.passes;
    before = go;
  }
    where
      go : (j : ℕ) (q : Proc) → j < suc i → get_elem? (p ∷ ps) j ≡ some q → test q ≡ false
      go zero q h e = ground arith
      go (suc j) q h e = f.before j q (omega arith) e

  pub find_index-Found : (ps : List Proc) → Found test ps (find_index test ps)
  unfolding find_index
  find_index-Found [] = λ j q e. absurd (cc)
  find_index-Found (p ∷ ps) = elim (Bool-cases (test p)) [
    | inl y ↦ rw y (Found-here p ps y)
    | inr n ↦ rw n (Found-later p ps (find_index test ps) n (find_index-Found ps))
  ]

  pub find_index-some : (ps : List Proc) (i : ℕ) → find_index test ps ≡ some i → IsFirst test ps i
  find_index-some ps i e = subst (Found test ps) e (find_index-Found ps)

  pub find_index-none : (ps : List Proc) → find_index test ps ≡ none → NonePass test ps
  find_index-none ps e = subst (Found test ps) e (find_index-Found ps)

  -- A slot that passes is reason enough for the scan to find one.
  pub find_index_of_pass :
      (ps : List Proc) (i : ℕ) (p : Proc)
      → get_elem? ps i ≡ some p
      → test p ≡ true
      → (j : ℕ) × (find_index test ps ≡ some j)
  find_index_of_pass ps i p at passes = elim (Option-cases (find_index test ps)) [
    | inl e ↦ let missed : test p ≡ false = find_index-none ps e i p at in absurd (ground arith)
    | inr found' ↦ found'
  ]

  pub find_index_of_none : (ps : List Proc) → NonePass test ps → find_index test ps ≡ none
  find_index_of_none ps empty = elim (Option-cases (find_index test ps)) [
    | inl e ↦ e
    | inr (i, e) ↦
        let first = find_index-some ps i e in
        let missed : test first.slot ≡ false = empty i first.slot first.at in
        let passes : test first.slot ≡ true = first.passes in absurd (ground arith)
  ]

module _ (chan : ℕ) where
  pub get_elem?-wakeup1 :
      (ps : List Proc) (i : ℕ)
      → get_elem? (wakeup1 chan ps) i ≡ Option.map (wake chan) (get_elem? ps i)
  unfolding wakeup1
  get_elem?-wakeup1 [] i = refl
  get_elem?-wakeup1 (p ∷ ps) zero = refl
  get_elem?-wakeup1 (p ∷ ps) (suc i) = get_elem?-wakeup1 ps i

  pub length-wakeup1 : (ps : List Proc) → length (wakeup1 chan ps) ≡ length ps
  unfolding wakeup1
  length-wakeup1 [] = refl
  length-wakeup1 (p ∷ ps) = ap suc (length-wakeup1 ps)

module _ {ℓ} {A : Type ℓ} where
  pub get_elem?-modify_self :
      (xs : List A) (i : ℕ) (f : A → A) {x : A}
      → get_elem? xs i ≡ some x
      → get_elem? (modify xs i f) i ≡ some (f x)
  get_elem?-modify_self [] i f e = absurd (cc)
  get_elem?-modify_self (y ∷ xs) zero f e = ground arith
  get_elem?-modify_self (y ∷ xs) (suc i) f e = get_elem?-modify_self xs i f e

  pub get_elem?-modify_ne :
      (xs : List A) (i j : ℕ) (f : A → A) → i ≢ j → get_elem? (modify xs i f) j ≡ get_elem? xs j
  get_elem?-modify_ne [] i j f h = refl
  get_elem?-modify_ne (x ∷ xs) zero zero f h = absurd (h refl)
  get_elem?-modify_ne (x ∷ xs) zero (suc j) f h = refl
  get_elem?-modify_ne (x ∷ xs) (suc i) zero f h = refl
  get_elem?-modify_ne (x ∷ xs) (suc i) (suc j) f h =
      get_elem?-modify_ne xs i j f (λ e. h (ap suc e))

  pub length-modify : (xs : List A) (i : ℕ) (f : A → A) → length (modify xs i f) ≡ length xs
  length-modify [] i f = refl
  length-modify (x ∷ xs) zero f = refl
  length-modify (x ∷ xs) (suc i) f = ap suc (length-modify xs i f)

module _ {ℓ} {A : Type ℓ} where
  pub modify-modify :
      (xs : List A) (i : ℕ) (f g : A → A) → modify (modify xs i f) i g ≡ modify xs i (λ x. g (f x))
  modify-modify [] i f g = refl
  modify-modify (x ∷ xs) zero f g = refl
  modify-modify (x ∷ xs) (suc i) f g = ap (λ ys. x ∷ ys) (modify-modify xs i f g)

-- A change of a slot that its test does not see leaves the scan's result alone.
pub find_index-modify :
    (test : Proc → Bool) (ps : List Proc) (i : ℕ) (f : Proc → Proc)
    → ((p : Proc) → get_elem? ps i ≡ some p → test (f p) ≡ test p)
    → find_index test (modify ps i f) ≡ find_index test ps
unfolding find_index
find_index-modify test [] i f same = refl
find_index-modify test (p ∷ ps) zero f same = rw (same p refl)
find_index-modify test (p ∷ ps) (suc i) f same = rw (find_index-modify test ps i f same)
