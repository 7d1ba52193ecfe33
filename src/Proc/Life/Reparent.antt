-- ===== src/Proc/Life/Reparent.antt =====
-- The loop of exit over the children of the process that ends.
use soproyecto.Common.{
  ℕ, zero, suc, ◌+◌, ◌≡◌, ◌≢◌, refl, sym, ap, ◌∙◌, Bool, true, false, ◌&&◌, Bool-cases, inl, inr,
  Option, none, some, List, [], ◌∷◌, ◌==◌, ltb, leb, arith, get_elem?, if◌then◌else◌,
}
use mathlib.Core.Option
use soproyecto.Proc.Defs.{Proc, zombie, is_state, modify, proc_ptr}
use soproyecto.Proc.Table.{wake, wakeup1, adopt, reparent}
use soproyecto.Proc.Scan.{get_elem?-modify_self, get_elem?-modify_ne, get_elem?-wakeup1}

-- A slot as the scan of parents sees it.
abbrev pub parent_at : List Proc → ℕ → Option ℕ
parent_at ps i = Option.map (λ p. p.parent) (get_elem? ps i)

abbrev pub redirect : ℕ → ℕ → ℕ → ℕ
redirect curproc initproc q = if q == curproc then initproc else q

parent-wake : (chan : ℕ) (p : Proc) → (wake chan p).parent ≡ p.parent
unfolding wake
parent-wake chan p = ground arith

pub parent-wakeup1 :
    (chan : ℕ) (ps : List Proc) (j : ℕ) → parent_at (wakeup1 chan ps) j ≡ parent_at ps j
parent-wakeup1 chan ps j = rw (get_elem?-wakeup1 chan ps j) (go (get_elem? ps j))
  where
    go :
        (o : Option Proc)
        → Option.map (λ p. p.parent) (Option.map (wake chan) o) ≡ Option.map (λ p. p.parent) o
    go none = refl
    go (some p) = ap some (parent-wake chan p)

module _ (curproc initproc : ℕ) where
  abbrev given : List Proc → ℕ → List Proc
  given ps i = modify ps i (λ r. record r { parent = initproc })

  parent-given_self :
      (ps : List Proc) (i : ℕ) {p : Proc}
      → get_elem? ps i ≡ some p
      → parent_at (given ps i) i ≡ some initproc
  parent-given_self ps i at =
      ap (Option.map (λ p. p.parent))
        (get_elem?-modify_self ps i (λ r. record r { parent = initproc }) at)

  parent-given_ne : (ps : List Proc) (i j : ℕ) → i ≢ j → parent_at (given ps i) j ≡ parent_at ps j
  parent-given_ne ps i j apart =
      ap (Option.map (λ p. p.parent))
        (get_elem?-modify_ne ps i j (λ r. record r { parent = initproc }) apart)

  adopted :
      (ps : List Proc) (i j : ℕ) (o : Option Proc)
      → get_elem? ps i ≡ o
      → parent_at (adopt (proc_ptr i) curproc initproc ps o) j ≡ (
          if i == j
          then Option.map (redirect curproc initproc) (parent_at ps j)
          else parent_at ps j)
  unfolding adopt
  adopted ps i j none at = elim (Bool-cases (i == j)) [
    | inl same ↦
        let e : i ≡ j = ground arith in
        let empty : get_elem? ps j ≡ none = ap (get_elem? ps) (sym e) ∙ at in rw (same, empty) refl
    | inr apart ↦ rw apart refl
  ]
  adopted ps i j (some p) at = elim (Bool-cases (p.parent == curproc)) [
    | inl child ↦ rw child (woken (is_state p.state zombie) ∙ moved child)
    | inr other ↦ rw other (stays other)
  ]
    where
      woken :
          (b : Bool)
          → parent_at (if b then wakeup1 initproc (given ps i) else given ps i) j
            ≡ parent_at (given ps i) j
      woken true = parent-wakeup1 initproc (given ps i) j
      woken false = refl

      moved :
          (p.parent == curproc) ≡ true
          → parent_at (given ps i) j ≡ (
              if i == j
              then Option.map (redirect curproc initproc) (parent_at ps j)
              else parent_at ps j)
      moved child = elim (Bool-cases (i == j)) [
        | inl same ↦
            let e : i ≡ j = ground arith in
            let here : get_elem? ps j ≡ some p = ap (get_elem? ps) (sym e) ∙ at in
            rw (same, here, child) (ap (parent_at (given ps i)) (sym e) ∙ parent-given_self ps i at)
        | inr apart ↦ rw apart (parent-given_ne ps i j (ground arith))
      ]

      stays :
          (p.parent == curproc) ≡ false
          → parent_at ps j ≡ (
              if i == j
              then Option.map (redirect curproc initproc) (parent_at ps j)
              else parent_at ps j)
      stays other = elim (Bool-cases (i == j)) [
        | inl same ↦
            let e : i ≡ j = ground arith in
            let here : get_elem? ps j ≡ some p = ap (get_elem? ps) (sym e) ∙ at in
            rw (same, here, other) refl
        | inr apart ↦ rw apart refl
      ]

  -- After `n` rounds from slot `i` on, each slot passed has its parent redirected, and no other
  -- has.
  pub parent-reparent :
      (n i : ℕ) (ps : List Proc) (j : ℕ)
      → parent_at (reparent n (proc_ptr i) curproc initproc ps) j ≡ (
          if leb i j && ltb j (i + n)
          then Option.map (redirect curproc initproc) (parent_at ps j)
          else parent_at ps j)
  unfolding reparent
  parent-reparent zero i ps j = ground arith
  parent-reparent (suc n) i ps j = ground (
    arith,
    parent-reparent n (suc i) (adopt (proc_ptr i) curproc initproc ps (get_elem? ps i)) j,
    adopted ps i j (get_elem? ps i) refl,
  )

-- A slot with a parent on view is a slot.
pub slot_of_parent :
    (ps : List Proc) (i : ℕ) {q : ℕ}
    → parent_at ps i ≡ some q
    → (p : Proc) × (get_elem? ps i ≡ some p)
slot_of_parent ps i e = go (get_elem? ps i) refl
  where
    go : (o : Option Proc) → get_elem? ps i ≡ o → (p : Proc) × (get_elem? ps i ≡ some p)
    go none at = absurd (ground (arith, ap (Option.map (λ p. p.parent)) at))
    go (some p) at = (p, at)

-- A field that neither a wakeup nor a new parent changes.
pub record IsKept {A : Type 0} (g : Proc → A) : Type 0 where
  pub by_wake : (c : ℕ) (p : Proc) → g (wake c p) ≡ g p
  pub by_parent : (i : ℕ) (p : Proc) → g (record p { parent = i }) ≡ g p

module _ {A : Type 0} (g : Proc → A) where
  abbrev pub field_at : List Proc → ℕ → Option A
  field_at ps j = Option.map g (get_elem? ps j)

  pub field-modify :
      (f : Proc → Proc) (ps : List Proc) (i j : ℕ)
      → ((p : Proc) → g (f p) ≡ g p)
      → field_at (modify ps i f) j ≡ field_at ps j
  field-modify f [] i j same = refl
  field-modify f (p ∷ ps) zero zero same = ap some (same p)
  field-modify f (p ∷ ps) zero (suc j) same = refl
  field-modify f (p ∷ ps) (suc i) zero same = refl
  field-modify f (p ∷ ps) (suc i) (suc j) same = field-modify f ps i j same

  pub field-wakeup1 :
      IsKept g → (c : ℕ) (ps : List Proc) (j : ℕ) → field_at (wakeup1 c ps) j ≡ field_at ps j
  field-wakeup1 kept c ps j = rw (get_elem?-wakeup1 c ps j) (go (get_elem? ps j))
    where
      go : (o : Option Proc) → Option.map g (Option.map (wake c) o) ≡ Option.map g o
      go none = refl
      go (some p) = ap some (kept.by_wake c p)

  field-adopt :
      IsKept g
      → (curproc initproc : ℕ) (ps : List Proc) (i : ℕ) (o : Option Proc) (j : ℕ)
      → field_at (adopt (proc_ptr i) curproc initproc ps o) j ≡ field_at ps j
  unfolding adopt
  field-adopt kept curproc initproc ps i none j = refl
  field-adopt kept curproc initproc ps i (some p) j =
      let moved =
        field-modify (λ r. record r { parent = initproc }) ps i j (kept.by_parent initproc) in
      elim (Bool-cases (p.parent == curproc)) [
        | inr other ↦ rw other refl
        | inl child ↦ rw child (elim (Bool-cases (is_state p.state zombie)) [
          | inl dead ↦ rw dead (
              field-wakeup1 kept initproc (modify ps i (λ r. record r { parent = initproc })) j
              ∙ moved)
          | inr lives ↦ rw lives moved
        ])
      ]

  pub field-reparent :
      IsKept g
      → (curproc initproc n i : ℕ) (ps : List Proc) (j : ℕ)
      → field_at (reparent n (proc_ptr i) curproc initproc ps) j ≡ field_at ps j
  unfolding reparent
  field-reparent kept curproc initproc zero i ps j = refl
  field-reparent kept curproc initproc (suc n) i ps j =
      field-reparent kept curproc initproc n (suc i)
        (adopt (proc_ptr i) curproc initproc ps (get_elem? ps i)) j
      ∙ field-adopt kept curproc initproc ps i (get_elem? ps i) j
