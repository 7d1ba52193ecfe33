-- ===== src/Bestfit/Members.antt =====
-- The nodes of a tree after bst_insert.
use soproyecto.Common.{ℕ, ◌≡◌, ◌⊎◌, inl, inr, sym, subst, ◌∙◌, Bool-cases}
use soproyecto.Bestfit.Tree.{Node, goes_left}
use soproyecto.Bestfit.Shape.{Tree, leaf, node, In, Distinct}
use soproyecto.Bestfit.Insert.{insert_tree}

module _ (m : ℕ → Node) (addr size new : ℕ) where
  -- The pointers of the new tree are those of the old one and the new one.
  pub In-insert_tree :
      (t : Tree) (y : ℕ) → In y (insert_tree m addr size new t) → In y t ⊎ (y ≡ new)
  In-insert_tree leaf y (inl h) = elim h [ ]
  In-insert_tree leaf y (inr (inl e)) = inr e
  In-insert_tree leaf y (inr (inr h)) = elim h [ ]
  In-insert_tree (node l x r) y h = elim (Bool-cases (goes_left addr size (m x))) [
    | inl e ↦ left (In-insert_tree l y) (rw e at h)
    | inr e ↦ right (In-insert_tree r y) (rw e at h)
  ]
    where
      left :
          (In y (insert_tree m addr size new l) → In y l ⊎ (y ≡ new))
          → In y (insert_tree m addr size new l) ⊎ ((y ≡ x) ⊎ In y r)
          → In y (node l x r) ⊎ (y ≡ new)
      left again (inr g) = inl (inr g)
      left again (inl g) = elim (again g) [ inl a ↦ inl (inl a) | inr a ↦ inr a ]

      right :
          (In y (insert_tree m addr size new r) → In y r ⊎ (y ≡ new))
          → In y l ⊎ ((y ≡ x) ⊎ In y (insert_tree m addr size new r))
          → In y (node l x r) ⊎ (y ≡ new)
      right again (inl g) = inl (inl g)
      right again (inr (inl g)) = inl (inr (inl g))
      right again (inr (inr g)) = elim (again g) [ inl a ↦ inl (inr (inr a)) | inr a ↦ inr a ]

  pub insert_tree-In :
      (t : Tree) (y : ℕ) → In y t ⊎ (y ≡ new) → In y (insert_tree m addr size new t)
  insert_tree-In leaf y (inl h) = elim h [ ]
  insert_tree-In leaf y (inr e) = inr (inl e)
  insert_tree-In (node l x r) y h = elim (Bool-cases (goes_left addr size (m x))) [
    | inl e ↦ rw e (left (insert_tree-In l y) h)
    | inr e ↦ rw e (right (insert_tree-In r y) h)
  ]
    where
      left :
          (In y l ⊎ (y ≡ new) → In y (insert_tree m addr size new l))
          → In y (node l x r) ⊎ (y ≡ new)
          → In y (insert_tree m addr size new l) ⊎ ((y ≡ x) ⊎ In y r)
      left again (inl (inl g)) = inl (again (inl g))
      left again (inl (inr g)) = inr g
      left again (inr g) = inl (again (inr g))

      right :
          (In y r ⊎ (y ≡ new) → In y (insert_tree m addr size new r))
          → In y (node l x r) ⊎ (y ≡ new)
          → In y l ⊎ ((y ≡ x) ⊎ In y (insert_tree m addr size new r))
      right again (inl (inl g)) = inl g
      right again (inl (inr (inl g))) = inr (inl g)
      right again (inl (inr (inr g))) = inr (inr (again (inl g)))
      right again (inr g) = inr (inr (again (inr g)))

  pub Distinct-insert_tree :
      (t : Tree) → Distinct t → ¬ In new t → Distinct (insert_tree m addr size new t)
  Distinct-insert_tree leaf d fresh = ((λ y h. absurd h), (λ y h. absurd h), tt, tt)
  Distinct-insert_tree (node l x r) d fresh = elim (Bool-cases (goes_left addr size (m x))) [
    | inl e ↦ rw e (
      (λ y h. elim (In-insert_tree l y h) [
        | inl g ↦ d.0 y g
        | inr g ↦ (
          (λ f. fresh (inr (inl (sym g ∙ f)))),
          (λ f. fresh (inr (inr (subst (λ z. In z r) g f)))),
        )
      ]),
      d.1,
      Distinct-insert_tree l d.2 (λ f. fresh (inl f)),
      d.3,
    )
    | inr e ↦ rw e (
      (λ y h. (
        (d.0 y h).0,
        λ f. elim (In-insert_tree r y f) [
          | inl g ↦ (d.0 y h).1 g
          | inr g ↦ fresh (inl (subst (λ z. In z l) g h))
        ],
      )),
      (λ y h. elim (In-insert_tree r y h) [
        | inl g ↦ d.1 y g
        | inr g ↦ λ f. fresh (inr (inl (sym g ∙ f)))
      ]),
      d.2,
      Distinct-insert_tree r d.3 (λ f. fresh (inr (inr f))),
    )
  ]
