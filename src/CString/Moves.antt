-- ===== src/CString/Moves.antt =====
-- memmove copies what stood in the source, also when the two ranges overlap.
use soproyecto.Common.{
  ℕ, zero, suc, ◌+◌, ◌-◌, ◌<◌, ◌≤◌, ◌≡◌, ◌⊎◌, inl, inr, refl, ap, ◌∙◌, ltb, ◌&&◌, Bool-cases, arith,
}
use soproyecto.Machine.{update}
use soproyecto.CString.{copy_down, copy_up, memmove}

-- The address is not among the `n` from `d` on.
abbrev pub Outside : (n d a : ℕ) → Type 0
Outside n d a = (a < d) ⊎ (d + n ≤ a)

update_eq : (m : ℕ → ℕ) (d a v : ℕ) → d ≡ a → update m d v a ≡ v
update_eq m d a v e = ground arith

update_lt : (m : ℕ → ℕ) (d a v : ℕ) → (a < d) ⊎ (d < a) → update m d v a ≡ m a
update_lt m d a v apart = ground (arith, apart)

copy_up-Outside : (n s d : ℕ) (m : ℕ → ℕ) (a : ℕ) → Outside n d a → copy_up n s d m a ≡ m a
unfolding copy_up
copy_up-Outside zero s d m a out = refl
copy_up-Outside (suc n) s d m a out =
    copy_up-Outside n (s + 1) (d + 1) (update m d (m s)) a (ground (arith, out))
    ∙ update_lt m d a (m s) (ground (arith, out))

copy_up-inside :
    (n s d : ℕ) (m : ℕ → ℕ) (i : ℕ)
    → (d ≤ s) ⊎ (s + n ≤ d)
    → i < n
    → copy_up n s d m (d + i) ≡ m (s + i)
unfolding copy_up
copy_up-inside zero s d m i safe h = elim h [ ]
copy_up-inside (suc n) s d m zero safe h =
    let m' = update m d (m s) in
    copy_up-Outside n (s + 1) (d + 1) m' (d + 0) (inl (omega arith))
    ∙ update_eq m d (d + 0) (m s) (omega arith)
    ∙ ap m (omega arith)
copy_up-inside (suc n) s d m (suc i) safe h =
    let m' = update m d (m s) in
    let next : d + suc i ≡ d + 1 + i = omega arith in
    ap (copy_up n (s + 1) (d + 1) m') next
    ∙ copy_up-inside n (s + 1) (d + 1) m' i (ground (arith, safe)) (omega arith)
    ∙ update_lt m d (s + 1 + i) (m s) (ground (arith, safe, h))
    ∙ ap m (omega arith)

-- The step of the downward loop, in terms of where the ranges begin.
down_step :
    (n s d : ℕ) (m : ℕ → ℕ)
    → copy_down (suc n) (s + suc n) (d + suc n) m
      ≡ copy_down n (s + n) (d + n) (update m (d + n) (m (s + n)))
unfolding copy_down
down_step n s d m =
    let back : s + suc n - 1 ≡ s + n = omega arith in
    let back' : d + suc n - 1 ≡ d + n = omega arith in
    ap (λ x. copy_down n x (d + suc n - 1) (update m (d + suc n - 1) (m x))) back
    ∙ ap (λ y. copy_down n (s + n) y (update m y (m (s + n)))) back'

copy_down-Outside :
    (n s d : ℕ) (m : ℕ → ℕ) (a : ℕ) → Outside n d a → copy_down n (s + n) (d + n) m a ≡ m a
unfolding copy_down
copy_down-Outside zero s d m a out = refl
copy_down-Outside (suc n) s d m a out =
    ap (λ f. f a) (down_step n s d m)
    ∙ copy_down-Outside n s d (update m (d + n) (m (s + n))) a (ground (arith, out))
    ∙ update_lt m (d + n) a (m (s + n)) (ground (arith, out))

copy_down-inside :
    (n s d : ℕ) (m : ℕ → ℕ) (i : ℕ)
    → s < d
    → i < n
    → copy_down n (s + n) (d + n) m (d + i) ≡ m (s + i)
copy_down-inside zero s d m i safe h = elim h [ ]
copy_down-inside (suc n) s d m i safe h =
    let m' = update m (d + n) (m (s + n)) in
    ap (λ f. f (d + i)) (down_step n s d m) ∙ elim (Bool-cases (ltb i n)) [
      | inl early ↦
          copy_down-inside n s d m' i safe (ground (arith, early))
          ∙ update_lt m (d + n) (s + i) (m (s + n)) (inl (omega arith))
      | inr late ↦
          let last : i ≡ n = ground (arith, late, h) in
          copy_down-Outside n s d m' (d + i) (inr (omega (arith, last)))
          ∙ update_eq m (d + n) (d + i) (m (s + n)) (omega (arith, last))
          ∙ ap m (omega (arith, last))
    ]

-- After memmove the destination holds the bytes that the source held before, wherever the two
-- ranges lie, and no other byte has changed.
pub memmove_lem :
    (dst src n : ℕ) (m : ℕ → ℕ)
    → ((i : ℕ) → i < n → memmove dst src n m (dst + i) ≡ m (src + i))
      × ((a : ℕ) → Outside n dst a → memmove dst src n m a ≡ m a)
unfolding memmove
memmove_lem dst src n m = elim (Bool-cases (ltb src dst && ltb dst (src + n))) [
  | inl e ↦
      let before : src < dst = ground (arith, e) in
      (
        λ i h. rw e (copy_down-inside n src dst m i before h),
        λ a out. rw e (copy_down-Outside n src dst m a out),
      )
  | inr e ↦
      let safe : (dst ≤ src) ⊎ (src + n ≤ dst) = ground (arith, e) in
      (
        λ i h. rw e (copy_up-inside n src dst m i safe h),
        λ a out. rw e (copy_up-Outside n src dst m a out),
      )
]
