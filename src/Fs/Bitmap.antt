-- ===== src/Fs/Bitmap.antt =====
-- The bits of the free map of fs.c.
use soproyecto.Common.{
  ℕ, zero, suc, ◌+◌, ◌*◌, ◌/◌, ◌%◌, ◌^◌, ◌≡◌, ◌≢◌, refl, sym, ap, ◌∙◌, subst, true, false,
  Bool-cases, inl, inr, ◌==◌, arith,
}
use native.Mathlib.Nat.{div-div-eq-div-mul}
use soproyecto.Fs.{is_used, mark, unmark}

div-two : (v j : ℕ) → v / 2 ^ suc j ≡ v / 2 / 2 ^ j
div-two v j =
    let twice : 2 ^ suc j ≡ 2 * 2 ^ j = omega arith in
    ap (λ x. v / x) twice ∙ sym (div-div-eq-div-mul v 2 (2 ^ j))

-- A bit that is 0 is set by adding its power of two.
set_bit : (k v : ℕ) → v / 2 ^ k % 2 ≡ 0 → (v + 2 ^ k) / 2 ^ k % 2 ≡ 1
set_bit zero v h = omega (arith, h)
set_bit (suc k) v h =
    let twice : (v + 2 ^ suc k) / 2 ≡ v / 2 + 2 ^ k = omega arith in
    ap (λ x. x % 2) (div-two (v + 2 ^ suc k) k ∙ ap (λ x. x / 2 ^ k) twice)
    ∙ set_bit k (v / 2) (ap (λ x. x % 2) (sym (div-two v k)) ∙ h)

other_bit : (k j v : ℕ) → v / 2 ^ k % 2 ≡ 0 → k ≢ j → (v + 2 ^ k) / 2 ^ j % 2 ≡ v / 2 ^ j % 2
other_bit zero zero v h apart = absurd (apart refl)
other_bit zero (suc j) v h apart =
    let same : (v + 2 ^ 0) / 2 ≡ v / 2 = omega (arith, h) in
    ap (λ x. x % 2) (div-two (v + 2 ^ 0) j ∙ ap (λ x. x / 2 ^ j) same ∙ sym (div-two v j))
other_bit (suc k) zero v h apart = omega arith
other_bit (suc k) (suc j) v h apart =
    let twice : (v + 2 ^ suc k) / 2 ≡ v / 2 + 2 ^ k = omega arith in
    ap (λ x. x % 2) (div-two (v + 2 ^ suc k) j ∙ ap (λ x. x / 2 ^ j) twice)
    ∙ other_bit k j (v / 2) (ap (λ x. x % 2) (sym (div-two v k)) ∙ h) (λ e. apart (ap suc e))
    ∙ ap (λ x. x % 2) (sym (div-two v j))

bit_clear :
    (bytes : ℕ → ℕ) (bi : ℕ) → is_used bytes bi ≡ false → bytes (bi / 8) / 2 ^ (bi % 8) % 2 ≡ 0
bit_clear bytes bi h = ground (arith, h)

pub is_used-mark :
    (bytes : ℕ → ℕ) (bi : ℕ) → is_used bytes bi ≡ false → is_used (mark bi bytes) bi ≡ true
is_used-mark bytes bi free =
    let self : mark bi bytes (bi / 8) ≡ bytes (bi / 8) + 2 ^ (bi % 8) = ground arith in
    rw self (ap (λ x. x == 1) (set_bit (bi % 8) (bytes (bi / 8)) (bit_clear bytes bi free)))

pub is_used-mark_ne :
    (bytes : ℕ → ℕ) (bi bj : ℕ)
    → is_used bytes bi ≡ false
    → bi ≢ bj
    → is_used (mark bi bytes) bj ≡ is_used bytes bj
is_used-mark_ne bytes bi bj free apart = elim (Bool-cases (bi / 8 == bj / 8)) [
  | inl e ↦
      let at : bi / 8 ≡ bj / 8 = ground (arith, e) in
      let here : mark bi bytes (bj / 8) ≡ bytes (bj / 8) + 2 ^ (bi % 8) =
        rw e (ap (λ x. bytes x + 2 ^ (bi % 8)) at) in
      rw here (
        ap (λ x. x == 1)
          (other_bit (bi % 8) (bj % 8) (bytes (bj / 8))
            (subst (λ x. bytes x / 2 ^ (bi % 8) % 2 ≡ 0) at (bit_clear bytes bi free))
            (λ same. apart (omega (arith, at, same)))))
  | inr o ↦ rw o refl
]

-- Taking a bit back undoes the mark.
pub unmark-mark : (bytes : ℕ → ℕ) (bi x : ℕ) → unmark bi (mark bi bytes) x ≡ bytes x
unmark-mark bytes bi x = elim (Bool-cases (bi / 8 == x)) [
  | inl e ↦
      let self : mark bi bytes (bi / 8) ≡ bytes (bi / 8) + 2 ^ (bi % 8) = ground arith in
      let at : bi / 8 ≡ x = ground (arith, e) in rw (e, self) (omega arith ∙ ap bytes at)
  | inr o ↦ rw o refl
]
