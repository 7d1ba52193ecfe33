-- ===== src/CString/Compare.antt =====
-- memcmp, strncmp and strlen of string.c. A result is the pattern of an int.
use soproyecto.Common.{
  ℕ, zero, suc, ◌+◌, ◌-◌, ◌%◌, ◌^◌, ◌<◌, ◌≡◌, ◌↔◌, inl, inr, refl, ap, sym, ◌∙◌, Bool-cases, ◌&&◌,
  not, ◌==◌, Option, none, some, if◌then◌else◌, arith,
}

-- The difference of two bytes.
abbrev pub byte_diff : (a b : ℕ) → ℕ
byte_diff a b = (a + 2 ^ 32 - b) % 2 ^ 32

unfoldable pub memcmp : (ℕ → ℕ) → (s1 s2 n : ℕ) → ℕ
memcmp m s1 s2 zero = 0
memcmp m s1 s2 (suc n) =
    let rest = memcmp m (s1 + 1) (s2 + 1) n in
    if not (m s1 == m s2) then byte_diff (m s1) (m s2) else rest

unfoldable pub strncmp : (ℕ → ℕ) → (p q n : ℕ) → ℕ
strncmp m p q zero = 0
strncmp m p q (suc n) =
    let rest = strncmp m (p + 1) (q + 1) n in
    if not (m p == 0) && (m p == m q) then rest else byte_diff (m p) (m q)

-- The loop of strlen from the byte `n` on, with fuel.
unfoldable pub strlen : (fuel : ℕ) → (ℕ → ℕ) → (s n : ℕ) → Option ℕ
strlen zero m s n = none
strlen (suc fuel) m s n =
    let rest = strlen fuel m s (n + 1) in if m (s + n) == 0 then some n else rest

-- Steps over the first bytes of two ranges.
later :
    (m : ℕ → ℕ) (s1 s2 i : ℕ) → m (s1 + suc i) ≡ m (s2 + suc i) → m (s1 + 1 + i) ≡ m (s2 + 1 + i)
later m s1 s2 i e =
    let next_1 : s1 + 1 + i ≡ s1 + suc i = omega arith in
    let next_2 : s2 + suc i ≡ s2 + 1 + i = omega arith in ap m next_1 ∙ e ∙ ap m next_2

all_from :
    (m : ℕ → ℕ) (s1 s2 n : ℕ)
    → m s1 ≡ m s2
    → ((i : ℕ) → i < n → m (s1 + 1 + i) ≡ m (s2 + 1 + i))
    → (i : ℕ) → i < suc n
    → m (s1 + i) ≡ m (s2 + i)
all_from m s1 s2 n head tail zero h =
    let first_1 : s1 + 0 ≡ s1 = omega arith in
    let first_2 : s2 ≡ s2 + 0 = omega arith in ap m first_1 ∙ head ∙ ap m first_2
all_from m s1 s2 n head tail (suc i) h =
    let next_1 : s1 + suc i ≡ s1 + 1 + i = omega arith in
    let next_2 : s2 + 1 + i ≡ s2 + suc i = omega arith in
    ap m next_1 ∙ tail i (omega arith) ∙ ap m next_2

-- memcmp gives 0 just for ranges with the same bytes.
pub memcmp_iff :
    (m : ℕ → ℕ) (s1 s2 n : ℕ)
    → ((a : ℕ) → m a < 256)
    → (memcmp m s1 s2 n ≡ 0) ↔ ((i : ℕ) → i < n → m (s1 + i) ≡ m (s2 + i))
unfolding memcmp
memcmp_iff m s1 s2 zero bytes = (λ e i h. absurd (omega arith), λ all. refl)
memcmp_iff m s1 s2 (suc n) bytes =
    let (equal, zero_of) = memcmp_iff m (s1 + 1) (s2 + 1) n bytes in
    let first_1 : s1 + 0 ≡ s1 = omega arith in
    let first_2 : s2 + 0 ≡ s2 = omega arith in
    elim (Bool-cases (m s1 == m s2)) [
      | inl same ↦
          let head : m s1 ≡ m s2 = ground (arith, same) in
          rw same (
            λ e i h. all_from m s1 s2 n head (equal e) i h,
            λ all. zero_of (λ i h. later m s1 s2 i (all (suc i) (omega arith))),
          )
      | inr other ↦ rw other (
        λ e i h. absurd (ground (arith, e, other, bytes (s1), bytes (s2))),
        λ all.
            absurd (ground (arith, other, ap m (sym first_1) ∙ all 0 (omega arith) ∙ ap m first_2)),
      )
    ]
