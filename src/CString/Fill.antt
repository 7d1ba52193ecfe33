-- ===== src/CString/Fill.antt =====
-- memset and strncpy of string.c, with stosb and stosl of x86.h.
use soproyecto.Common.{
  ℕ, zero, suc, ◌+◌, ◌*◌, ◌/◌, ◌%◌, ◌^◌, ◌<◌, ◌≡◌, inl, inr, refl, ap, sym, ◌∙◌, Bool-cases, ◌&&◌,
  ◌==◌, if◌then◌else◌, arith,
}
use soproyecto.Machine.{update, update_self, update_ne}
use soproyecto.CString.{memmove}
use soproyecto.CString.Moves.{Outside}

unfoldable pub stosb : (dst c n : ℕ) → (ℕ → ℕ) → ℕ → ℕ
stosb dst c zero m = m
stosb dst c (suc n) m = stosb (dst + 1) c n (update m dst (c % 2 ^ 8))

-- The four bytes of a word, the lowest one first.
abbrev pub write_word : (dst w : ℕ) → (ℕ → ℕ) → ℕ → ℕ
write_word dst w m =
    update
      (update (update (update m dst (w % 256)) (dst + 1) (w / 256 % 256)) (dst + 2)
        (w / 65536 % 256))
      (dst + 3) (w / 16777216 % 256)

unfoldable pub stosl : (dst w n : ℕ) → (ℕ → ℕ) → ℕ → ℕ
stosl dst w zero m = m
stosl dst w (suc n) m = stosl (dst + 4) w n (write_word dst w m)

-- `(c<<24)|(c<<16)|(c<<8)|c`, for a byte
abbrev pub four_times : ℕ → ℕ
four_times c = c * 16777216 + c * 65536 + c * 256 + c

unfoldable pub memset : (dst c n : ℕ) → (ℕ → ℕ) → ℕ → ℕ
memset dst c n m =
    if (dst % 4 == 0) && (n % 4 == 0)
    then stosl dst (four_times (c % 2 ^ 8)) (n / 4) m
    else stosb dst c n m

unfoldable pub memcpy : (dst src n : ℕ) → (ℕ → ℕ) → ℕ → ℕ
memcpy dst src n m = memmove dst src n m

-- `while (n-- > 0) *s++ = 0;`
unfoldable pub pad : (n s : ℕ) → (ℕ → ℕ) → ℕ → ℕ
pad zero s m = m
pad (suc n) s m = pad n (s + 1) (update m s 0)

unfoldable pub strncpy : (s t n : ℕ) → (ℕ → ℕ) → ℕ → ℕ
strncpy s t zero m = m
strncpy s t (suc n) m =
    let m' = update m s (m t) in
    let rest = strncpy (s + 1) (t + 1) n m' in if m t == 0 then pad n (s + 1) m' else rest

-- A store of four equal bytes is four stores of a byte.
write_word-four :
    (dst c : ℕ) (m : ℕ → ℕ)
    → c < 256
    → write_word dst (four_times c) m
      ≡ update (update (update (update m dst c) (dst + 1) c) (dst + 2) c) (dst + 3) c
write_word-four dst c m small =
    let b₀ : four_times c % 256 ≡ c = omega arith in
    let b₁ : four_times c / 256 % 256 ≡ c = omega arith in
    let b₂ : four_times c / 65536 % 256 ≡ c = omega arith in
    let b₃ : four_times c / 16777216 % 256 ≡ c = omega arith in rw (b₀, b₁, b₂, b₃) refl

stosb_four :
    (dst c n : ℕ) (m : ℕ → ℕ)
    → stosb dst c (suc (suc (suc (suc n)))) m
      ≡ stosb (dst + 4) c n (
          let b = c % 2 ^ 8 in
          update (update (update (update m dst b) (dst + 1) b) (dst + 2) b) (dst + 3) b)
unfolding stosb
stosb_four dst c n m =
    let b = c % 2 ^ 8 in
    let two : dst + 1 + 1 ≡ dst + 2 = omega arith in
    let three : dst + 1 + 1 + 1 ≡ dst + 3 = omega arith in
    let four : dst + 1 + 1 + 1 + 1 ≡ dst + 4 = omega arith in
    λ i.
      stosb (four i) c n
        (update (update (update (update m dst b) (dst + 1) b) (two i) b) (three i) b)

-- So stosl fills as stosb does.
stosl-stosb :
    (dst c n : ℕ) (m : ℕ → ℕ) → stosl dst (four_times (c % 2 ^ 8)) n m ≡ stosb dst c (n * 4) m
unfolding stosl stosb
stosl-stosb dst c zero m = refl
stosl-stosb dst c (suc n) m =
    let count : suc n * 4 ≡ suc (suc (suc (suc (n * 4)))) = omega arith in
    ap (stosl (dst + 4) (four_times (c % 2 ^ 8)) n)
      (write_word-four dst (c % 2 ^ 8) m (omega arith))
    ∙ stosl-stosb (dst + 4) c n _
    ∙ sym (ap (λ j. stosb dst c j m) count ∙ stosb_four dst c (n * 4) m)

stosb-Outside : (dst c n : ℕ) (m : ℕ → ℕ) (a : ℕ) → Outside n dst a → stosb dst c n m a ≡ m a
unfolding stosb
stosb-Outside dst c zero m a out = refl
stosb-Outside dst c (suc n) m a out =
    stosb-Outside (dst + 1) c n (update m dst (c % 2 ^ 8)) a (ground (arith, out))
    ∙ update_ne m dst a (c % 2 ^ 8) (λ e. ground (arith, out, e))

stosb-inside : (dst c n : ℕ) (m : ℕ → ℕ) (i : ℕ) → i < n → stosb dst c n m (dst + i) ≡ c % 2 ^ 8
unfolding stosb
stosb-inside dst c zero m i h = absurd (omega arith)
stosb-inside dst c (suc n) m zero h =
    let first : dst + 0 ≡ dst = omega arith in
    stosb-Outside (dst + 1) c n (update m dst (c % 2 ^ 8)) (dst + 0) (inl (omega arith))
    ∙ ap (update m dst (c % 2 ^ 8)) first
    ∙ update_self m dst (c % 2 ^ 8)
stosb-inside dst c (suc n) m (suc i) h =
    let next : dst + suc i ≡ dst + 1 + i = omega arith in
    ap (stosb (dst + 1) c n (update m dst (c % 2 ^ 8))) next
    ∙ stosb-inside (dst + 1) c n (update m dst (c % 2 ^ 8)) i (omega arith)

memset-stosb : (dst c n : ℕ) (m : ℕ → ℕ) → memset dst c n m ≡ stosb dst c n m
unfolding memset
memset-stosb dst c n m = elim (Bool-cases ((dst % 4 == 0) && (n % 4 == 0))) [
  | inl words ↦
      let even : n / 4 * 4 ≡ n = ground (arith, words) in
      rw words (stosl-stosb dst c (n / 4) m ∙ ap (λ j. stosb dst c j m) even)
  | inr bytes ↦ rw bytes refl
]

-- memset gives each of the `n` bytes from `dst` on the low byte of `c`, by words or by bytes, and
-- leaves every other byte alone.
pub memset_lem :
    (dst c n : ℕ) (m : ℕ → ℕ)
    → ((i : ℕ) → i < n → memset dst c n m (dst + i) ≡ c % 2 ^ 8)
      × ((a : ℕ) → Outside n dst a → memset dst c n m a ≡ m a)
memset_lem dst c n m = (
  λ i h. ap (λ g. g (dst + i)) (memset-stosb dst c n m) ∙ stosb-inside dst c n m i h,
  λ a out. ap (λ g. g a) (memset-stosb dst c n m) ∙ stosb-Outside dst c n m a out,
)
