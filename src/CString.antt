-- ===== src/CString.antt =====
-- safestrcpy of string.c, over lists of bytes, and memmove, over a memory of bytes.
pub mod Moves
pub mod Fill
pub mod Compare
use soproyecto.Machine.{update}
use soproyecto.Common.{◌+◌, ◌-◌, ◌&&◌, ltb, ℕ, zero, suc, List, [], ◌∷◌, ◌==◌, if◌then◌else◌}

-- `*s = 0`
abbrev pub terminate : List ℕ → List ℕ
terminate [] = []
terminate (x ∷ s) = 0 ∷ s

-- `while (--n > 0 && (*s++ = *t++) != 0); *s = 0;` with `n` the count after the first `--n`. The
-- write past the end of either list, which C leaves undefined, changes nothing.
copy_bytes : ℕ → List ℕ → List ℕ → List ℕ
copy_bytes zero s t = terminate s
copy_bytes (suc n) [] t = []
copy_bytes (suc n) (x ∷ s) [] = x ∷ s
copy_bytes (suc n) (x ∷ s) (b ∷ t) =
    let rest = copy_bytes n s t in b ∷ (if b == 0 then terminate s else rest)

unfoldable pub safestrcpy : List ℕ → List ℕ → ℕ → List ℕ
unfolding copy_bytes
safestrcpy s t zero = s
safestrcpy s t (suc n) = copy_bytes n s t

-- `while (n-- > 0) *--d = *--s;`
unfoldable pub copy_down : (n s d : ℕ) → (ℕ → ℕ) → ℕ → ℕ
copy_down zero s d m = m
copy_down (suc n) s d m = copy_down n (s - 1) (d - 1) (update m (d - 1) (m (s - 1)))

-- `while (n-- > 0) *d++ = *s++;`
unfoldable pub copy_up : (n s d : ℕ) → (ℕ → ℕ) → ℕ → ℕ
copy_up zero s d m = m
copy_up (suc n) s d m = copy_up n (s + 1) (d + 1) (update m d (m s))

-- The memory after memmove. Addresses do not wrap around, which C leaves undefined.
unfoldable pub memmove : (dst src n : ℕ) → (ℕ → ℕ) → ℕ → ℕ
memmove dst src n m =
    if ltb src dst && ltb dst (src + n)
    then copy_down n (src + n) (dst + n) m
    else copy_up n src dst m
