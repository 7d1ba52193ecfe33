-- ===== src/Tests/Strings.antt =====
-- memmove on ranges that overlap.
use soproyecto.Common.{ℕ, ◌+◌, ◌<◌, ◌≡◌}
use soproyecto.CString.{memmove}
use soproyecto.CString.Moves.{Outside, memmove_lem}

memmove_lem_example :
    ((i : ℕ) → i < 3 → memmove 11 10 3 (λ a. a) (11 + i) ≡ 10 + i)
    × ((a : ℕ) → Outside 3 11 a → memmove 11 10 3 (λ a. a) a ≡ a)
memmove_lem_example = memmove_lem 11 10 3 (λ a. a)
