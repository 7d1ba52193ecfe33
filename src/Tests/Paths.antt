-- ===== src/Tests/Paths.antt =====
-- Runs of the paths of fs.c at concrete strings.
use soproyecto.Common.{ℕ, ◌≡◌, refl, some, List, [], ◌∷◌, map, take, arith}
use soproyecto.Fs.Directory.{dirsiz}
use soproyecto.Fs.Path.{skip_slashes, skip_name, skipelem}
use soproyecto.Fs.Path.Elements.{walk, pieces, walk-pieces}

-- "//a/bb"
abbrev path_bytes : List ℕ
path_bytes = b'/' ∷ b'/' ∷ b'a' ∷ b'/' ∷ b'b' ∷ b'b' ∷ []

-- "a/bb/c", of the examples above skipelem
abbrev nested_bytes : List ℕ
nested_bytes = b'a' ∷ b'/' ∷ b'b' ∷ b'b' ∷ b'/' ∷ b'c' ∷ []

pieces_two : pieces [] path_bytes ≡ (b'a' ∷ []) ∷ (b'b' ∷ b'b' ∷ []) ∷ []
unfolding pieces
pieces_two = refl

skipelem_nested : skipelem nested_bytes ≡ some (b'a' ∷ [], b'b' ∷ b'b' ∷ b'/' ∷ b'c' ∷ [])
unfolding skipelem skip_slashes skip_name
skipelem_nested = refl

walk-pieces_example : walk 7 path_bytes ≡ some (map (take dirsiz) (pieces [] path_bytes))
walk-pieces_example = walk-pieces 7 path_bytes (omega arith)
