-- ===== src/Fs/Path/Elements.antt =====
-- The elements of a path, taken off one by one by skipelem, and split off in one pass.
use soproyecto.Common.{
  ℕ, zero, suc, ◌+◌, ◌-◌, ◌<◌, ◌≤◌, ◌≡◌, refl, sym, ap, ◌∙◌, true, false, Bool-cases, inl, inr,
  Option, none, some, List, [], ◌∷◌, ◌++◌, map, length, take, ◌==◌, leb, if◌then◌else◌, arith,
}
use mathlib.Core.List.{append_assoc, append-nil}
use mathlib.Core.Option
use soproyecto.Fs.Directory.{dirsiz}
use soproyecto.Fs.Path.{slash, skip_slashes, skip_name, element, skipelem}

-- The loop that namex makes of skipelem, with fuel for its rounds.
unfoldable pub walk : (rounds : ℕ) → (path : List ℕ) → Option (List (List ℕ))
walk zero path = none
walk (suc n) path = elim (skipelem path) [
  | none ↦ some []
  | some (name, rest) ↦ Option.map (λ l. name ∷ l) (walk n rest)
]

-- An element that is not empty goes in front.
abbrev pub emit : (piece : List ℕ) → List (List ℕ) → List (List ℕ)
emit [] l = l
emit (c ∷ piece) l = (c ∷ piece) ∷ l

-- The pieces between slashes that are not empty; `piece` has been read of the first one.
unfoldable pub pieces : (piece path : List ℕ) → List (List ℕ)
pieces piece [] = emit piece []
pieces piece (c ∷ path) =
    let after = emit piece (pieces [] path) in
    let more = pieces (piece ++ c ∷ []) path in if c == slash then after else more

-- The part of a path before its first slash.
front : List ℕ → List ℕ
front [] = []
front (c ∷ s) = if c == slash then [] else c ∷ front s

front-skip_name : (s : List ℕ) → front s ++ skip_name s ≡ s
unfolding front skip_name
front-skip_name [] = refl
front-skip_name (c ∷ s) = elim (Bool-cases (c == slash)) [
  | inl e ↦ rw e refl
  | inr e ↦ rw e (ap (λ l. c ∷ l) (front-skip_name s))
]

pieces-slash :
    (piece : List ℕ) (c : ℕ) (s : List ℕ)
    → (c == slash) ≡ true
    → pieces piece (c ∷ s) ≡ emit piece (pieces [] s)
unfolding pieces
pieces-slash piece c s e = rw e refl

pieces_char :
    (piece : List ℕ) (c : ℕ) (s : List ℕ)
    → (c == slash) ≡ false
    → pieces piece (c ∷ s) ≡ pieces (piece ++ c ∷ []) s
unfolding pieces
pieces_char piece c s e = rw e refl

pieces_end : (piece : List ℕ) → pieces piece [] ≡ emit piece []
unfolding pieces
pieces_end piece = refl

pieces-front :
    (piece s : List ℕ) → pieces piece s ≡ emit (piece ++ front s) (pieces [] (skip_name s))
unfolding front skip_name
pieces-front piece [] = pieces_end piece ∙ sym (λ i. emit (append-nil piece i) (pieces_end [] i))
pieces-front piece (c ∷ s) = elim (Bool-cases (c == slash)) [
  | inl e ↦
      rw e
        (pieces-slash piece c s e ∙ sym (λ i. emit (append-nil piece i) (pieces-slash [] c s e i)))
  | inr e ↦ rw e (
      pieces_char piece c s e
      ∙ pieces-front (piece ++ c ∷ []) s
      ∙ ap (λ l. emit l (pieces [] (skip_name s))) (append_assoc piece (c ∷ []) (front s)))
]

pieces-skip_slashes : (s : List ℕ) → pieces [] (skip_slashes s) ≡ pieces [] s
unfolding skip_slashes
pieces-skip_slashes [] = refl
pieces-skip_slashes (c ∷ s) = elim (Bool-cases (c == slash)) [
  | inl e ↦ rw e (pieces-skip_slashes s ∙ sym (pieces-slash [] c s e))
  | inr e ↦ rw e refl
]

length-skip_slashes : (s : List ℕ) → length (skip_slashes s) ≤ length s
unfolding skip_slashes
length-skip_slashes [] = omega arith
length-skip_slashes (c ∷ s) = elim (Bool-cases (c == slash)) [
  | inl e ↦ rw e (omega (arith, length-skip_slashes s))
  | inr e ↦ rw e (omega arith)
]

length-skip_name : (s : List ℕ) → length (skip_name s) ≤ length s
unfolding skip_name
length-skip_name [] = omega arith
length-skip_name (c ∷ s) = elim (Bool-cases (c == slash)) [
  | inl e ↦ rw e (omega arith)
  | inr e ↦ rw e (omega (arith, length-skip_name s))
]

module _ {A : Type 0} where
  length-append : (xs ys : List A) → length (xs ++ ys) ≡ length xs + length ys
  length-append [] ys = omega arith
  length-append (x ∷ xs) ys = omega (arith, length-append xs ys)

  take-append : (xs ys : List A) → take (length xs) (xs ++ ys) ≡ xs
  take-append [] ys = refl
  take-append (x ∷ xs) ys = ap (λ l. x ∷ l) (take-append xs ys)

  take-append-le : (n : ℕ) (xs ys : List A) → n ≤ length xs → take n (xs ++ ys) ≡ take n xs
  take-append-le zero xs ys h = refl
  take-append-le (suc n) [] ys h = absurd (omega arith)
  take-append-le (suc n) (x ∷ xs) ys h = ap (λ l. x ∷ l) (take-append-le n xs ys (omega arith))

  take-all : (n : ℕ) (xs : List A) → length xs ≤ n → take n xs ≡ xs
  take-all zero [] h = refl
  take-all zero (x ∷ xs) h = absurd (omega arith)
  take-all (suc n) [] h = refl
  take-all (suc n) (x ∷ xs) h = ap (λ l. x ∷ l) (take-all n xs (omega arith))

-- The name that skipelem copies: the part before the slash, cut at DIRSIZ.
name_lem :
    (s : List ℕ)
    → (let len = length s - length (skip_name s) in
        if leb dirsiz len then take dirsiz s else take len s)
      ≡ take dirsiz (front s)
name_lem s =
    let whole = front-skip_name s in
    let len : length s - length (skip_name s) ≡ length (front s) =
      omega (arith, ap length whole, length-append (front s) (skip_name s)) in
    rw len (elim (Bool-cases (leb dirsiz (length (front s)))) [
      | inl long ↦ rw long (
          ap (take dirsiz) (sym whole)
          ∙ take-append-le dirsiz (front s) (skip_name s) (ground (arith, long)))
      | inr short ↦ rw short (
          ap (take (length (front s))) (sym whole)
          ∙ take-append (front s) (skip_name s)
          ∙ sym (take-all dirsiz (front s) (ground (arith, short))))
    ])

-- Where skip_slashes stops.
NoSlash : List ℕ → Type 0
NoSlash [] = Unit
NoSlash (c ∷ s) = (c == slash) ≡ false

skip_slashes-NoSlash : (s : List ℕ) → NoSlash (skip_slashes s)
unfolding skip_slashes NoSlash
skip_slashes-NoSlash [] = tt
skip_slashes-NoSlash (c ∷ s) = elim (Bool-cases (c == slash)) [
  | inl e ↦ rw e (skip_slashes-NoSlash s)
  | inr e ↦ rw e e
]

-- What is left after an element is shorter.
shorter :
    (c : ℕ) (s : List ℕ)
    → (c == slash) ≡ false
    → length (skip_slashes (skip_name (c ∷ s))) ≤ length s
unfolding skip_name
shorter c s e = rw e (omega (arith, length-skip_slashes (skip_name s), length-skip_name s))

-- The first piece of a path that starts with an element.
pieces_first :
    (c : ℕ) (s : List ℕ)
    → (c == slash) ≡ false
    → pieces [] (c ∷ s) ≡ front (c ∷ s) ∷ pieces [] (skip_slashes (skip_name (c ∷ s)))
unfolding front
pieces_first c s e =
    let some_front : front (c ∷ s) ≡ c ∷ front s = rw e refl in
    pieces-front [] (c ∷ s)
    ∙ (rw some_front (ap (λ l. (c ∷ front s) ∷ l) (sym (pieces-skip_slashes (skip_name (c ∷ s))))))

-- The rest of a round of the walk, from a path without slashes in front.
abbrev walk_on : (n : ℕ) → Option (List ℕ × List ℕ) → Option (List (List ℕ))
walk_on n none = some []
walk_on n (some (name, rest)) = Option.map (λ l. name ∷ l) (walk n rest)

walk_from :
    (n : ℕ) (s : List ℕ)
    → NoSlash s
    → length s ≤ n
    → ((q : List ℕ) → length q < n → walk n q ≡ some (map (take dirsiz) (pieces [] q)))
    → walk_on n (element s) ≡ some (map (take dirsiz) (pieces [] s))
unfolding NoSlash
walk_from n [] stop' h ih = ap (λ l. some (map (take dirsiz) l)) (sym (pieces_end []))
walk_from n (c ∷ s) stop' h ih =
    let rest = skip_slashes (skip_name (c ∷ s)) in
    ap (λ name. Option.map (λ l. name ∷ l) (walk n rest)) (name_lem (c ∷ s))
    ∙ ap (Option.map (λ l. take dirsiz (front (c ∷ s)) ∷ l))
        (ih rest (omega (arith, shorter c s stop', h)))
    ∙ ap (λ l. some (map (take dirsiz) l)) (sym (pieces_first c s stop'))

walk_step :
    (n : ℕ) (o : Option (List ℕ × List ℕ))
    → elim o as (λ o. Option (List (List ℕ))) [
      | none ↦ some []
      | some (name, rest) ↦ Option.map (λ l. name ∷ l) (walk n rest)
    ]
      ≡ walk_on n o
walk_step n none = refl
walk_step n (some (name, rest)) = refl

-- Taking elements off a path with skipelem until none is left gives the pieces between its slashes
-- that are not empty, in order, each cut to 14 bytes; as many rounds as the path has bytes, and
-- one, are enough.
pub walk-pieces :
    (n : ℕ) (path : List ℕ)
    → length path < n
    → walk n path ≡ some (map (take dirsiz) (pieces [] path))
unfolding walk skipelem
walk-pieces zero path h = absurd (omega arith)
walk-pieces (suc n) path h =
    walk_step n (element (skip_slashes path))
    ∙ walk_from n (skip_slashes path) (skip_slashes-NoSlash path)
        (omega (arith, length-skip_slashes path)) (λ q lt. walk-pieces n q lt)
    ∙ ap (λ l. some (map (take dirsiz) l)) (pieces-skip_slashes path)
