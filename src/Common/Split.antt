-- ===== src/Common/Split.antt =====
-- `str` cut into pieces: `lines`, `split_whitespace`, `split`, `split_once`, `rsplit_once`, `join`.
-- Each walk carries the piece that it is in.
pub mod Laws
use Prim.Native.Nat.{ℕ}
use mathlib.Core.Bool.{Bool, true, false}
use mathlib.Core.List.{List, [], ◌∷◌, ◌++◌}
use mathlib.Core.Option.{Option, none, some}
use bifro_ssh.Common.Tests.{◌==◌, if◌then◌else◌}
use bifro_ssh.Common.Str.{Text, is_empty, is_whitespace}

abbrev pub newline : ℕ
newline = 10

abbrev pub carriage_return : ℕ
carriage_return = 13

-- The text without one carriage return at its end.
unfoldable pub strip_cr : Text → Text
strip_cr [] = []
strip_cr (c ∷ []) = if c == carriage_return then [] else c ∷ []
strip_cr (c ∷ d ∷ s) = c ∷ strip_cr (d ∷ s)

unfoldable pub lines_onto : Text → Text → List Text
unfolding strip_cr
lines_onto cur [] = if is_empty cur then [] else cur ∷ []
lines_onto cur (c ∷ s) =
    let ended = strip_cr cur ∷ lines_onto [] s in
    let inside = lines_onto (cur ++ c ∷ []) s in if c == newline then ended else inside

unfoldable pub lines : Text → List Text
unfolding lines_onto
lines = lines_onto []

abbrev pub flush : Text → List Text → List Text
flush cur rest = if is_empty cur then rest else cur ∷ rest

unfoldable pub words_onto : Text → Text → List Text
unfolding is_whitespace
words_onto cur [] = flush cur []
words_onto cur (c ∷ s) =
    let ended = flush cur (words_onto [] s) in
    let inside = words_onto (cur ++ c ∷ []) s in if is_whitespace c then ended else inside

unfoldable pub split_whitespace : Text → List Text
unfolding words_onto
split_whitespace = words_onto []

unfoldable pub split_onto : ℕ → Text → Text → List Text
split_onto sep cur [] = cur ∷ []
split_onto sep cur (c ∷ s) =
    let ended = cur ∷ split_onto sep [] s in
    let inside = split_onto sep (cur ++ c ∷ []) s in if c == sep then ended else inside

unfoldable pub split : ℕ → Text → List Text
unfolding split_onto
split sep = split_onto sep []

-- At the first character that the test accepts.
unfoldable pub split_once_by : (ℕ → Bool) → Text → Option (Text × Text)
split_once_by p [] = none
split_once_by p (c ∷ s) =
    let later : Option (Text × Text) = elim (split_once_by p s) [
      | none ↦ none
      | some (a, b) ↦ some (c ∷ a, b)
    ] in
    if p c then some ([], s) else later

unfoldable pub split_once : ℕ → Text → Option (Text × Text)
unfolding split_once_by
split_once sep = split_once_by (λ c. c == sep)

-- At the last one.
unfoldable pub rsplit_once : ℕ → Text → Option (Text × Text)
rsplit_once sep [] = none
rsplit_once sep (c ∷ s) = elim (rsplit_once sep s) [
  | some (a, b) ↦ some (c ∷ a, b)
  | none ↦ if c == sep then some ([], s) else none
]

unfoldable pub join : Text → List Text → Text
join sep [] = []
join sep (s ∷ []) = s
join sep (s ∷ t ∷ ss) = s ++ (sep ++ join sep (t ∷ ss))

-- Every piece on a line of its own.
unfoldable pub unlines : List Text → Text
unlines [] = []
unlines (s ∷ ss) = s ++ (newline ∷ unlines ss)
