-- ===== src/Models/History.antt =====
-- Commands and tags, in src-tauri/src/models.rs: `remember_commands`, `normalize_tags`, `env_pairs`.
pub mod Recent
pub mod Tags
use bifro_ssh.Common.{
  ℕ, Bool, true, false, ◌&&◌, ◌||◌, not, Option, none, some, List, [], ◌∷◌, ◌++◌, if◌then◌else◌,
  any, all, is_empty, ◌==◌, leb, length, take, Text, codes, text_eq, starts_with, trim,
  trim_start_by, trim_end_by, is_whitespace, is_digit, lines, split_once, carriage_return,
}

abbrev pub history_cap : ℕ
history_cap = 500

-- `retain(|c| c != command)`.
unfoldable pub without : Text → List Text → List Text
without command [] = []
without command (c ∷ cs) =
    let rest = without command cs in if text_eq c command then rest else c ∷ rest

unfoldable pub remember_onto : List Text → List Text → List Text
remember_onto history [] = history
remember_onto history (command ∷ commands) =
    remember_onto (command ∷ without command history) commands

unfoldable pub remember_commands : List Text → List Text → List Text
remember_commands history commands = take history_cap (remember_onto history commands)

abbrev pub max_tags : ℕ
max_tags = 20

abbrev pub max_tag_len : ℕ
max_tag_len = 32

unfoldable pub trim_end : Text → Text
trim_end = trim_end_by is_whitespace

abbrev pub cut_tag : Text → Text
cut_tag tag = trim_end (take max_tag_len (trim tag))

module _ (to_lowercase : Text → Text) where
  -- The same tag but for case.
  abbrev pub same_tag : Text → Text → Bool
  same_tag tag t = text_eq (to_lowercase t) (to_lowercase tag)

  -- The loop; `out` is what is kept so far. Past the last one it breaks off.
  unfoldable pub tags_onto : List Text → List Text → List Text
  tags_onto out [] = out
  tags_onto out (raw ∷ raws) =
      let tag = cut_tag raw in
      let next = tags_onto out raws in
      let kept = tags_onto (out ++ tag ∷ []) raws in
      if is_empty tag || any (same_tag tag) out
      then next
      else if length out == max_tags
      then out
      else kept

  unfoldable pub normalize_tags : List Text → List Text
  normalize_tags = tags_onto []

abbrev is_name_char : ℕ → Bool
is_name_char c = is_digit c || (leb b'a' c && leb c b'z') || (leb b'A' c && leb c b'Z') || c == b'_'

abbrev digit_first : Text → Bool
digit_first [] = false
digit_first (c ∷ _) = is_digit c

unfoldable pub is_env_name : Text → Bool
is_env_name name = not (is_empty name) && not (digit_first name) && all is_name_char name

unfoldable pub env_line : Text → Option (Text × Text)
env_line raw =
    let line = trim_end_by (λ c. c == carriage_return) (trim_start_by is_whitespace raw) in
    if is_empty line || starts_with (codes "#") line then none else elim (split_once b'=' line) [
      | none ↦ none
      | some (name, value) ↦
          if is_env_name (trim_end name) then some (trim_end name, value) else none
    ]

unfoldable pub env_pairs_of : List Text → List (Text × Text)
env_pairs_of [] = []
env_pairs_of (raw ∷ raws) = elim (env_line raw) [
  | none ↦ env_pairs_of raws
  | some p ↦ p ∷ env_pairs_of raws
]

unfoldable pub env_pairs : Text → List (Text × Text)
env_pairs text = env_pairs_of (lines text)
