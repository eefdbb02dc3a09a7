-- ===== src/Importers/Csv.antt =====
-- The reader of CSV: src-tauri/src/importers/csvfile.rs.
pub mod Printed
use bifro_ssh.Common.{
  ℕ, Bool, true, false, ◌&&◌, not, List, [], ◌∷◌, ◌++◌, if◌then◌else◌, any, is_empty, ◌==◌, Text,
  trim, trim_start_by,
}

abbrev pub quote : ℕ
quote = 34

abbrev pub comma : ℕ
comma = 44

-- Where the loop stands: whether it is inside quotes, the rows, the row, and the field.
pub record Reader : Type 0 where
  pub quoted : Bool
  pub rows : List (List Text)
  pub row : List Text
  pub field : Text

abbrev pub push : Reader → ℕ → Reader
push r c = record r { field = r.field ++ c ∷ [] }

-- The next field of the row.
abbrev pub next_field : Reader → Reader
next_field r = record r { row = r.row ++ r.field ∷ []; field = [] }

abbrev pub set_quoted : Reader → Bool → Reader
set_quoted r q = record r { quoted = q }

abbrev pub has_content : List Text → Bool
has_content row = any (λ f. not (is_empty (trim f))) row

unfoldable pub end_row : Reader → Reader
unfolding trim
end_row r =
    let row = r.row ++ r.field ∷ [] in
    record r { rows = if has_content row then r.rows ++ row ∷ [] else r.rows; row = []; field = [] }

-- What a character outside quotes does, except that a carriage return takes a line feed with it.
unfoldable pub plain : Reader → ℕ → Reader
unfolding end_row
plain r c =
    if c == quote && is_empty r.field
    then set_quoted r true
    else if c == comma
    then next_field r
    else if c == 13
    then end_row r
    else if c == 10
    then end_row r
    else push r c

-- The loop. A quote inside quotes is looked at with the character after it, and so is a carriage return
-- outside them.
unfoldable pub read : Reader → Text → Reader
unfolding plain end_row
read r [] = r
read r (c ∷ []) = elim r.quoted [
  | true ↦ if c == quote then set_quoted r false else push r c
  | false ↦ plain r c
]
read r (c ∷ d ∷ s) = elim r.quoted [
  | true ↦ elim (c == quote) [
    | true ↦ elim (d == quote) [
      | true ↦ read (push r quote) s
      | false ↦ read (set_quoted r false) (d ∷ s)
    ]
    | false ↦ read (push r c) (d ∷ s)
  ]
  | false ↦ elim (c == 13 && d == 10) [
    | true ↦ read (plain r c) s
    | false ↦ read (plain r c) (d ∷ s)
  ]
]

abbrev empty_reader : Reader
empty_reader = record { quoted = false; rows = []; row = []; field = [] }

unfoldable pub rows : Text → List (List Text)
unfolding read end_row
rows text = (end_row (read empty_reader (trim_start_by (λ c. c == 0xfeff) text))).rows
