-- ===== src/Importers.antt =====
-- Saved hosts of other clients: src-tauri/src/importers. Here are what a reader gives and the texts of a
-- file; each client has a module of its own.
pub mod Csv
pub mod Termius
pub mod MobaXterm
pub mod Putty
pub mod Sources
use bifro_ssh.Common.{
  ℕ, zero, suc, ◌+◌, ◌-◌, ◌*◌, ◌^◌, Bool, true, false, ◌&&◌, Option, none, some, List, [], ◌∷◌,
  ◌++◌, map, if◌then◌else◌, ◌==◌, leb, get_elem?, Text, Bytes, trim, trim_start_by, parse_u16,
  from_utf8, text_eq, strip_prefix, length,
}

pub data Source : Type 0 where
  termius putty mobaxterm : Source

pub record ForeignHost : Type 0 where
  pub name : Text
  pub host : Text
  pub port : ℕ
  pub username : Option Text
  pub password : Option Text
  pub group : Option Text
  pub tags : List Text
  pub notes : Option Text

pub record ForeignScan : Type 0 where
  pub source : Source
  pub hosts : List ForeignHost
  pub skipped : List Text

-- The characters of Windows-1252 from 0x80 on.
abbrev high : List ℕ
high =
    0x20ac ∷ 0x81 ∷ 0x201a ∷ 0x192 ∷ 0x201e ∷ 0x2026 ∷ 0x2020 ∷ 0x2021 ∷ 0x2c6 ∷ 0x2030 ∷ 0x160
    ∷ 0x2039 ∷ 0x152 ∷ 0x8d ∷ 0x17d ∷ 0x8f ∷ 0x90 ∷ 0x2018 ∷ 0x2019 ∷ 0x201c ∷ 0x201d ∷ 0x2022
    ∷ 0x2013 ∷ 0x2014 ∷ 0x2dc ∷ 0x2122 ∷ 0x161 ∷ 0x203a ∷ 0x153 ∷ 0x9d ∷ 0x17e ∷ 0x178 ∷ []

abbrev or_else : ℕ → Option ℕ → ℕ
or_else n none = n
or_else n (some m) = m

unfoldable pub cp1252_char : ℕ → ℕ
cp1252_char b = if leb 0x80 b && leb b 0x9f then or_else b (get_elem? high (b - 0x80)) else b

unfoldable pub decode : Bytes → Text
unfolding from_utf8 trim_start_by cp1252_char
decode bytes = elim (from_utf8 bytes) [
  | some text ↦ trim_start_by (λ c. c == 0xfeff) text
  | none ↦ map cp1252_char bytes
]

unfoldable pub port_or_default : Text → ℕ
unfolding trim
port_or_default raw = or_else 22 (parse_u16 (trim raw))

-- `Option::filter`, for the texts that are not empty.
abbrev pub non_empty : Text → Option Text
non_empty [] = none
non_empty (c ∷ s) = some (c ∷ s)

abbrev pub ascii_lower : ℕ → ℕ
ascii_lower c = if leb b'A' c && leb c b'Z' then c + 32 else c

abbrev pub eq_ignore_ascii_case : Text → Text → Bool
eq_ignore_ascii_case a b = text_eq (map ascii_lower a) (map ascii_lower b)

-- `str::replace`, past the `skip` characters that were replaced already.
unfoldable pub replace_from : Text → Text → ℕ → Text → Text
unfolding strip_prefix
replace_from pattern to skip [] = []
replace_from pattern to (suc skip) (c ∷ s) = replace_from pattern to skip s
replace_from pattern to zero (c ∷ s) = elim (strip_prefix pattern (c ∷ s)) [
  | some _ ↦ to ++ replace_from pattern to (length pattern - 1) s
  | none ↦ c ∷ replace_from pattern to zero s
]

abbrev pub replace : Text → Text → Text → Text
replace pattern to s = replace_from pattern to 0 s
