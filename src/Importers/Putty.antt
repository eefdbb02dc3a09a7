-- ===== src/Importers/Putty.antt =====
-- The sessions of PuTTY: src-tauri/src/importers/putty.rs. Where the source slices a text inside a
-- character, which panics, there is no result.
pub mod Hosts
use bifro_ssh.Common.{
  ℕ, zero, suc, ◌+◌, ◌-◌, ◌*◌, ◌^◌, Bool, true, false, ◌&&◌, ◌||◌, not, Option, none, some, List,
  [], ◌∷◌, ◌++◌, if◌then◌else◌, is_empty, is_some, ◌==◌, leb, Text, Bytes, codes, text_eq, trim,
  trim_by, trim_end_by, lines, split_once, strip_prefix, starts_with, show, as_bytes, hex_pair,
  parse_hex_below, Result, ok, err,
}
use mathlib.Core.List.{reverse}
use bifro_ssh.Importers.{
  Source, putty, ForeignHost, ForeignScan, decode, port_or_default, non_empty, eq_ignore_ascii_case,
}

abbrev pub sessions : Text
sessions = codes "\\SimonTatham\\PuTTY\\Sessions\\"

-- What stands before the first occurrence of a part, and after it.
unfoldable pub split_at : Text → Text → Option (Text × Text)
unfolding strip_prefix
split_at part [] = none
split_at part (c ∷ s) = elim (strip_prefix part (c ∷ s)) [
  | some rest ↦ some ([], rest)
  | none ↦ elim (split_at part s) [ none ↦ none | some (before, rest) ↦ some (c ∷ before, rest) ]
]

abbrev pub has_sessions : Text → Bool
has_sessions text = is_some (split_at sessions text)

-- `split(part).nth(1)`.
abbrev pub second_piece : Text → Text → Option Text
second_piece part text = elim (split_at part text) [
  | none ↦ none
  | some (before, rest) ↦ elim (split_at part rest) [
    | none ↦ some rest
    | some (piece, after) ↦ some piece
  ]
]

abbrev is_high : ℕ → Bool
is_high u = leb 0xd800 u && leb u 0xdbff

abbrev is_low : ℕ → Bool
is_low u = leb 0xdc00 u && leb u 0xdfff

abbrev or_replaced : ℕ → ℕ
or_replaced u = if is_high u || is_low u then 0xfffd else u

-- `String::from_utf16_lossy`.
unfoldable pub from_utf16_lossy : List ℕ → Text
from_utf16_lossy [] = []
from_utf16_lossy (u ∷ []) = or_replaced u ∷ []
from_utf16_lossy (u ∷ v ∷ rest) = elim (is_high u && is_low v) [
  | true ↦ (0x10000 + (u - 0xd800) * 1024 + (v - 0xdc00)) ∷ from_utf16_lossy rest
  | false ↦ or_replaced u ∷ from_utf16_lossy (v ∷ rest)
]

-- The units of two bytes, the low one first; an odd byte at the end is dropped.
unfoldable pub units : Bytes → List ℕ
units (lo ∷ hi ∷ rest) = (hi * 256 + lo) ∷ units rest
units _ = []

unfoldable pub decode_utf16_or_else : Bytes → Text
unfolding decode from_utf16_lossy units
decode_utf16_or_else (a ∷ b ∷ rest) =
    if a == 0xff && b == 0xfe then from_utf16_lossy (units rest) else decode (a ∷ b ∷ rest)
decode_utf16_or_else bytes = decode bytes

abbrev starts_section : Text → Bool
starts_section [] = false
starts_section (c ∷ _) = c == b'['

abbrev key_of : Text → Text
key_of line = elim (split_once b'=' line) [ none ↦ [] | some (key, value) ↦ trim key ]

unfoldable pub has_settings : Bool → Bool → List Text → Bool
unfolding split_once trim text_eq
has_settings has_host has_protocol [] = has_host && has_protocol
has_settings has_host has_protocol (line ∷ more) =
    let later =
      has_settings (has_host || text_eq (key_of line) (codes "HostName"))
        (has_protocol || text_eq (key_of line) (codes "Protocol")) more in
    if starts_section line then false else later

unfoldable pub is_session_file : Text → Bool
unfolding lines has_settings
is_session_file text = has_settings false false (lines text)

unfoldable pub looks_like : Bytes → Bool
unfolding decode_utf16_or_else split_at is_session_file
looks_like bytes =
    let text = decode_utf16_or_else bytes in has_sessions text || is_session_file text

unfoldable pub is_lone_session : Bytes → Bool
unfolding decode_utf16_or_else split_at is_session_file
is_lone_session bytes =
    let text = decode_utf16_or_else bytes in not (has_sessions text) && is_session_file text

abbrev pub prepend : ℕ → Option Text → Option Text
prepend c none = none
prepend c (some s) = some (c ∷ s)

-- Whether these bytes go on with a character that began before them.
abbrev is_inside : Bytes → Bool
is_inside [] = false
is_inside (b ∷ _) = leb 0x80 b && leb b 0xbf

-- The loop over the bytes, each of which becomes the character with its number.
unfoldable pub unescape_bytes : Bytes → Option Text
unescape_bytes [] = some []
unescape_bytes (c ∷ []) = some (c ∷ [])
unescape_bytes (c ∷ d ∷ []) = some (c ∷ d ∷ [])
unescape_bytes (c ∷ h ∷ l ∷ rest) = elim (c == b'%') [
  | false ↦ prepend c (unescape_bytes (h ∷ l ∷ rest))
  | true ↦ elim (is_inside rest) [
    | true ↦ none
    | false ↦ elim (hex_pair h l) [
      | some byte ↦ prepend byte (unescape_bytes rest)
      | none ↦ prepend c (unescape_bytes (h ∷ l ∷ rest))
    ]
  ]
]

unfoldable pub unescape_name : Text → Option Text
unfolding as_bytes unescape_bytes
unescape_name name = unescape_bytes (as_bytes name)

unfoldable pub unescape_string : Text → Text
unescape_string [] = []
unescape_string (c ∷ []) = if c == 92 then [] else c ∷ []
unescape_string (c ∷ d ∷ s) = elim (c == 92) [
  | true ↦ d ∷ unescape_string s
  | false ↦ c ∷ unescape_string (d ∷ s)
]

abbrev without_last : Text → Text
without_last s = elim (reverse s) [ [] ↦ [] | _ ∷ init ↦ reverse init ]

abbrev is_quote : Text → Bool
is_quote s = elim s [ [] ↦ false | c ∷ _ ↦ c == 34 ]

abbrev shown : Option ℕ → Text
shown none = []
shown (some n) = show n

abbrev unquoted : Text → Text
unquoted [] = []
unquoted (c ∷ s) =
    if c == 34 && is_quote (reverse s) then unescape_string (without_last s) else c ∷ s

unfoldable pub reg_value : Text → Text
unfolding strip_prefix parse_hex_below trim unescape_string show
reg_value raw = elim (strip_prefix (codes "dword:") raw) [
  | some hex ↦ shown (parse_hex_below (2 ^ 32) (trim hex))
  | none ↦ unquoted (trim raw)
]

pub record Settings : Type 0 where
  pub host : Option Text
  pub port : Option Text
  pub username : Option Text
  pub protocol : Option Text

abbrev pub no_settings : Settings
no_settings = record { host = none; port = none; username = none; protocol = none }

unfoldable pub take_setting : Settings → Text → Text → Settings
unfolding text_eq reg_value
take_setting s key raw =
    let value = non_empty (reg_value raw) in
    if text_eq key (codes "HostName")
    then record s { host = value }
    else if text_eq key (codes "PortNumber")
    then record s { port = value }
    else if text_eq key (codes "UserName")
    then record s { username = value }
    else if text_eq key (codes "Protocol")
    then record s { protocol = value }
    else s
