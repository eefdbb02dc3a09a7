-- ===== src/Importers/MobaXterm.antt =====
-- The sessions of MobaXterm: src-tauri/src/importers/mobaxterm.rs.
use bifro_ssh.Common.{
  ℕ, Bool, true, false, ◌||◌, not, Option, none, some, List, [], ◌∷◌, ◌++◌, map, if◌then◌else◌, any,
  is_empty, get_elem?, ◌==◌, Text, codes, text_eq, trim, trim_start_by, trim_end_by, lines, split,
  split_once, strip_prefix, starts_with, carriage_return,
}
use mathlib.Core.List.{reverse}
use bifro_ssh.Importers.{
  mobaxterm, ForeignHost, ForeignScan, port_or_default, non_empty, replace, replace_from,
}

-- `strip_suffix` of one character.
abbrev pub strip_last : ℕ → Text → Option Text
strip_last c s = elim (reverse s) [
  | [] ↦ none
  | d ∷ init ↦ if d == c then some (reverse init) else none
]

-- The name of the section that the line begins, in brackets.
unfoldable pub section_of : Text → Option Text
section_of [] = none
section_of (c ∷ s) = if c == b'[' then strip_last b']' s else none

unfoldable pub is_bookmarks : Text → Bool
unfolding text_eq strip_prefix
is_bookmarks section =
    text_eq section (codes "Bookmarks") || starts_with (codes "Bookmarks_") section

abbrev is_bookmarks_line : Text → Bool
is_bookmarks_line line = elim (section_of line) [
  | none ↦ false
  | some section ↦ is_bookmarks section
]

unfoldable pub looks_like : Text → Bool
unfolding lines trim section_of is_bookmarks
looks_like text = any (λ line. is_bookmarks_line (trim line)) (lines text)

unfoldable pub unescape : Text → Text
unfolding replace_from
unescape value = replace (codes "__PIPE__") (codes "|") (
    replace (codes "__DBLQUO__") (codes "\"")
      (replace (codes "__PTVIRG__") (codes ";") (replace (codes "__DIEZE__") (codes "#") value)))

abbrev slash : ℕ → ℕ
slash c = if c == 92 then b'/' else c

unfoldable pub folder_path : Text → Option Text
unfolding trim unescape
folder_path raw = elim (non_empty (unescape (trim raw))) [
  | none ↦ none
  | some path ↦ some (map slash path)
]

abbrev port_of : Option Text → ℕ
port_of none = 22
port_of (some p) = port_or_default p

-- `<default>` is no user.
abbrev user_of : Option Text → Option Text
user_of none = none
user_of (some u) =
    let name = unescape (trim u) in
    if is_empty name || text_eq name (codes "<default>") then none else some name

-- What a line is: a host, a sentence on why it is none, or no bookmark at all.
pub data Bookmark : Type 0 where
  host_of : ForeignHost → Bookmark
  skipped_as : Text → Bookmark
  no_bookmark : Bookmark

abbrev address_of : List Text → Option Text
address_of [] = none
address_of (h ∷ _) = non_empty (trim h)

-- By the fields after the type.
unfoldable pub bookmark_fields : Text → List Text → Option Text → Bookmark
unfolding unescape trim port_or_default text_eq
bookmark_fields name fields folder = elim (address_of fields) [
  | none ↦ skipped_as (name ++ codes " has no address")
  | some host ↦ host_of (record {
    name = name;
    host = unescape host;
    port = port_of (get_elem? fields 1);
    username = user_of (get_elem? fields 2);
    password = none;
    group = folder;
    tags = [];
    notes = none;
  })
]

unfoldable pub bookmark : Text → Text → Option Text → Bookmark
unfolding unescape trim trim_start_by split_once split bookmark_fields text_eq
bookmark raw_name value folder =
    let name = unescape raw_name in
    elim (split_once b'#' (trim_start_by (λ c. c == b'#') value)) [
      | none ↦ no_bookmark
      | some (icon, rest) ↦ elim (split b'%' rest) [
        | [] ↦ no_bookmark
        | kind ∷ fields ↦
            if text_eq (trim kind) (codes "0")
            then bookmark_fields name fields folder
            else skipped_as (name ++ codes " is not an ssh session")
      ]
    ]

-- The folder of the section, whether it holds bookmarks, and what was found so far.
pub record Found : Type 0 where
  pub folder : Option Text
  pub in_bookmarks : Bool
  pub hosts : List ForeignHost
  pub skipped : List Text

abbrev add : Found → Bookmark → Found
add f (host_of host) = record f { hosts = f.hosts ++ host ∷ [] }
add f (skipped_as why) = record f { skipped = f.skipped ++ why ∷ [] }
add f no_bookmark = f

unfoldable pub read_entry : Found → Text → Text → Found
unfolding text_eq folder_path bookmark
read_entry f key value =
    if text_eq key (codes "SubRep")
    then record f { folder = folder_path value }
    else if text_eq key (codes "ImgNum")
    then f
    else add f (bookmark key value f.folder)

abbrev starts_comment : Text → Bool
starts_comment [] = true
starts_comment (c ∷ _) = c == b';'

unfoldable pub read_line : Found → Text → Found
unfolding section_of is_bookmarks split_once read_entry
read_line f line = elim (section_of line) [
  | some section ↦ record f { in_bookmarks = is_bookmarks section; folder = none }
  | none ↦
      if not f.in_bookmarks || starts_comment line
      then f
      else elim (split_once b'=' line) [ none ↦ f | some (key, value) ↦ read_entry f key value ]
]

unfoldable pub read_lines : Found → List Text → Found
unfolding read_line trim
read_lines f [] = f
read_lines f (line ∷ more) =
    read_lines (read_line f (trim (trim_end_by (λ c. c == carriage_return) line))) more

unfoldable pub parse : Text → ForeignScan
unfolding read_lines lines
parse text =
    let start : Found = record { folder = none; in_bookmarks = false; hosts = []; skipped = [] } in
    let found = read_lines start (lines text) in
    record { source = mobaxterm; hosts = found.hosts; skipped = found.skipped }
