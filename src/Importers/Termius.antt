-- ===== src/Importers/Termius.antt =====
-- The CSV of Termius: src-tauri/src/importers/termius.rs. The lower case of a text is a parameter.
pub mod Rows
use bifro_ssh.Common.{
  ℕ, zero, suc, Bool, true, false, ◌&&◌, ◌||◌, not, Option, none, some, List, [], ◌∷◌, ◌++◌, map,
  if◌then◌else◌, any, get_elem?, Text, codes, text_eq, trim, split, Result, ok, err,
}
use bifro_ssh.Models.History.{normalize_tags}
use bifro_ssh.Importers.{
  Source, termius, ForeignHost, ForeignScan, port_or_default, non_empty, eq_ignore_ascii_case,
}
use bifro_ssh.Importers.Csv.{comma, rows}

abbrev pub group_names : List Text
group_names = codes "groups" ∷ codes "group" ∷ codes "folder" ∷ codes "folders" ∷ []

abbrev pub label_names : List Text
label_names = codes "label" ∷ codes "name" ∷ codes "alias" ∷ codes "title" ∷ []

abbrev pub address_names : List Text
address_names =
    codes "address" ∷ codes "hostname" ∷ codes "host" ∷ codes "ip" ∷ codes "ip address" ∷ []

abbrev pub port_names : List Text
port_names = codes "port" ∷ []

abbrev pub username_names : List Text
username_names = codes "username" ∷ codes "user" ∷ codes "login" ∷ []

abbrev pub password_names : List Text
password_names = codes "password" ∷ codes "pass" ∷ []

abbrev pub tags_names : List Text
tags_names = codes "tags" ∷ codes "tag" ∷ []

abbrev pub protocol_names : List Text
protocol_names = codes "protocol" ∷ []

-- `Iterator::position` of a name that is wanted.
abbrev pub is_wanted : List Text → Text → Bool
is_wanted wanted name = any (λ w. text_eq w name) wanted

unfoldable pub position : List Text → List Text → Option ℕ
unfolding text_eq
position wanted [] = none
position wanted (name ∷ names) =
    let later = position wanted names in
    if is_wanted wanted name then some 0 else elim later [ none ↦ none | some i ↦ some (suc i) ]

-- The cell, trimmed, unless it is blank.
unfoldable pub cell : List Text → Option ℕ → Option Text
unfolding trim
cell row none = none
cell row (some i) = elim (get_elem? row i) [ none ↦ none | some f ↦ non_empty (trim f) ]

abbrev pub or : {A : Type 0} → Option A → A → A
or none b = b
or (some a) b = a

abbrev pub or_else : Option Text → Option Text → Option Text
or_else none o = o
or_else (some a) o = some a

abbrev pub wrong_kind : Option Text → Option Text
wrong_kind none = none
wrong_kind (some kind) = if eq_ignore_ascii_case kind (codes "ssh") then none else some kind

pub data CsvError : Type 0 where
  empty_csv no_address_column : CsvError

module _ (to_lowercase : Text → Text) where
  unfoldable pub header_of : List Text → List Text
  unfolding trim
  header_of row = map (λ f. to_lowercase (trim f)) row

  abbrev pub has : List Text → List Text → Bool
  has names wanted = any (is_wanted wanted) names

  unfoldable pub looks_like : Text → Bool
  unfolding rows header_of text_eq
  looks_like text = elim (rows text) [
    | [] ↦ false
    | first ∷ _ ↦
        let names = header_of first in
        has names address_names
        && (has names label_names
            || has names group_names
            || has names username_names
            || has names port_names)
  ]

  abbrev pub tags_of : Option Text → List Text
  tags_of none = []
  tags_of (some t) = normalize_tags to_lowercase (split comma t)

  abbrev pub port_of : Option Text → ℕ
  port_of none = 22
  port_of (some p) = port_or_default p

  -- A host, or the sentence on a row that is skipped, by the protocol that is not ssh and the address.
  unfoldable pub host_or_why :
      List Text → List Text → Option Text → Option Text → Result Text ForeignHost
  unfolding position cell port_or_default normalize_tags split
  host_or_why header row (some kind) address = err (
      or (or_else (cell row (position label_names header)) address) (codes "A row")
      ++ codes " is "
      ++ kind
      ++ codes ", not ssh")
  host_or_why header row none none =
      err (or (cell row (position label_names header)) (codes "A row") ++ codes " has no address")
  host_or_why header row none (some host) = ok (record {
    name = or (cell row (position label_names header)) host;
    host = host;
    port = port_of (cell row (position port_names header));
    username = cell row (position username_names header);
    password = cell row (position password_names header);
    group = cell row (position group_names header);
    tags = tags_of (cell row (position tags_names header));
    notes = none;
  })

  unfoldable pub parse_row : List Text → List Text → Result Text ForeignHost
  unfolding position cell text_eq host_or_why
  parse_row header row =
      host_or_why header row (wrong_kind (cell row (position protocol_names header)))
        (cell row (position address_names header))

  abbrev pub add_row :
      Result Text ForeignHost → List ForeignHost × List Text → List ForeignHost × List Text
  add_row (ok host) (hosts, skipped) = (host ∷ hosts, skipped)
  add_row (err why) (hosts, skipped) = (hosts, why ∷ skipped)

  -- The loop over the rows.
  unfoldable pub parse_rows : List Text → List (List Text) → List ForeignHost × List Text
  unfolding parse_row
  parse_rows header [] = ([], [])
  parse_rows header (row ∷ more) = add_row (parse_row header row) (parse_rows header more)

  abbrev pub scan_of : List ForeignHost × List Text → ForeignScan
  scan_of (hosts, skipped) = record { source = termius; hosts = hosts; skipped = skipped }

  -- The rows below the header, when it names an address.
  unfoldable pub parse_table : Option ℕ → List Text → List (List Text) → Result CsvError ForeignScan
  unfolding parse_rows
  parse_table none header more = err no_address_column
  parse_table (some _) header more = ok (scan_of (parse_rows header more))

  unfoldable pub parse_all : List (List Text) → Result CsvError ForeignScan
  unfolding header_of parse_table position
  parse_all [] = err empty_csv
  parse_all (first ∷ more) =
      let header = header_of first in parse_table (position address_names header) header more

  unfoldable pub parse : Text → Result CsvError ForeignScan
  unfolding rows parse_all
  parse text = parse_all (rows text)
