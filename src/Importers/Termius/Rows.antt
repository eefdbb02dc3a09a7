-- ===== src/Importers/Termius/Rows.antt =====
-- What becomes of the rows of a file of Termius.
use bifro_ssh.Common.{
  ℕ, ◌+◌, ◌≡◌, ◌≢◌, refl, Option, none, some, List, [], ◌∷◌, Text, All, length, arith, Result, ok,
  err, trim, get_elem?,
}
use mathlib.Core.Path.{subst}
use bifro_ssh.Importers.{ForeignHost, ForeignScan, non_empty}
use bifro_ssh.Importers.Csv.{rows}
use bifro_ssh.Importers.Termius.{
  cell, position, add_row, parse_row, parse_rows, host_or_why, parse_table, parse_all, scan_of,
  parse, header_of, address_names, protocol_names, wrong_kind,
}

module _ (to_lowercase : Text → Text) where
  -- Each row is a host or a sentence, and each host has an address.
  abbrev pub Accounts : List (List Text) → List ForeignHost × List Text → Type 0
  Accounts table (hosts, skipped) =
      (length hosts + length skipped ≡ length table) × All (λ h. h.host ≢ []) hosts

  abbrev HasAddress : Result Text ForeignHost → Type 0
  HasAddress (ok host) = host.host ≢ []
  HasAddress (err why) = Unit

  cell-ne : (row : List Text) (at : Option ℕ) (text : Text) → cell row at ≡ some text → text ≢ []
  unfolding cell
  cell-ne row none text e = absurd (ground (arith, e))
  cell-ne row (some i) text e = by_cell (get_elem? row i) e
    where
      by_text : (t : Text) → non_empty t ≡ some text → text ≢ []
      by_text [] e = absurd (ground (arith, e))
      by_text (c ∷ t) e = λ z. ground (arith, e, z)

      by_cell :
          (o : Option Text)
          → elim o [ none ↦ none | some f ↦ non_empty (trim f) ] ≡ some text
          → text ≢ []
      by_cell none e = absurd (ground (arith, e))
      by_cell (some f) e = by_text (trim f) e

  host_or_why-HasAddress :
      (header row : List Text) (kind address : Option Text)
      → cell row (position address_names header) ≡ address
      → HasAddress (host_or_why to_lowercase header row kind address)
  unfolding host_or_why
  host_or_why-HasAddress header row (some kind) address e = tt
  host_or_why-HasAddress header row none none e = tt
  host_or_why-HasAddress header row none (some host) e =
      cell-ne row (position address_names header) host e

  parse_row-HasAddress : (header row : List Text) → HasAddress (parse_row to_lowercase header row)
  unfolding parse_row
  parse_row-HasAddress header row =
      host_or_why-HasAddress header row (wrong_kind (cell row (position protocol_names header)))
        (cell row (position address_names header)) refl

  add_row-Accounts :
      (table : List (List Text)) (row : List Text) (r : Result Text ForeignHost)
      (rest : List ForeignHost × List Text)
      → HasAddress r
      → Accounts table rest
      → Accounts (row ∷ table) (add_row to_lowercase r rest)
  add_row-Accounts table row (ok host) (hosts, skipped) a (n, h) = (omega arith, (a, h))
  add_row-Accounts table row (err why) (hosts, skipped) a (n, h) = (omega arith, h)

  parse_rows-Accounts :
      (header : List Text) (table : List (List Text))
      → Accounts table (parse_rows to_lowercase header table)
  unfolding parse_rows
  parse_rows-Accounts header [] = (refl, tt)
  parse_rows-Accounts header (row ∷ table) =
      add_row-Accounts table row (parse_row to_lowercase header row)
        (parse_rows to_lowercase header table) (parse_row-HasAddress header row)
        (parse_rows-Accounts header table)

  -- The rows of a file: a header, and a table that the scan accounts for.
  abbrev pub AccountsFor : List (List Text) → ForeignScan → Type 0
  AccountsFor all scan =
      (first : List Text) × (table : List (List Text)) × (all ≡ first ∷ table)
      × (length scan.hosts + length scan.skipped ≡ length table)
      × All (λ h. h.host ≢ []) scan.hosts

  parse_table-AccountsFor :
      (at : Option ℕ) (header first : List Text) (table : List (List Text)) (scan : ForeignScan)
      → parse_table to_lowercase at header table ≡ ok scan
      → AccountsFor (first ∷ table) scan
  unfolding parse_table
  parse_table-AccountsFor none header first table scan e = absurd (ground (arith, e))
  parse_table-AccountsFor (some i) header first table scan e =
      let same : scan_of to_lowercase (parse_rows to_lowercase header table) ≡ scan =
        ground (arith, e) in
      let (n, h) = parse_rows-Accounts header table in
      subst (AccountsFor (first ∷ table)) same (first, table, refl, n, h)

  parse_all-AccountsFor :
      (all : List (List Text)) (scan : ForeignScan)
      → parse_all to_lowercase all ≡ ok scan
      → AccountsFor all scan
  unfolding parse_all
  parse_all-AccountsFor [] scan e = absurd (ground (arith, e))
  parse_all-AccountsFor (first ∷ table) scan e =
      let header = header_of to_lowercase first in
      parse_table-AccountsFor (position address_names header) header first table scan e

-- What is read from a file accounts for each of its rows below the header, as a host or as a sentence on
-- why it is none, and no host is without an address.
pub parse-AccountsFor :
    (to_lowercase : Text → Text) (text : Text) (scan : ForeignScan)
    → parse to_lowercase text ≡ ok scan
    → AccountsFor to_lowercase (rows text) scan
unfolding parse
parse-AccountsFor to_lowercase text scan = parse_all-AccountsFor to_lowercase (rows text) scan
