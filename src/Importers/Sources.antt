-- ===== src/Importers/Sources.antt =====
-- Which client wrote a file, and its reader: src-tauri/src/importers/mod.rs. No result at all is a panic.
use bifro_ssh.Common.{
  Option, none, some, List, [], ◌∷◌, if◌then◌else◌, Text, Bytes, Result, ok, err,
}
use bifro_ssh.Importers.{Source, termius, putty, mobaxterm, ForeignScan, decode}
use bifro_ssh.Importers.Termius
use bifro_ssh.Importers.MobaXterm
use bifro_ssh.Importers.Putty
use bifro_ssh.Importers.Putty.Hosts

pub data ImportError : Type 0 where
  unknown_client no_sessions : ImportError
  bad_csv : Termius.CsvError → ImportError

abbrev of_putty : Option ForeignScan → Result ImportError ForeignScan
of_putty none = err no_sessions
of_putty (some scan) = ok scan

abbrev of_termius : Result Termius.CsvError ForeignScan → Result ImportError ForeignScan
of_termius (err why) = err (bad_csv why)
of_termius (ok scan) = ok scan

module _ (to_lowercase : Text → Text) where
  unfoldable pub sniff : Bytes → Option Source
  unfolding decode Putty.looks_like MobaXterm.looks_like Termius.looks_like
  sniff bytes =
      let text = decode bytes in
      if Putty.looks_like bytes
      then some putty
      else if MobaXterm.looks_like text
      then some mobaxterm
      else if Termius.looks_like to_lowercase text
      then some termius
      else none

  unfoldable pub parse : Bytes → Option (Result ImportError ForeignScan)
  unfolding sniff decode Hosts.parse MobaXterm.parse Termius.parse
  parse bytes = elim (sniff bytes) [
    | none ↦ some (err unknown_client)
    | some putty ↦ elim (Hosts.parse bytes) [ none ↦ none | some scan ↦ some (of_putty scan) ]
    | some mobaxterm ↦ some (ok (MobaXterm.parse (decode bytes)))
    | some termius ↦ some (of_termius (Termius.parse to_lowercase (decode bytes)))
  ]

-- The files of a directory of PuTTY's, by name.
unfoldable pub dir_found : Hosts.Found → List (Text × Bytes) → Option Hosts.Found
unfolding decode Hosts.parse_session
dir_found found [] = some found
dir_found found ((name, bytes) ∷ more) = elim (Hosts.parse_session (decode bytes) (some name)) [
  | none ↦ none
  | some r ↦ dir_found (Hosts.add found r) more
]

unfoldable pub parse_putty_dir : List (Text × Bytes) → Option ForeignScan
unfolding dir_found
parse_putty_dir files = elim (dir_found ([], []) files) [
  | none ↦ none
  | some (hosts, skipped) ↦ some (record { source = putty; hosts = hosts; skipped = skipped })
]
