-- ===== src/KnownHosts/Import.antt =====
-- Known hosts from an export: `parse_line`, `merge_lines` and `import_lines` of
-- src-tauri/src/hostkeys.rs.
pub mod Merged
pub mod Pending
pub mod Held
use bifro_ssh.Common.{
  ℕ, zero, ◌+◌, Bool, true, false, ◌&&◌, not, Option, none, some, List, [], ◌∷◌, ◌++◌,
  if◌then◌else◌, find, Text, text_eq, trim, lines, Result, ok, err,
}
use bifro_ssh.KnownHosts.Line.{Codec, algo_from_blob, HostLine, split_line, is_passed_over}
use bifro_ssh.KnownHosts.Check.{Disk, HostError, no_data_dir, append_lines}
use bifro_ssh.KnownHosts.Edit.{line_algo}

pub record ImportedHosts : Type 0 where
  pub added : ℕ
  pub skipped : ℕ
  pub conflicts : List Text

pub record HostEntry : Type 0 where
  pub marker : Option Text
  pub hosts : Text
  pub algo : Text
  pub b64 : Text

unfoldable pub parse_line : Codec → Text → Option HostEntry
parse_line codec line = elim (split_line line) [
  | none ↦ none
  | some l ↦ elim (line_algo codec l.b64) [
    | none ↦ none
    | some algo ↦ some (record { marker = l.marker; hosts = l.hosts; algo = algo; b64 = l.b64 })
  ]
]

abbrev pub add_parsed : Option HostEntry → List HostEntry → List HostEntry
add_parsed none rest = rest
add_parsed (some e) rest = e ∷ rest

-- `filter_map(parse_line)`.
unfoldable pub parse_lines : Codec → List Text → List HostEntry
parse_lines codec [] = []
parse_lines codec (raw ∷ raws) = add_parsed (parse_line codec raw) (parse_lines codec raws)

abbrev pub same_marker : Option Text → Option Text → Bool
same_marker none none = true
same_marker (some a) (some b) = text_eq a b
same_marker _ _ = false

-- The same host by a key of the same type.
unfoldable pub same_slot : HostEntry → HostEntry → Bool
same_slot n e = same_marker e.marker n.marker && text_eq e.hosts n.hosts && text_eq e.algo n.algo

pub record Merge : Type 0 where
  pub held : List HostEntry
  pub report : ImportedHosts
  pub pending : List Text

abbrev pub skip : Merge → Merge
skip m = record m { report = record (m.report) { skipped = m.report.skipped + 1 } }

abbrev pub conflict : Text → Merge → Merge
conflict hosts m = record m {
  report = record (m.report) { conflicts = m.report.conflicts ++ hosts ∷ [] };
}

abbrev pub accept : HostEntry → Text → Merge → Merge
accept entry line m = record {
  held = m.held ++ entry ∷ [];
  report = record (m.report) { added = m.report.added + 1 };
  pending = m.pending ++ line ∷ [];
}

-- The `match` on what is held already.
unfoldable pub merge_entry : HostEntry → Text → Merge → Merge
merge_entry entry line m = elim (find (same_slot entry) m.held) [
  | some e ↦ if text_eq e.b64 entry.b64 then skip m else conflict entry.hosts m
  | none ↦ accept entry line m
]

unfoldable pub merge_line : Codec → Text → Merge → Merge
unfolding merge_entry
merge_line codec raw m =
    let line = trim raw in
    if is_passed_over line
    then m
    else elim (parse_line codec line) [ none ↦ skip m | some entry ↦ merge_entry entry line m ]

unfoldable pub merge_onto : Codec → List Text → Merge → Merge
merge_onto codec [] m = m
merge_onto codec (raw ∷ raws) m = merge_onto codec raws (merge_line codec raw m)

unfoldable pub merge_lines : Codec → Text → List Text → ImportedHosts × List Text
merge_lines codec existing incoming =
    let start : Merge = record {
      held = parse_lines codec (lines existing);
      report = record { added = 0; skipped = 0; conflicts = [] };
      pending = [];
    } in
    let m = merge_onto codec incoming start in (m.report, m.pending)

abbrev pub text_or_empty : Option Text → Text
text_or_empty none = []
text_or_empty (some t) = t

-- Nothing is written where nothing is pending.
unfoldable pub finish_import :
    ImportedHosts → List Text → Disk → Result HostError ImportedHosts × Disk
finish_import report [] disk = (ok report, disk)
finish_import report (line ∷ more) disk =
    let (written, disk') = append_lines disk (line ∷ more) in
    elim written [ ok _ ↦ (ok report, disk') | err e ↦ (err e, disk') ]

unfoldable pub import_lines : Codec → List Text → Disk → Result HostError ImportedHosts × Disk
unfolding finish_import
import_lines codec incoming disk =
    let merged = merge_lines codec (text_or_empty disk.own) incoming in
    if not disk.has_dir then (err no_data_dir, disk) else finish_import merged.0 merged.1 disk
