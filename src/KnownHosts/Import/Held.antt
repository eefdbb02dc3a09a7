-- ===== src/KnownHosts/Import/Held.antt =====
-- What the file holds after an import: `import_lines` of src-tauri/src/hostkeys.rs.
use bifro_ssh.Common.{
  ◌+◌, ◌≡◌, ◌≢◌, refl, sym, ap, ◌∙◌, Bool, true, false, Option, none, some, List, [], ◌∷◌, ◌++◌,
  append-nil, arith, if◌then◌else◌, length, Text, lines, newline, Result, ok, err, All, not,
}
use bifro_ssh.Common.Split.Laws.{HasNo}
use bifro_ssh.KnownHosts.Line.{Codec, HostLine}
use bifro_ssh.KnownHosts.Line.RoundTrip.{entries_of}
use bifro_ssh.KnownHosts.Check.{
  Disk, HostError, no_data_dir, write_failed, protect_failed, appended, append_lines,
}
use bifro_ssh.KnownHosts.Check.Append.{entries, entries-appended}
use bifro_ssh.KnownHosts.Edit.{line_algo}
use bifro_ssh.KnownHosts.Import.{
  ImportedHosts, HostEntry, parse_line, add_parsed, parse_lines, merge_lines, text_or_empty,
  finish_import, import_lines,
}
use bifro_ssh.KnownHosts.Import.Merged.{TakesFreeSlots, counted, merge_lines-TakesFreeSlots}
use bifro_ssh.KnownHosts.Import.Pending.{merge_lines-All}

module _ (codec : Codec) where
  -- The entries of a file, with the types of their keys.
  abbrev pub held_in : Option Text → List HostEntry
  held_in own = parse_lines codec (lines (text_or_empty own))

  abbrev typed : HostLine → Option HostEntry
  typed l = elim (line_algo codec l.b64) [
    | none ↦ none
    | some algo ↦ some (record { marker = l.marker; hosts = l.hosts; algo = algo; b64 = l.b64 })
  ]

  abbrev typed_all : List HostLine → List HostEntry
  typed_all [] = []
  typed_all (l ∷ ls) = add_parsed (typed l) (typed_all ls)

  typed_all-append : (ks ls : List HostLine) → typed_all (ks ++ ls) ≡ typed_all ks ++ typed_all ls
  typed_all-append [] ls = refl
  typed_all-append (k ∷ ks) ls = ground (arith, typed_all-append ks ls)

  parse_lines-entries_of : (raws : List Text) → parse_lines codec raws ≡ typed_all (entries_of raws)
  unfolding parse_lines parse_line entries_of
  parse_lines-entries_of [] = refl
  parse_lines-entries_of (raw ∷ raws) = ground (arith, parse_lines-entries_of raws)

  held_in-entries : (own : Option Text) → held_in own ≡ typed_all (entries own)
  unfolding entries lines entries_of parse_lines
  held_in-entries none = refl
  held_in-entries (some content) = parse_lines-entries_of (lines content)

  held_in-appended :
      (own : Option Text) (added : List Text)
      → All (HasNo newline) added
      → held_in (some (appended own added)) ≡ held_in own ++ parse_lines codec added
  held_in-appended own added h =
      held_in-entries (some (appended own added))
      ∙ ap typed_all (entries-appended own added h)
      ∙ typed_all-append (entries own) (entries_of added)
      ∙ ap (λ es. es ++ typed_all (entries_of added)) (sym (held_in-entries own))
      ∙ ap (λ es. held_in own ++ es) (sym (parse_lines-entries_of added))

  -- A run of `import_lines` that gives `report` leaves these entries in the file.
  abbrev Leaves :
      ImportedHosts
      → List HostEntry
      → Result HostError ImportedHosts × Disk
      → ImportedHosts
      → Type 0
  Leaves report es run given = run.0 ≡ ok given → (given ≡ report) × (held_in run.1.own ≡ es)

  by_write :
      (w p : Bool) (report given : ImportedHosts) (disk disk' : Disk) (es : List HostEntry)
      → held_in disk'.own ≡ es
      → let write : Result HostError (Unit {0}) × Disk =
          if not w
          then (err write_failed, disk)
          else if p
          then (ok tt, disk')
          else (err protect_failed, disk') in
        Leaves report es
          (elim write.0 [ ok _ ↦ (ok report, write.1) | err e ↦ (err e, write.1) ])
          given
  by_write false p report given disk disk' es h e = absurd (cc)
  by_write true false report given disk disk' es h e = absurd (cc)
  by_write true true report given disk disk' es h e = (sym (ap (report_or report) e), h)
    where
      report_or : ImportedHosts → Result HostError ImportedHosts → ImportedHosts
      report_or r (ok a) = a
      report_or r (err _) = r

  finish_import-Leaves :
      (report given : ImportedHosts) (pending : List Text) (disk : Disk)
      → All (HasNo newline) pending
      → Leaves report
          (held_in disk.own ++ parse_lines codec pending)
          (finish_import report pending disk)
          given
  unfolding finish_import append_lines
  finish_import-Leaves report given [] disk h e =
      (cc, unfold parse_lines in sym (append-nil (held_in disk.own)))
  finish_import-Leaves report given (line ∷ more) disk h e =
      by_write disk.can_write disk.can_protect report given disk
        (record disk { own = some (appended disk.own (line ∷ more)) })
        (held_in disk.own ++ parse_lines codec (line ∷ more))
        (held_in-appended disk.own (line ∷ more) h) e

  import_lines-Leaves :
      (incoming : List Text) (disk : Disk) (given : ImportedHosts)
      → All (HasNo newline) incoming
      → let (report, pending) = merge_lines codec (text_or_empty disk.own) incoming in
        Leaves report
          (held_in disk.own ++ parse_lines codec pending)
          (import_lines codec incoming disk)
          given
  unfolding import_lines
  import_lines-Leaves incoming disk given h =
      let (report, pending) = merge_lines codec (text_or_empty disk.own) incoming in
      by_dir (finish_import report pending disk) disk.has_dir (
        finish_import-Leaves report given pending disk
          (merge_lines-All codec (λ c. c ≢ newline) (text_or_empty disk.own) incoming h))
    where
      by_dir :
          {r : ImportedHosts} {es : List HostEntry} (run : Result HostError ImportedHosts × Disk)
          (b : Bool)
          → Leaves r es run given
          → Leaves r es (if not b then (err no_data_dir, disk) else run) given
      by_dir run true k e = k e
      by_dir run false k e = absurd (cc)

  -- An import of strings without line breaks that succeeds: read again, the file holds the entries that it
  -- held, in their order, and behind them those added. Each of these takes a slot that no entry before it
  -- has, a slot being the texts of a marker and of a host field with the type of a key, so a key that is
  -- stored in a slot is neither replaced nor joined by another there. They are as many as are counted as
  -- added, and each incoming string that is neither blank nor a comment is counted once, as added, skipped
  -- or a conflict.
  pub import_lines-TakesFreeSlots :
      (incoming : List Text) (disk : Disk) (report : ImportedHosts)
      → All (HasNo newline) incoming
      → (import_lines codec incoming disk).0 ≡ ok report
      → (added : List HostEntry) × (held_in (import_lines codec incoming disk).1.own
          ≡ held_in disk.own ++ added)
        × TakesFreeSlots (held_in disk.own) added
        × (report.added ≡ length added)
        × (report.added + report.skipped + length report.conflicts ≡ counted codec incoming)
  import_lines-TakesFreeSlots incoming disk report h e =
      let merged = merge_lines codec (text_or_empty disk.own) incoming in
      let (same, kept) = import_lines-Leaves incoming disk report h e in
      let (free, many, all_counted) =
        merge_lines-TakesFreeSlots codec (text_or_empty disk.own) incoming in
      (
        parse_lines codec merged.1,
        kept,
        free,
        ap (λ (r : ImportedHosts). r.added) same ∙ many,
        ap (λ (r : ImportedHosts). r.added + r.skipped + length r.conflicts) same ∙ all_counted,
      )
