-- ===== src/KnownHosts/Import/Merged.antt =====
-- What an import adds, and what it reports.
use bifro_ssh.Common.{
  ℕ, ◌+◌, ◌≡◌, refl, sym, ◌∙◌, inl, inr, true, false, none, some, List, [], ◌∷◌, ◌++◌, append-nil,
  append_assoc, arith, if◌then◌else◌, Bool-cases, Option-cases, length, length-append, find, Text,
  text_eq, trim, lines,
}
use bifro_ssh.KnownHosts.Line.{Codec, is_passed_over}
use bifro_ssh.KnownHosts.Import.{
  HostEntry, parse_line, parse_lines, same_slot, Merge, skip, conflict, accept, merge_entry,
  merge_line, merge_onto, merge_lines,
}

-- No entry takes a slot, a marker with a host and a key type, that is held or taken before it.
abbrev pub TakesFreeSlots : List HostEntry → List HostEntry → Type 0
TakesFreeSlots held [] = Unit
TakesFreeSlots held (e ∷ es) = (find (same_slot e) held ≡ none) × TakesFreeSlots (held ++ e ∷ []) es

TakesFreeSlots-concat :
    (es held : List HostEntry) (e : HostEntry)
    → TakesFreeSlots held es
    → find (same_slot e) (held ++ es) ≡ none
    → TakesFreeSlots held (es ++ e ∷ [])
TakesFreeSlots-concat [] held e h k = (rw append-nil at k, tt)
TakesFreeSlots-concat (x ∷ es) held e (h, t) k =
    (h, TakesFreeSlots-concat es (held ++ x ∷ []) e t (rw append_assoc k))

module _ (e o : HostEntry) (line : Text) (m : Merge) where
  merge_entry-held :
      find (same_slot e) m.held ≡ some o
      → text_eq o.b64 e.b64 ≡ true
      → merge_entry e line m ≡ skip m
  unfolding merge_entry
  merge_entry-held f s = ground arith

  merge_entry-clash :
      find (same_slot e) m.held ≡ some o
      → text_eq o.b64 e.b64 ≡ false
      → merge_entry e line m ≡ conflict e.hosts m
  unfolding merge_entry
  merge_entry-clash f s = ground arith

merge_entry-free :
    (e : HostEntry) (line : Text) (m : Merge)
    → find (same_slot e) m.held ≡ none
    → merge_entry e line m ≡ accept e line m
unfolding merge_entry
merge_entry-free e line m f = ground arith

module _ (codec : Codec) where
  parse_lines-concat :
      (ls : List Text) (line : Text) (e : HostEntry)
      → parse_line codec line ≡ some e
      → parse_lines codec (ls ++ line ∷ []) ≡ parse_lines codec ls ++ e ∷ []
  unfolding parse_lines
  parse_lines-concat [] line e h = rw h
  parse_lines-concat (l ∷ ls) line e h = ground (arith, parse_lines-concat ls line e h)

  abbrev total : Merge → ℕ
  total m = m.report.added + m.report.skipped + length m.report.conflicts

  -- `held` is what the file held at the start.
  record IsMerged (held : List HostEntry) (m : Merge) : Type 0 where
    held_is : m.held ≡ held ++ parse_lines codec m.pending
    free : TakesFreeSlots held (parse_lines codec m.pending)
    added_is : m.report.added ≡ length m.pending
    all_read : length (parse_lines codec m.pending) ≡ length m.pending

  accept-IsMerged :
      (held : List HostEntry) (e : HostEntry) (line : Text) (m : Merge)
      → parse_line codec line ≡ some e
      → find (same_slot e) m.held ≡ none
      → IsMerged held m
      → IsMerged held (accept e line m)
  accept-IsMerged held e line m h f i =
      let parsed = parse_lines-concat m.pending line e h in
      record {
        held_is = rw (parsed, i.held_is) (append_assoc held (parse_lines codec m.pending) (e ∷ []));
        free =
            rw parsed (
              TakesFreeSlots-concat (parse_lines codec m.pending) held e i.free
                (rw i.held_is at f));
        added_is = omega (arith, i.added_is, length-append {0} m.pending (line ∷ []));
        all_read = rw parsed (
            omega (
              arith,
              i.all_read,
              length-append {0} m.pending (line ∷ []),
              length-append {0} (parse_lines codec m.pending) (e ∷ []),
            ));
      }

  merge_entry-IsMerged :
      (held : List HostEntry) (e : HostEntry) (line : Text) (m : Merge)
      → parse_line codec line ≡ some e
      → IsMerged held m
      → IsMerged held (merge_entry e line m) × (total (merge_entry e line m) ≡ total m + 1)
  merge_entry-IsMerged held e line m h i = elim (Option-cases (find (same_slot e) m.held)) [
    | inl f ↦ rw (merge_entry-free e line m f) (accept-IsMerged held e line m h f i, omega arith)
    | inr (o, f) ↦ elim (Bool-cases (text_eq o.b64 e.b64)) [
      | inl s ↦ rw (merge_entry-held e o line m f s) (
        record { held_is = i.held_is; free = i.free; added_is = i.added_is; all_read = i.all_read },
        omega arith,
      )
      | inr s ↦ rw (merge_entry-clash e o line m f s) (
        record { held_is = i.held_is; free = i.free; added_is = i.added_is; all_read = i.all_read },
        omega (arith, length-append {0} m.report.conflicts (e.hosts ∷ [])),
      )
    ]
  ]

  -- The incoming lines that are neither blank nor comments.
  abbrev pub counted : List Text → ℕ
  counted [] = 0
  counted (raw ∷ raws) = if is_passed_over (trim raw) then counted raws else counted raws + 1

  merge_line-IsMerged :
      (held : List HostEntry) (raw : Text) (m : Merge)
      → IsMerged held m
      → IsMerged held (merge_line codec raw m)
        × (total (merge_line codec raw m) ≡ total m + counted (raw ∷ []))
  merge_line-IsMerged held raw m i = elim (Bool-cases (is_passed_over (trim raw))) [
    | inl p ↦ unfold merge_line in rw p (i, omega arith)
    | inr p ↦ elim (Option-cases (parse_line codec (trim raw))) [
      | inl e ↦
          unfold merge_line in
          rw (p, e)
            (
              record {
                held_is = i.held_is;
                free = i.free;
                added_is = i.added_is;
                all_read = i.all_read;
              },
              omega arith,
            )
      | inr (n, e) ↦ unfold merge_line in rw (p, e) (merge_entry-IsMerged held n (trim raw) m e i)
    ]
  ]

  merge_onto-IsMerged :
      (held : List HostEntry) (raws : List Text) (m : Merge)
      → IsMerged held m
      → IsMerged held (merge_onto codec raws m)
        × (total (merge_onto codec raws m) ≡ total m + counted raws)
  unfolding merge_onto
  merge_onto-IsMerged held [] m i = (i, omega arith)
  merge_onto-IsMerged held (raw ∷ raws) m i =
      let (j, n) = merge_line-IsMerged held raw m i in
      let (k, r) = merge_onto-IsMerged held raws (merge_line codec raw m) j in (k, ground arith)

  -- The entries that are to be appended take slots that neither the file nor an earlier line of the import
  -- has taken. They are as many as the lines they are read from, and as are counted as added. Every
  -- incoming line that is neither blank nor a comment is counted once.
  pub merge_lines-TakesFreeSlots :
      (existing : Text) (incoming : List Text)
      → let (report, pending) = merge_lines codec existing incoming in
        TakesFreeSlots (parse_lines codec (lines existing)) (parse_lines codec pending)
        × (report.added ≡ length (parse_lines codec pending))
        × (report.added + report.skipped + length report.conflicts ≡ counted incoming)
  unfolding merge_lines
  merge_lines-TakesFreeSlots existing incoming =
      let held = parse_lines codec (lines existing) in
      let start : Merge = record {
        held = held;
        report = record { added = 0; skipped = 0; conflicts = [] };
        pending = [];
      } in
      let (i, n) = merge_onto-IsMerged held incoming start (record {
        held_is = unfold parse_lines in rw append-nil;
        free = unfold parse_lines in tt;
        added_is = refl;
        all_read = unfold parse_lines in refl;
      }) in
      (i.free, i.added_is ∙ sym i.all_read, omega (arith, n))
