-- ===== src/KnownHosts/Check/Append.antt =====
-- What `append_lines` adds to the file, whether or not its last line was ended.
use bifro_ssh.Common.{
  ◌≡◌, refl, ap, ◌∙◌, ◌⊎◌, inl, inr, false, Option, none, some, List, [], ◌∷◌, ◌++◌, append_assoc,
  arith, ◌==◌, Bool-cases, Text, All, newline, lines_onto, lines, unlines, trim,
}
use bifro_ssh.Common.Split.Laws.{HasNo, lines_onto-newline, lines-unlines_strip}
use bifro_ssh.KnownHosts.Line.{HostLine, split_line}
use bifro_ssh.KnownHosts.Line.RoundTrip.{
  entries_of, entries_of-strip_cr, entries_of-append, split_line-strip_cr,
}
use bifro_ssh.KnownHosts.Check.{ends_open, appended}

-- The entries of a file: those of its lines, or none.
unfoldable pub entries : Option Text → List HostLine
entries none = []
entries (some content) = entries_of (lines content)

ends_open_cases :
    (body : Text) → ends_open body ≡ false → (body ≡ []) ⊎ ((b : Text) × (body ≡ b ++ newline ∷ []))
ends_open_cases [] h = inl refl
ends_open_cases (c ∷ []) h = inr ([], ground arith)
ends_open_cases (c ∷ d ∷ s) h = elim (ends_open_cases (d ∷ s) h) [
  | inl e ↦ absurd (cc)
  | inr (b, e) ↦ inr (c ∷ b, rw e)
]

split_line_nil : split_line [] ≡ none
unfolding split_line trim
split_line_nil = refl

-- Ending the last line changes no entry.
entries_of-end :
    (s cur : Text) → entries_of (lines_onto cur (s ++ newline ∷ [])) ≡ entries_of (lines_onto cur s)
unfolding lines_onto entries_of
entries_of-end [] [] = rw split_line_nil
entries_of-end [] (c ∷ cur) = rw (split_line-strip_cr (c ∷ cur))
entries_of-end (c ∷ s) cur = elim (Bool-cases (c == newline)) [
  | inl e ↦ rw e (rw (entries_of-end s []))
  | inr e ↦ rw e (entries_of-end s (cur ++ c ∷ []))
]

entries-ended :
    (b : Text) (added : List Text)
    → All (HasNo newline) added
    → entries_of (lines ((b ++ newline ∷ []) ++ unlines added))
      ≡ entries_of (lines (b ++ newline ∷ [])) ++ entries_of added
unfolding lines
entries-ended b added h =
    ap entries_of (
      ap (lines_onto []) (append_assoc b (newline ∷ []) (unlines added))
      ∙ lines_onto-newline b [] (unlines added))
    ∙ entries_of-append (lines_onto [] (b ++ newline ∷ [])) (lines_onto [] (unlines added))
    ∙ ap (◌++◌ (entries_of (lines_onto [] (b ++ newline ∷ []))))
        (ap entries_of (lines-unlines_strip added h) ∙ entries_of-strip_cr added)

-- The file's entries, then those of the lines appended, whether or not its last line was ended.
pub entries-appended :
    (own : Option Text) (added : List Text)
    → All (HasNo newline) added
    → entries (some (appended own added)) ≡ entries own ++ entries_of added
unfolding entries appended entries_of lines
entries-appended none added h =
    ap entries_of (lines-unlines_strip added h) ∙ entries_of-strip_cr added
entries-appended (some body) added h = elim (Bool-cases (ends_open body)) [
  | inl e ↦ rw e (
      entries-ended body added h
      ∙ ap (λ x. x ++ entries_of added) (unfold lines in entries_of-end body []))
  | inr e ↦ rw e (elim (ends_open_cases body e) [
    | inl n ↦ rw n (ap entries_of (lines-unlines_strip added h) ∙ entries_of-strip_cr added)
    | inr (b, n) ↦ rw n (entries-ended b added h)
  ])
]
