-- ===== src/KnownHosts/Import/Pending.antt =====
-- The characters of the lines that an import is to append, in `merge_lines` of
-- src-tauri/src/hostkeys.rs.
use bifro_ssh.Common.{
  ℕ, sym, inl, inr, Bool, List, [], ◌∷◌, arith, Bool-cases, Option-cases, Text, trim, trim_by,
  trim_start_by, is_whitespace, All, All-append,
}
use bifro_ssh.KnownHosts.Line.{Codec, is_passed_over}
use bifro_ssh.KnownHosts.Import.{
  HostEntry, parse_line, Merge, merge_entry, merge_line, merge_onto, merge_lines,
}
use mathlib.Core.List.{reverse, reverse-append}
use mathlib.Core.Path.{subst}

-- What holds of all characters of a text holds of those that trimming leaves.
module _ (P : ℕ → Type 0) where
  reverse-All : (s : Text) → All P s → All P (reverse s)
  reverse-All [] h = tt
  reverse-All (c ∷ s) (h, k) =
      subst (All P) (sym (reverse-append (c ∷ []) s))
        (All-append P (reverse s) (c ∷ []) (reverse-All s k) (h, tt))

  trim_start_by-All : (p : ℕ → Bool) (s : Text) → All P s → All P (trim_start_by p s)
  unfolding trim_start_by
  trim_start_by-All p [] h = tt
  trim_start_by-All p (c ∷ s) (h, k) = elim (Bool-cases (p c)) [
    | inl e ↦ rw e (trim_start_by-All p s k)
    | inr e ↦ rw e (h, k)
  ]

  trim-All : (s : Text) → All P s → All P (trim s)
  unfolding trim trim_by
  trim-All s h =
      let start = trim_start_by-All is_whitespace s h in
      reverse-All (trim_start_by is_whitespace (reverse (trim_start_by is_whitespace s))) (
        trim_start_by-All is_whitespace (reverse (trim_start_by is_whitespace s))
          (reverse-All (trim_start_by is_whitespace s) start))

-- The lines to be appended have no character that the incoming strings do not have.
module _ (codec : Codec) (P : ℕ → Type 0) where
  merge_entry-All :
      (e : HostEntry) (line : Text) (m : Merge)
      → All P line
      → All (All P) m.pending
      → All (All P) (merge_entry e line m).pending
  unfolding merge_entry
  merge_entry-All e line m h k =
      let more = All-append (All P) m.pending (line ∷ []) k (h, tt) in ground (arith, more)

  merge_line-All :
      (raw : Text) (m : Merge)
      → All P raw
      → All (All P) m.pending
      → All (All P) (merge_line codec raw m).pending
  unfolding merge_line
  merge_line-All raw m h k = elim (Bool-cases (is_passed_over (trim raw))) [
    | inl p ↦ rw p k
    | inr p ↦ elim (Option-cases (parse_line codec (trim raw))) [
      | inl e ↦ rw (p, e) k
      | inr (n, e) ↦ rw (p, e) (merge_entry-All n (trim raw) m (trim-All P raw h) k)
    ]
  ]

  merge_onto-All :
      (raws : List Text) (m : Merge)
      → All (All P) raws
      → All (All P) m.pending
      → All (All P) (merge_onto codec raws m).pending
  unfolding merge_onto
  merge_onto-All [] m h k = k
  merge_onto-All (raw ∷ raws) m (h, hs) k =
      merge_onto-All raws (merge_line codec raw m) hs (merge_line-All raw m h k)

  pub merge_lines-All :
      (existing : Text) (incoming : List Text)
      → All (All P) incoming
      → All (All P) (merge_lines codec existing incoming).1
  unfolding merge_lines
  merge_lines-All existing incoming h = merge_onto-All incoming _ h tt
