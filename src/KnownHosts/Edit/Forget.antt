-- ===== src/KnownHosts/Edit/Forget.antt =====
-- What `remove_lines` leaves in the file.
use bifro_ssh.Common.{
  ℕ, ◌+◌, ◌≡◌, refl, ap, ◌∙◌, ◌⊎◌, inl, inr, Bool, true, false, Option, none, some, List, [], ◌∷◌,
  ◌++◌, append_assoc, arith, if◌then◌else◌, Bool-cases, Option-cases, is_some, is_empty, Text,
  newline, lines, join, unlines, trim, All, ok,
}
use bifro_ssh.Common.Split.Laws.{HasNo, lines-HasNo, lines-unlines_strip}
use bifro_ssh.KnownHosts.Line.{Codec, HostLine, host_spec, split_line, host_matches}
use bifro_ssh.KnownHosts.Line.RoundTrip.{split_line-trim, entries_of, entries_of-strip_cr}
use bifro_ssh.KnownHosts.Check.{Disk}
use bifro_ssh.KnownHosts.Check.Append.{entries}
use bifro_ssh.KnownHosts.Edit.{drops_entry, drops, keep_lines, end_line, remove_lines, forget_host}

abbrev pub kept_entries : (HostLine → Bool) → List HostLine → List HostLine
kept_entries gone [] = []
kept_entries gone (l ∷ ls) = if gone l then kept_entries gone ls else l ∷ kept_entries gone ls

abbrev pub count_gone : (HostLine → Bool) → List HostLine → ℕ
count_gone gone [] = 0
count_gone gone (l ∷ ls) = if gone l then count_gone gone ls + 1 else count_gone gone ls

module _ (codec : Codec) (target : Text) (algo : Option Text) where
  abbrev gone : HostLine → Bool
  gone l = drops_entry codec target algo (some l)

  drops-split :
      (raw : Text) → drops codec target algo raw ≡ drops_entry codec target algo (split_line raw)
  drops-split raw = rw (split_line-trim raw)

  drops_none : drops_entry codec target algo none ≡ false
  unfolding drops_entry
  drops_none = refl

  keep_lines-cons_gone :
      (raw : Text) (raws : List Text)
      → drops codec target algo raw ≡ true
      → keep_lines codec target algo (raw ∷ raws)
        ≡ ((keep_lines codec target algo raws).0, (keep_lines codec target algo raws).1 + 1)
  unfolding keep_lines
  keep_lines-cons_gone raw raws e = rw e

  keep_lines-cons_kept :
      (raw : Text) (raws : List Text)
      → drops codec target algo raw ≡ false
      → keep_lines codec target algo (raw ∷ raws)
        ≡ (raw ∷ (keep_lines codec target algo raws).0, (keep_lines codec target algo raws).1)
  unfolding keep_lines
  keep_lines-cons_kept raw raws e = rw e

  keep_lines-entries :
      (raws : List Text)
      → (entries_of (keep_lines codec target algo raws).0 ≡ kept_entries gone (entries_of raws))
        × ((keep_lines codec target algo raws).1 ≡ count_gone gone (entries_of raws))
  unfolding entries_of
  keep_lines-entries [] = unfold keep_lines in (refl, refl)
  keep_lines-entries (raw ∷ raws) =
      let (ih, ihn) = keep_lines-entries raws in
      elim (Option-cases (split_line raw)) [
        | inl e ↦
            let d = drops-split raw ∙ ap (drops_entry codec target algo) e ∙ drops_none in
            rw (keep_lines-cons_kept raw raws d, e) (ih, ihn)
        | inr (l, e) ↦ elim (Bool-cases (gone l)) [
          | inl g ↦
              let d = drops-split raw ∙ ap (drops_entry codec target algo) e ∙ g in
              rw (keep_lines-cons_gone raw raws d, e, g) (ih, omega arith)
          | inr g ↦
              let d = drops-split raw ∙ ap (drops_entry codec target algo) e ∙ g in
              rw (keep_lines-cons_kept raw raws d, e, g) (rw ih, ihn)
        ]
      ]

  keep_lines-All :
      (P : Text → Type 0) (raws : List Text)
      → All P raws
      → All P (keep_lines codec target algo raws).0
  keep_lines-All P [] h = unfold keep_lines in tt
  keep_lines-All P (raw ∷ raws) (h, k) = elim (Bool-cases (drops codec target algo raw)) [
    | inl d ↦ rw (keep_lines-cons_gone raw raws d) (keep_lines-All P raws k)
    | inr d ↦ rw (keep_lines-cons_kept raw raws d) (h, keep_lines-All P raws k)
  ]

join-concat :
    (s : Text) (ss : List Text) → join (newline ∷ []) (s ∷ ss) ++ newline ∷ [] ≡ unlines (s ∷ ss)
unfolding join unlines
join-concat s [] = refl
join-concat s (t ∷ ss) = rw append_assoc (ap (λ u. s ++ (newline ∷ u)) (join-concat t ss))

is_empty-append : (s t : Text) (c : ℕ) → is_empty (s ++ (c ∷ t)) ≡ false
is_empty-append [] t c = refl
is_empty-append (d ∷ s) t c = refl

-- Joined and ended, the lines hold what they do when each is ended on its own.
end_line-join :
    (ss : List Text)
    → entries_of (lines (end_line (join (newline ∷ []) ss))) ≡ entries_of (lines (unlines ss))
end_line-join [] = unfold join unlines in refl
end_line-join ([] ∷ []) = unfold join unlines lines entries_of split_line trim in refl
end_line-join ((c ∷ s) ∷ []) =
    ap (λ t. entries_of (lines t)) (unfold join in join-concat (c ∷ s) [])
end_line-join (s ∷ t ∷ ss) =
    unfold join in
    rw (is_empty-append s (join (newline ∷ []) (t ∷ ss)) newline)
      (ap (λ u. entries_of (lines u)) (unfold join in join-concat s (t ∷ ss)))

module _ (codec : Codec) (host : Text) (port : ℕ) (algo : Option Text) where
  abbrev pub leaves : HostLine → Bool
  leaves = gone codec (host_spec host port) algo

  entries-kept :
      (content : Text)
      → entries_of (
          lines (
            end_line (
              join (newline ∷ []) (keep_lines codec (host_spec host port) algo (lines content)).0)))
        ≡ kept_entries leaves (entries_of (lines content))
  entries-kept content =
      let kept = keep_lines codec (host_spec host port) algo (lines content) in
      end_line-join kept.0
      ∙ ap entries_of (
          lines-unlines_strip kept.0 (
            keep_lines-All codec (host_spec host port) algo (HasNo newline) (lines content)
              (lines-HasNo content)))
      ∙ entries_of-strip_cr kept.0
      ∙ (keep_lines-entries codec (host_spec host port) algo (lines content)).0

  none_gone : (ls : List HostLine) → count_gone leaves ls ≡ 0 → kept_entries leaves ls ≡ ls
  none_gone [] h = refl
  none_gone (l ∷ ls) h = elim (Bool-cases (leaves l)) [
    | inl e ↦ absurd (ground arith)
    | inr e ↦ rw e (rw (none_gone ls (ground arith)))
  ]

  -- A removal that succeeds takes exactly the entries that are to go out of BifroSSH's file, keeps
  -- the others in their order, and returns how many went; it leaves the other file alone.
  pub remove_lines-entries :
      (disk disk' : Disk) (n : ℕ)
      → remove_lines codec host port algo disk ≡ (ok n, disk')
      → (entries disk'.own ≡ kept_entries leaves (entries disk.own))
        × (n ≡ count_gone leaves (entries disk.own))
        × (disk'.openssh ≡ disk.openssh)
  unfolding remove_lines entries
  remove_lines-entries disk disk' n h = elim (Option-cases disk.own) [
    | inl e ↦ ground arith
    | inr (content, e) ↦ ground (
      arith,
      entries-kept content,
      keep_lines-entries codec (host_spec host port) algo (lines content),
      none_gone (entries_of (lines content)),
    )
  ]

-- The entries with a marker.
abbrev pub marked : List HostLine → List HostLine
marked [] = []
marked (l ∷ ls) = if is_some l.marker then l ∷ marked ls else marked ls

module _ (codec : Codec) (host : Text) (port : ℕ) where
  -- A marked entry, or one of another host.
  abbrev pub StaysBehind : HostLine → Type 0
  StaysBehind l =
      (is_some l.marker ≡ true) ⊎ (host_matches codec l.hosts (host_spec host port) ≡ false)

  kept_entries-StaysBehind :
      (ls : List HostLine) → All StaysBehind (kept_entries (leaves codec host port none) ls)
  kept_entries-StaysBehind [] = tt
  kept_entries-StaysBehind (l ∷ ls) = elim (Bool-cases (leaves codec host port none l)) [
    | inl e ↦ rw e (kept_entries-StaysBehind ls)
    | inr e ↦ rw e (unfold drops_entry in ground arith, kept_entries-StaysBehind ls)
  ]

  kept_entries-marked :
      (algo : Option Text) (ls : List HostLine)
      → marked (kept_entries (leaves codec host port algo) ls) ≡ marked ls
  unfolding drops_entry
  kept_entries-marked algo [] = refl
  kept_entries-marked algo (l ∷ ls) = ground (arith, kept_entries-marked algo ls)

  -- After a host is forgotten, BifroSSH's file has no entry for it but marked ones, and those it has
  -- all kept: no revocation is lost.
  pub forget_host-StaysBehind :
      (disk disk' : Disk) (n : ℕ)
      → forget_host codec host port disk ≡ (ok n, disk')
      → All StaysBehind (entries disk'.own)
        × (marked (entries disk'.own) ≡ marked (entries disk.own))
  unfolding forget_host
  forget_host-StaysBehind disk disk' n h =
      let (e, _, _) = remove_lines-entries codec host port none disk disk' n h in
      (
        rw e (kept_entries-StaysBehind (entries disk.own)),
        rw e (kept_entries-marked none (entries disk.own)),
      )
