-- ===== src/SshConfig/Include.antt =====
-- `Include`: `wildcard_match`, `include_targets`, `expand_includes` and `scan_content` of
-- src-tauri/src/sshconfig.rs.
pub mod Flat
use bifro_ssh.Common.{
  ℕ, zero, suc, ◌+◌, leb, Bool, false, ◌&&◌, not, Option, none, some, List, [], ◌∷◌, ◌++◌,
  if◌then◌else◌, Text, codes, text_eq, contains, lines, newline, split_whitespace,
}
use bifro_ssh.KnownHosts.Wildcard.{glob_match}
use bifro_ssh.SshConfig.{
  World, DirEntry, SshConfigScan, or_default, expand_home, split_directive, parse,
}

abbrev pub max_include_depth : ℕ
max_include_depth = 16

-- Enough for one text at each depth from 0 to 16.
abbrev pub include_fuel : ℕ
include_fuel = 17

-- The loop is that of `glob_match`.
unfoldable pub wildcard_match : Text → Text → Bool
unfolding glob_match
wildcard_match pattern name = glob_match pattern name

-- The text so far, and the two lists of files.
pub record Expansion : Type 0 where
  pub out : Text
  pub included : List Text
  pub unreadable : List Text

module _ (world : World) where
  -- `sort`, by insertion.
  insert : Text → List Text → List Text
  insert p [] = p ∷ []
  insert p (q ∷ qs) =
      let later = q ∷ insert p qs in if world.path_leb p q then p ∷ q ∷ qs else later

  unfoldable pub sort : List Text → List Text
  unfolding insert
  sort [] = []
  sort (p ∷ ps) = insert p (sort ps)

  -- A file, by a name that fits.
  abbrev fits : Text → DirEntry → Bool
  fits pattern e = elim e.name [
    | none ↦ false
    | some name ↦ wildcard_match pattern name && elim e.is_dir [ none ↦ false | some dir ↦ not dir ]
  ]

  unfoldable pub matching : Text → List (Option DirEntry) → List Text
  unfolding wildcard_match
  matching pattern [] = []
  matching pattern (none ∷ es) = matching pattern es
  matching pattern (some e ∷ es) =
      let rest = matching pattern es in if fits pattern e then e.path ∷ rest else rest

  abbrev in_directory : Text → Text → List Text
  in_directory pattern full = elim (world.read_dir (or_default (world.parent full) (codes "."))) [
    | none ↦ []
    | some es ↦ sort (matching pattern es)
  ]

  unfoldable pub include_targets : Text → Text → List Text
  unfolding sort matching expand_home contains
  include_targets token base =
      let path = expand_home world token in
      let full = if world.is_absolute path then path else world.join base path in
      elim (world.file_name full) [
        | none ↦ []
        | some name ↦
            if not (contains b'*' name) && not (contains b'?' name)
            then full ∷ []
            else in_directory name full
      ]

  -- What the files that a text includes are expanded by.
  abbrev Deeper : Type 0
  Deeper = Text → Text → Expansion → Expansion

  -- One file that a directive names. Its text comes behind what there is.
  abbrev include_file : Deeper → Text → Text → Expansion → Expansion
  include_file deeper base path x = elim (world.read_file path) [
    | none ↦ record x { unreadable = x.unreadable ++ path ∷ [] }
    | some text ↦
        deeper text (or_default (world.parent path) base)
          (record x { included = x.included ++ path ∷ [] })
  ]

  abbrev include_files : Deeper → Text → List Text → Expansion → Expansion
  include_files deeper base [] x = x
  include_files deeper base (path ∷ paths) x =
      include_files deeper base paths (include_file deeper base path x)

  abbrev pub include_tokens : Deeper → Text → List Text → Expansion → Expansion
  include_tokens deeper base [] x = x
  include_tokens deeper base (token ∷ tokens) x =
      include_tokens deeper base tokens (include_files deeper base (include_targets token base) x)

  abbrev pub too_deep : Text → Text
  too_deep value = value ++ codes " (nested more than 16 deep)"

  unfoldable pub expand_line : Deeper → ℕ → Text → Text → Expansion → Expansion
  unfolding split_directive include_targets split_whitespace text_eq
  expand_line deeper depth base line x =
      let copied = record x { out = x.out ++ (line ++ newline ∷ []) } in
      elim (split_directive world line) [
        | none ↦ copied
        | some (key, value) ↦
            if text_eq key (codes "include")
            then (if leb max_include_depth depth
                then record x { unreadable = x.unreadable ++ too_deep value ∷ [] }
                else include_tokens deeper base (split_whitespace value) x)
            else copied
      ]

  abbrev pub expand_lines : Deeper → ℕ → Text → List Text → Expansion → Expansion
  expand_lines deeper depth base [] x = x
  expand_lines deeper depth base (line ∷ rest) x =
      expand_lines deeper depth base rest (expand_line deeper depth base line x)

  -- The fuel is of the model alone; the depth is the source's.
  unfoldable pub expand_includes : ℕ → ℕ → Text → Text → Expansion → Expansion
  unfolding expand_line lines
  expand_includes zero depth content base x = x
  expand_includes (suc fuel) depth content base x =
      expand_lines (expand_includes fuel (depth + 1)) depth base (lines content) x

  unfoldable pub scan_content : Text → Text → SshConfigScan
  unfolding expand_includes parse
  scan_content content base =
      let x =
        expand_includes include_fuel 0 content base
          (record { out = []; included = []; unreadable = [] }) in
      let scan = parse world x.out in
      record scan { included_files = x.included; unreadable_includes = x.unreadable }
