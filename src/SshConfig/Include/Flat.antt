-- ===== src/SshConfig/Include/Flat.antt =====
-- What `expand_includes` copies, and that it ends.
use bifro_ssh.Common.{
  ℕ, zero, suc, ◌+◌, ◌≤◌, leb, true, false, Bool, split_whitespace, ◌≡◌, refl, sym, ap, ◌∙◌, Option,
  none, some, List, [], ◌∷◌, ◌++◌, append_assoc, append-nil, arith, if◌then◌else◌, Text, codes,
  text_eq, All, lines, unlines, newline,
}
use bifro_ssh.SshConfig.{World, split_directive}
use bifro_ssh.SshConfig.Include.{
  Expansion, max_include_depth, too_deep, include_tokens, include_fuel, expand_line, expand_lines,
  expand_includes,
}
use mathlib.Core.Path.{fun_ext}

module _ (world : World) where
  -- The files that a line names, where it is an `Include`.
  abbrev pub included_by : Text → Option Text
  included_by line = elim (split_directive world line) [
    | none ↦ none
    | some (key, value) ↦ if text_eq key (codes "include") then some value else none
  ]

  abbrev with_text : Expansion → Text → Expansion
  with_text x text = record x { out = x.out ++ text }

  module _ (deeper : Text → Text → Expansion → Expansion) (depth : ℕ) (base : Text) where
    expand_line-copied :
        (line : Text) (x : Expansion)
        → included_by line ≡ none
        → expand_line world deeper depth base line x ≡ with_text x (line ++ newline ∷ [])
    unfolding expand_line
    expand_line-copied line x h = ground arith

    expand_lines-copied :
        (raws : List Text) (x : Expansion)
        → All (λ line. included_by line ≡ none) raws
        → expand_lines world deeper depth base raws x ≡ with_text x (unlines raws)
    unfolding unlines
    expand_lines-copied [] x h = ap (λ t. record x { out = t }) (sym (append-nil x.out))
    expand_lines-copied (line ∷ raws) x (h, k) =
        rw
          (
            expand_line-copied line x h,
            expand_lines-copied raws (with_text x (line ++ newline ∷ [])) k,
          )
          (ap (λ t. record x { out = t })
            (append_assoc x.out (line ++ newline ∷ []) (unlines raws)
              ∙ ap (◌++◌ x.out) (append_assoc line (newline ∷ []) (unlines raws))))

  -- A text with no `Include` in it is copied line by line, at any depth, and no file is touched.
  pub expand_includes-copied :
      (fuel depth : ℕ) (content base : Text) (x : Expansion)
      → All (λ line. included_by line ≡ none) (lines content)
      → expand_includes world (suc fuel) depth content base x
        ≡ record x { out = x.out ++ unlines (lines content) }
  unfolding expand_includes
  expand_includes-copied fuel depth content base x h =
      expand_lines-copied (expand_includes world fuel (depth + 1)) depth base (lines content) x h

  abbrev Expander : Type 0
  Expander = Text → Text → Expansion → Expansion

  -- The same, told without depth or fuel: `Include` lines in a text with no level below it are reported.
  abbrev line_above : Option Expander → Text → Text → Expansion → Expansion
  line_above below base line x = elim (included_by line) [
    | none ↦ with_text x (line ++ newline ∷ [])
    | some value ↦ elim below [
      | none ↦ record x { unreadable = x.unreadable ++ too_deep world value ∷ [] }
      | some expand ↦ include_tokens world expand base (split_whitespace value) x
    ]
  ]

  abbrev lines_above : Option Expander → Text → List Text → Expansion → Expansion
  lines_above below base [] x = x
  lines_above below base (line ∷ raws) x =
      lines_above below base raws (line_above below base line x)

  -- A text with so many levels of included files below it.
  unfoldable pub expansion : ℕ → Text → Text → Expansion → Expansion
  unfolding lines split_whitespace
  expansion zero content base x = lines_above none base (lines content) x
  expansion (suc levels) content base x =
      lines_above (some (expansion levels)) base (lines content) x

  -- What is below a text at this depth, by the source's test.
  abbrev below_at : ℕ → Expander → Option Expander
  below_at depth deeper = if leb max_include_depth depth then none else some deeper

  expand_line-line_above :
      (deeper : Expander) (depth : ℕ) (base line : Text) (x : Expansion)
      → expand_line world deeper depth base line x ≡ line_above (below_at depth deeper) base line x
  unfolding expand_line
  expand_line-line_above deeper depth base line x = ground arith

  expand_lines-lines_above :
      (deeper : Expander) (depth : ℕ) (base : Text) (raws : List Text) (x : Expansion)
      → expand_lines world deeper depth base raws x
        ≡ lines_above (below_at depth deeper) base raws x
  expand_lines-lines_above deeper depth base [] x = refl
  expand_lines-lines_above deeper depth base (line ∷ raws) x =
      ap (expand_lines world deeper depth base raws)
        (expand_line-line_above deeper depth base line x)
      ∙ expand_lines-lines_above deeper depth base raws
          (line_above (below_at depth deeper) base line x)

  expand_includes-at :
      (n m depth : ℕ) → n ≤ m → n + depth ≡ 16 → expand_includes world (suc m) depth ≡ expansion n
  unfolding expand_includes expansion
  expand_includes-at zero m depth l h =
      let limit : leb max_include_depth depth ≡ true = ground arith in
      fun_ext λ content. fun_ext λ base. fun_ext λ x.
        expand_lines-lines_above (expand_includes world m (depth + 1)) depth base (lines content) x
        ∙ ap
            (λ (b : Bool).
              lines_above (if b then none else some (expand_includes world m (depth + 1))) base
                (lines content) x)
            limit
  expand_includes-at (suc n) zero depth l h = absurd (omega arith)
  expand_includes-at (suc n) (suc m) depth l h =
      let inside : leb max_include_depth depth ≡ false = ground arith in
      let deeper = expand_includes-at n m (depth + 1) (omega arith) (omega arith) in
      fun_ext λ content. fun_ext λ base. fun_ext λ x.
        expand_lines-lines_above (expand_includes world (suc m) (depth + 1)) depth base
          (lines content) x
        ∙ ap
            (λ (b : Bool).
              lines_above (if b then none else some (expand_includes world (suc m) (depth + 1)))
                base (lines content) x)
            inside
        ∙ ap (λ d. lines_above (some d) base (lines content) x) deeper

  -- The expansion of a config ends by its depth limit, also where files include themselves or each other:
  -- with 17 rounds or any greater number it is the expansion that goes down exactly sixteen levels of
  -- included files, which is by recursion on the levels. It copies a line that is no `Include`, puts the
  -- texts of the files that an `Include` names in its place, and on the lowest level reports the `Include`.
  pub expand_includes-expansion :
      (fuel : ℕ) (content base : Text) (x : Expansion)
      → include_fuel ≤ fuel
      → expand_includes world fuel 0 content base x ≡ expansion 16 content base x
  expand_includes-expansion zero content base x h = absurd (omega arith)
  expand_includes-expansion (suc m) content base x h =
      ap (λ (f : Expander). f content base x) (expand_includes-at 16 m 0 (omega arith) refl)
