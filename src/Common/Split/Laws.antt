-- ===== src/Common/Split/Laws.antt =====
-- How the walks over a text meet its pieces.
use Prim.Native.Nat.{ℕ}
use mathlib.Core.Path.{◌≡◌, refl, sym, ap, ◌∙◌}
use mathlib.Core.Logic.{◌≢◌, inl, inr}
use mathlib.Core.Bool.{false}
use mathlib.Core.List.{List, [], ◌∷◌, ◌++◌, map, append-nil, append_assoc}
use native.Mathlib.Omega.{arith}
use bifro_ssh.Common.Tests.{◌==◌, Bool-cases}
use bifro_ssh.Common.Lists.{All, All-append}
use bifro_ssh.Common.Str.{Text, is_whitespace}
use bifro_ssh.Common.Split.{
  newline, strip_cr, lines_onto, lines, words_onto, split_onto, split, unlines,
}

-- Characters of one word.
abbrev pub IsWord : Text → Type 0
IsWord s = All (λ c. is_whitespace c ≡ false) s

abbrev pub HasNo : ℕ → Text → Type 0
HasNo sep s = All (λ c. c ≢ sep) s

pub words_onto-append :
    (w : Text) (cur rest : Text)
    → IsWord w
    → words_onto cur (w ++ rest) ≡ words_onto (cur ++ w) rest
unfolding words_onto
words_onto-append [] cur rest h = rw append-nil
words_onto-append (c ∷ w) cur rest (h, k) =
    rw h (words_onto-append w (cur ++ c ∷ []) rest k ∙ rw append_assoc)

-- A word and the space behind it.
pub words_onto-word :
    (c : ℕ) (w rest : Text)
    → IsWord (c ∷ w)
    → words_onto [] ((c ∷ w) ++ (32 ∷ rest)) ≡ (c ∷ w) ∷ words_onto [] rest
words_onto-word c w rest h = words_onto-append (c ∷ w) [] (32 ∷ rest) h ∙ unfold words_onto in refl

pub words_onto-last : (c : ℕ) (w : Text) → IsWord (c ∷ w) → words_onto [] (c ∷ w) ≡ (c ∷ w) ∷ []
words_onto-last c w h =
    ap (words_onto []) (sym (append-nil (c ∷ w)))
    ∙ words_onto-append (c ∷ w) [] [] h
    ∙ unfold words_onto in refl

pub lines_onto-append :
    (w : Text) (cur rest : Text)
    → HasNo newline w
    → lines_onto cur (w ++ rest) ≡ lines_onto (cur ++ w) rest
unfolding lines_onto
lines_onto-append [] cur rest h = rw append-nil
lines_onto-append (c ∷ w) cur rest (h, k) =
    ground (arith, lines_onto-append w (cur ++ c ∷ []) rest k, append_assoc cur (c ∷ []) w)

-- What stands behind the end of a line is read on its own.
pub lines_onto-newline :
    (s cur rest : Text)
    → lines_onto cur (s ++ (newline ∷ rest))
      ≡ lines_onto cur (s ++ newline ∷ []) ++ lines_onto [] rest
unfolding lines_onto
lines_onto-newline [] cur rest = refl
lines_onto-newline (c ∷ s) cur rest =
    ground (arith, lines_onto-newline s [] rest, lines_onto-newline s (cur ++ c ∷ []) rest)

-- A line that `lines` has nothing to take off from.
abbrev pub IsLine : Text → Type 0
IsLine s = HasNo newline s × (strip_cr s ≡ s)

pub lines-unlines : (ss : List Text) → All IsLine ss → lines (unlines ss) ≡ ss
unfolding lines unlines
lines-unlines [] h = refl
lines-unlines (s ∷ ss) ((clean, cr), k) =
    lines_onto-append s [] (newline ∷ unlines ss) clean ∙ rw cr (ap (◌∷◌ s) (lines-unlines ss k))

pub split_onto-append :
    (sep : ℕ) (w : Text) (cur rest : Text)
    → HasNo sep w
    → split_onto sep cur (w ++ rest) ≡ split_onto sep (cur ++ w) rest
unfolding split_onto
split_onto-append sep [] cur rest h = rw append-nil
split_onto-append sep (c ∷ w) cur rest (h, k) =
    ground (arith, split_onto-append sep w (cur ++ c ∷ []) rest k, append_assoc cur (c ∷ []) w)

pub split_single : (sep : ℕ) (w : Text) → HasNo sep w → split sep w ≡ w ∷ []
unfolding split
split_single sep w h =
    ap (split_onto sep []) (sym (append-nil w))
    ∙ split_onto-append sep w [] [] h
    ∙ unfold split_onto in refl

strip_cr-HasNo : (s : Text) → HasNo newline s → HasNo newline (strip_cr s)
unfolding strip_cr
strip_cr-HasNo [] h = tt
strip_cr-HasNo (c ∷ []) h = ground arith
strip_cr-HasNo (c ∷ d ∷ s) (h, k) = (h, strip_cr-HasNo (d ∷ s) k)

lines_onto-HasNo : (s cur : Text) → HasNo newline cur → All (HasNo newline) (lines_onto cur s)
unfolding lines_onto
lines_onto-HasNo [] [] h = tt
lines_onto-HasNo [] (c ∷ cur) h = (h, tt)
lines_onto-HasNo (c ∷ s) cur h = elim (Bool-cases (c == newline)) [
  | inl e ↦ rw e (strip_cr-HasNo cur h, lines_onto-HasNo s [] tt)
  | inr e ↦ rw e (
      lines_onto-HasNo s (cur ++ c ∷ [])
        (All-append (λ d. d ≢ newline) cur (c ∷ []) h (ground arith, tt)))
]

pub lines-HasNo : (s : Text) → All (HasNo newline) (lines s)
unfolding lines
lines-HasNo s = lines_onto-HasNo s [] tt

-- Read back, the lines of a text lose only a carriage return each.
pub lines-unlines_strip :
    (ss : List Text) → All (HasNo newline) ss → lines (unlines ss) ≡ map strip_cr ss
unfolding lines unlines
lines-unlines_strip [] h = refl
lines-unlines_strip (s ∷ ss) (clean, k) =
    lines_onto-append s [] (newline ∷ unlines ss) clean
    ∙ ap (◌∷◌ (strip_cr s)) (lines-unlines_strip ss k)
