-- ===== src/Common/Decimal.antt =====
-- Decimal numbers: `format!("{}", n)` and `str::parse::<u16>`.
use Prim.Native.Nat.{ℕ, zero, suc, ◌+◌, ◌-◌, ◌*◌, ◌/◌, ◌%◌, ◌≤◌, ◌<◌}
use mathlib.Core.Path.{◌≡◌, refl, sym, ap, ◌∙◌, subst}
use mathlib.Core.Logic.{inl, inr}
use bifro_ssh.Common.Lists.{All}
use mathlib.Core.Bool.{◌&&◌}
use mathlib.Core.List.{[], ◌∷◌}
use mathlib.Core.Option.{Option, none, some}
use native.Mathlib.Omega.{arith}
use bifro_ssh.Common.Tests.{ltb, leb, ◌==◌, if◌then◌else◌, Bool-cases}
use bifro_ssh.Common.Str.{Text}

digits_onto : ℕ → ℕ → Text → Text
digits_onto zero n acc = acc
digits_onto (suc f) n acc =
    let more = digits_onto f (n / 10) ((48 + n % 10) ∷ acc) in
    if ltb n 10 then (48 + n) ∷ acc else more

-- The decimal digits of `n`. Each round divides by ten, so `n + 1` rounds are enough.
unfoldable pub show : ℕ → Text
unfolding digits_onto
show n = digits_onto (suc n) n []

-- `from_str` for an unsigned type whose values are below `limit`: an optional plus sign, then
-- digits, with overflow an error.
digits_value : ℕ → ℕ → Text → Option ℕ
digits_value limit acc [] = some acc
digits_value limit acc (c ∷ s) =
    let rest = digits_value limit (acc * 10 + (c - 48)) s in
    if leb 48 c && leb c 57 && ltb (acc * 10 + (c - 48)) limit then rest else none

after_sign : ℕ → Text → Option ℕ
after_sign limit [] = none
after_sign limit (c ∷ s) = digits_value limit 0 (c ∷ s)

unfoldable pub parse_below : ℕ → Text → Option ℕ
unfolding digits_value after_sign
parse_below limit [] = none
parse_below limit (c ∷ s) = if c == b'+' then after_sign limit s else after_sign limit (c ∷ s)

abbrev pub parse_u16 : Text → Option ℕ
parse_u16 = parse_below 65536

abbrev pub IsDigit : ℕ → Type 0
IsDigit c = (48 ≤ c) × (c ≤ 57)

digits_value-digits_onto :
    (limit f n : ℕ) (acc : Text)
    → n < f
    → n < limit
    → digits_value limit 0 (digits_onto f n acc) ≡ digits_value limit n acc
unfolding digits_value digits_onto
digits_value-digits_onto limit zero n acc h k = absurd (omega arith)
digits_value-digits_onto limit (suc f) n acc h k =
    ground (arith, digits_value-digits_onto limit f (n / 10) ((48 + n % 10) ∷ acc))

digits_onto-IsDigit : (f n : ℕ) (acc : Text) → All IsDigit acc → All IsDigit (digits_onto f n acc)
unfolding digits_onto
digits_onto-IsDigit zero n acc h = h
digits_onto-IsDigit (suc f) n acc h = elim (Bool-cases (ltb n 10)) [
  | inl e ↦ rw e (ground arith, h)
  | inr e ↦ rw e (digits_onto-IsDigit f (n / 10) ((48 + n % 10) ∷ acc) (omega arith, h))
]

pub show-IsDigit : (n : ℕ) → All IsDigit (show n)
unfolding show
show-IsDigit n = digits_onto-IsDigit (suc n) n [] tt

digits_onto-ne-nil :
    (f n c : ℕ) (acc : Text) → (d : ℕ) × (s : Text) × (digits_onto f n (c ∷ acc) ≡ d ∷ s)
unfolding digits_onto
digits_onto-ne-nil zero n c acc = (c, acc, refl)
digits_onto-ne-nil (suc f) n c acc = elim (Bool-cases (ltb n 10)) [
  | inl e ↦ (48 + n, c ∷ acc, rw e)
  | inr e ↦ let (d, s, h) = digits_onto-ne-nil f (n / 10) (48 + n % 10) (c ∷ acc) in (d, s, rw e h)
]

pub show_cases : (n : ℕ) → (d : ℕ) × (s : Text) × (show n ≡ d ∷ s)
unfolding show digits_onto
show_cases n = elim (Bool-cases (ltb n 10)) [
  | inl e ↦ (48 + n, [], rw e)
  | inr e ↦ let (d, s, h) = digits_onto-ne-nil n (n / 10) (48 + n % 10) [] in (d, s, rw e h)
]

digits_value-show : (limit n : ℕ) → n < limit → digits_value limit 0 (show n) ≡ some n
unfolding show
digits_value-show limit n h =
    digits_value-digits_onto limit (suc n) n [] (omega arith) h ∙ unfold digits_value in refl

parse_below_digit :
    (limit d : ℕ) (s : Text) → IsDigit d → parse_below limit (d ∷ s) ≡ digits_value limit 0 (d ∷ s)
unfolding parse_below
parse_below_digit limit d s h = ground arith

-- A number below the type's bound is read back from its digits.
pub parse_below-show : (limit n : ℕ) → n < limit → parse_below limit (show n) ≡ some n
parse_below-show limit n h =
    let (d, s, e) = show_cases n in
    let digit = subst (All IsDigit) e (show-IsDigit n) in
    ap (parse_below limit) e
    ∙ parse_below_digit limit d s digit.0
    ∙ ap (digits_value limit 0) (sym e)
    ∙ digits_value-show limit n h
