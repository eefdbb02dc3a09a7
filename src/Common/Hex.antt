-- ===== src/Common/Hex.antt =====
-- Hexadecimal numbers: `from_str_radix` to the base 16.
use Prim.Native.Nat.{ℕ, ◌+◌, ◌-◌, ◌*◌}
use mathlib.Core.Bool.{◌&&◌}
use mathlib.Core.List.{[], ◌∷◌}
use mathlib.Core.Option.{Option, none, some}
use bifro_ssh.Common.Tests.{leb, ltb, ◌==◌, if◌then◌else◌}
use bifro_ssh.Common.Str.{Text, is_digit}

abbrev pub hex_value : ℕ → Option ℕ
hex_value c =
    if is_digit c
    then some (c - b'0')
    else if leb b'a' c && leb c b'f'
    then some (c - b'a' + 10)
    else if leb b'A' c && leb c b'F'
    then some (c - b'A' + 10)
    else none

-- `u8::from_str_radix` on two characters, of which the first may be a plus sign.
abbrev pub hex_pair : ℕ → ℕ → Option ℕ
hex_pair a b = elim (hex_value b) [
  | none ↦ none
  | some lo ↦ elim (hex_value a) [
    | some hi ↦ some (hi * 16 + lo)
    | none ↦ if a == b'+' then some lo else none
  ]
]

-- The digits after the sign, for a type whose values are below `limit`.
unfoldable pub hex_digits : ℕ → ℕ → Text → Option ℕ
hex_digits limit n [] = some n
hex_digits limit n (c ∷ s) = elim (hex_value c) [
  | none ↦ none
  | some d ↦
      let m = n * 16 + d in let rest = hex_digits limit m s in if ltb m limit then rest else none
]

unfoldable pub parse_hex_below : ℕ → Text → Option ℕ
unfolding hex_digits
parse_hex_below limit [] = none
parse_hex_below limit (c ∷ []) = hex_digits limit 0 (c ∷ [])
parse_hex_below limit (c ∷ d ∷ s) =
    if c == b'+' then hex_digits limit 0 (d ∷ s) else hex_digits limit 0 (c ∷ d ∷ s)
