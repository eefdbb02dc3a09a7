-- ===== src/Common/Utf8.antt =====
-- `String::from_utf8`: the well-formed sequences of the standard library, with their code points.
use Prim.Native.Nat.{ℕ, ◌+◌, ◌-◌, ◌*◌, ◌/◌, ◌%◌}
use mathlib.Core.Bool.{Bool, ◌&&◌, ◌||◌}
use mathlib.Core.List.{[], ◌∷◌, ◌++◌}
use mathlib.Core.Option.{Option, none, some}
use bifro_ssh.Common.Tests.{leb, ◌==◌, if◌then◌else◌}
use bifro_ssh.Common.Str.{Bytes, Text}

abbrev within : ℕ → ℕ → ℕ → Bool
within lo hi b = leb lo b && leb b hi

abbrev is_tail : ℕ → Bool
is_tail = within 0x80 0xbf

abbrev two_ok : ℕ → ℕ → Bool
two_ok a b = within 0xc2 0xdf a && is_tail b

abbrev three_ok : ℕ → ℕ → ℕ → Bool
three_ok a b c =
    ((a == 0xe0 && within 0xa0 0xbf b)
      || (within 0xe1 0xec a && is_tail b)
      || (a == 0xed && within 0x80 0x9f b)
      || (within 0xee 0xef a && is_tail b))
    && is_tail c

abbrev four_ok : ℕ → ℕ → ℕ → ℕ → Bool
four_ok a b c d =
    ((a == 0xf0 && within 0x90 0xbf b)
      || (within 0xf1 0xf3 a && is_tail b)
      || (a == 0xf4 && within 0x80 0x8f b))
    && is_tail c
    && is_tail d

abbrev two : ℕ → ℕ → ℕ
two a b = (a - 0xc0) * 64 + (b - 0x80)

abbrev three : ℕ → ℕ → ℕ → ℕ
three a b c = ((a - 0xe0) * 64 + (b - 0x80)) * 64 + (c - 0x80)

abbrev four : ℕ → ℕ → ℕ → ℕ → ℕ
four a b c d = (((a - 0xf0) * 64 + (b - 0x80)) * 64 + (c - 0x80)) * 64 + (d - 0x80)

utf8_onto : Text → Bytes → Option Text
utf8_onto out [] = some out
utf8_onto out (a ∷ []) = if leb a 0x7f then some (out ++ a ∷ []) else none
utf8_onto out (a ∷ b ∷ []) =
    let r1 = utf8_onto (out ++ a ∷ []) (b ∷ []) in
    if leb a 0x7f then r1 else if two_ok a b then some (out ++ two a b ∷ []) else none
utf8_onto out (a ∷ b ∷ c ∷ []) =
    let r1 = utf8_onto (out ++ a ∷ []) (b ∷ c ∷ []) in
    let r2 = utf8_onto (out ++ two a b ∷ []) (c ∷ []) in
    if leb a 0x7f
    then r1
    else if two_ok a b
    then r2
    else if three_ok a b c
    then some (out ++ three a b c ∷ [])
    else none
utf8_onto out (a ∷ b ∷ c ∷ d ∷ s) =
    let r1 = utf8_onto (out ++ a ∷ []) (b ∷ c ∷ d ∷ s) in
    let r2 = utf8_onto (out ++ two a b ∷ []) (c ∷ d ∷ s) in
    let r3 = utf8_onto (out ++ three a b c ∷ []) (d ∷ s) in
    let r4 = utf8_onto (out ++ four a b c d ∷ []) s in
    if leb a 0x7f
    then r1
    else if two_ok a b
    then r2
    else if three_ok a b c
    then r3
    else if four_ok a b c d
    then r4
    else none

unfoldable pub from_utf8 : Bytes → Option Text
unfolding utf8_onto
from_utf8 = utf8_onto []

-- `str::as_bytes`.
abbrev utf8_char : ℕ → Bytes
utf8_char c =
    if leb c 0x7f
    then c ∷ []
    else if leb c 0x7ff
    then (0xc0 + c / 64) ∷ (0x80 + c % 64) ∷ []
    else if leb c 0xffff
    then (0xe0 + c / 4096) ∷ (0x80 + c / 64 % 64) ∷ (0x80 + c % 64) ∷ []
    else (0xf0 + c / 262144) ∷ (0x80 + c / 4096 % 64) ∷ (0x80 + c / 64 % 64) ∷ (0x80 + c % 64) ∷ []

unfoldable pub as_bytes : Text → Bytes
as_bytes [] = []
as_bytes (c ∷ s) = utf8_char c ++ as_bytes s
