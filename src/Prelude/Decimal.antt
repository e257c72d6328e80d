-- ===== src/Prelude/Decimal.antt =====
-- Go's `strconv.ParseInt(s, 10, 64)`.
use Prim.Native.Char.{code}
use Prim.Native.String.{String, [], ◌∷◌}
use Prim.Native.Nat.{ℕ, zero, suc, ◌+◌, ◌-◌, ◌*◌, ◌^◌}
use mathlib.Core.Path.{◌≡◌, refl}
use mathlib.Core.Bool.{◌&&◌}
use mathlib.Core.Option.{Option, none, some}
use csi_thalassa.Prelude.Tests.{ltb, leb, eqb, if◌then◌else◌}
use csi_thalassa.Prelude.Signed.{ℤ, pos, negsuc}

-- The value of decimal digits after what was read so far, or none at another character.
unfoldable pub digits : ℕ → String → Option ℕ
digits n [] = some n
digits n (c ∷ s) =
    let rest = digits (10 * n + (code c - b'0')) s in
    if leb b'0' (code c) && leb (code c) b'9' then rest else none

unfoldable pub unsigned : String → Option ℕ
unfolding digits
unsigned [] = none
unsigned (c ∷ s) = digits 0 (c ∷ s)

abbrev in_range : Option ℕ → Option ℤ
in_range none = none
in_range (some n) = if ltb n (2 ^ 63) then some (pos n) else none

abbrev negated : Option ℕ → Option ℤ
negated none = none
negated (some zero) = some (pos 0)
negated (some (suc n)) = if ltb n (2 ^ 63) then some (negsuc n) else none

-- A sign may stand before the digits; none stands for a syntax error or a number out of range.
unfoldable pub parse_int64 : String → Option ℤ
unfolding unsigned
parse_int64 [] = none
parse_int64 (c ∷ s) =
    if eqb (code c) b'-'
    then negated (unsigned s)
    else if eqb (code c) b'+'
    then in_range (unsigned s)
    else in_range (unsigned (c ∷ s))

a_size : parse_int64 "10737418240" ≡ some (pos 10737418240)
unfolding parse_int64
a_size = refl

the_least : parse_int64 "-9223372036854775808" ≡ some (negsuc 9223372036854775807)
unfolding parse_int64
the_least = refl

too_large : parse_int64 "9223372036854775808" ≡ none
unfolding parse_int64
too_large = refl

no_number : parse_int64 "blockdev: Unknown command" ≡ none
unfolding parse_int64
no_number = refl
