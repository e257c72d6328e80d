-- ===== src/Prelude/Print.antt =====
-- The parts of Go's `strconv` and `strings` that print a number: digits, a floating-point number to
-- one decimal, and the removal of an end.
pub mod Laws
use Prim.Native.Char.{Char}
use Prim.Native.String.{String, [], ◌∷◌, ◌++◌ as ◌<>◌}
use Prim.Native.Nat.{ℕ, zero, suc, ◌+◌, ◌*◌, ◌/◌, ◌%◌, ◌^◌}
use mathlib.Core.Path.{◌≡◌, refl}
use text.Mathlib.Text.{◌==◌}
use csi_thalassa.Prelude.Tests.{ltb, eqb, if◌then◌else◌}

-- The character of a number below 10.
unfoldable pub digit : ℕ → Char
digit n =
    if eqb n 0
    then "0"
    else if eqb n 1
    then "1"
    else if eqb n 2
    then "2"
    else if eqb n 3
    then "3"
    else if eqb n 4
    then "4"
    else if eqb n 5
    then "5"
    else if eqb n 6
    then "6"
    else if eqb n 7
    then "7"
    else if eqb n 8
    then "8"
    else "9"

-- A number of at most so many digits, before what stands behind it.
unfoldable pub decimal_before : ℕ → ℕ → String → String
unfolding digit
decimal_before zero n s = s
decimal_before (suc k) n s =
    let rest = decimal_before k (n / 10) (digit (n % 10) ∷ s) in
    if ltb n 10 then digit n ∷ s else rest

-- A number below 10 ^ 20 in decimal digits.
unfoldable pub decimal : ℕ → String
decimal n = decimal_before 20 n []

-- The integer nearest to a fraction, the even one of two.
unfoldable pub nearest : ℕ → ℕ → ℕ
nearest a d =
    if ltb (2 * (a % d)) d
    then a / d
    else if ltb d (2 * (a % d))
    then a / d + 1
    else if eqb (a / d % 2) 0
    then a / d
    else a / d + 1

-- The distance of the floating-point numbers with 53 bits around an integer below 2 ^ 63.
unfoldable pub spacing : ℕ → ℕ
spacing n =
    if ltb n (2 ^ 53)
    then 1
    else if ltb n (2 ^ 54)
    then 2
    else if ltb n (2 ^ 55)
    then 4
    else if ltb n (2 ^ 56)
    then 8
    else if ltb n (2 ^ 57)
    then 16
    else if ltb n (2 ^ 58)
    then 32
    else if ltb n (2 ^ 59)
    then 64
    else if ltb n (2 ^ 60)
    then 128
    else if ltb n (2 ^ 61)
    then 256
    else if ltb n (2 ^ 62)
    then 512
    else 1024

-- `float64(n)` for an integer from 0 to 2 ^ 63 - 1.
unfoldable pub float64 : ℕ → ℕ
unfolding spacing
float64 n = nearest n (spacing n) * spacing n

-- `strconv.FormatFloat(a / d, 'f', 1, 64)` for a number that is not negative.
unfoldable pub format_float : ℕ → ℕ → String
unfolding decimal nearest
format_float a d =
    let tenths = nearest (10 * a) d in decimal (tenths / 10) <> "." <> decimal (tenths % 10)

-- `strings.TrimSuffix`
unfoldable pub trim_suffix : String → String → String
trim_suffix [] t = []
trim_suffix (c ∷ s) t = let rest = trim_suffix s t in if (c ∷ s) == t then [] else c ∷ rest

rounds_to_even : format_float 5 4 ≡ "1.2"
unfolding format_float decimal_before digit
rounds_to_even = refl

rounds_up : format_float 1048575 1024 ≡ "1024.0"
unfolding format_float decimal_before digit
rounds_up = refl

a_trimmed_text : trim_suffix "10.0" ".0" ≡ "10"
unfolding trim_suffix
a_trimmed_text = refl
