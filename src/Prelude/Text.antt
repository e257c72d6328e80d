-- ===== src/Prelude/Text.antt =====
-- The parts of Go's `strings`, `sort` and `path/filepath` that the driver calls, over native texts.
use Prim.Native.Char.{Char, code}
use Prim.Native.String.{String, compare, count, [], ◌∷◌}
use Prim.Native.Nat.{ℕ, zero, suc, ◌+◌, ◌-◌, Ordering}
use mathlib.Core.Path.{◌≡◌, refl}
use mathlib.Core.Bool.{Bool, true, false, ◌&&◌, ◌||◌}
use mathlib.Core.List.{List}
use native.Mathlib.Omega.{arith}
use text.Mathlib.Text.{◌==◌, starts_with}
use csi_thalassa.Prelude.Tests.{leb, eqb, if◌then◌else◌}

-- Go compares texts by their bytes, which is the order of the code points in UTF-8.
unfoldable pub text_le : String → String → Bool
text_le s t = elim (compare s t) [ Ordering.gt ↦ false | _ ↦ true ]

-- `unicode.IsSpace`
is_space : ℕ → Bool
is_space c =
    (leb 0x9 c && leb c 0xd)
    || eqb c 0x20
    || eqb c 0x85
    || eqb c 0xa0
    || eqb c 0x1680
    || (leb 0x2000 c && leb c 0x200a)
    || eqb c 0x2028
    || eqb c 0x2029
    || eqb c 0x202f
    || eqb c 0x205f
    || eqb c 0x3000

trim_left : String → String
trim_left [] = []
trim_left (c ∷ s) = if is_space (code c) then trim_left s else c ∷ s

trim_right : String → String
trim_right [] = []
trim_right (c ∷ s) = let r = trim_right s in if r == "" && is_space (code c) then [] else c ∷ r

-- `strings.TrimSpace`
unfoldable pub trim_space : String → String
unfolding trim_left trim_right is_space
trim_space s = trim_right (trim_left s)

-- One letter of the orbit under simple folding that an ASCII letter has: U+212A folds to `k` and
-- U+017F to `s`. Other letters stand for themselves.
fold_code : ℕ → ℕ
fold_code c =
    if leb b'A' c && leb c b'Z'
    then c + 32
    else if eqb c 0x212a
    then b'k'
    else if eqb c 0x17f
    then b's'
    else c

-- `strings.EqualFold`, exact where one of the texts is ASCII.
unfoldable pub equal_fold : String → String → Bool
unfolding fold_code
equal_fold [] [] = true
equal_fold [] (d ∷ t) = false
equal_fold (c ∷ s) [] = false
equal_fold (c ∷ s) (d ∷ t) = eqb (fold_code (code c)) (fold_code (code d)) && equal_fold s t

add_head : Char → List String → List String
add_head c List.[] = List.◌∷◌ (c ∷ []) List.[]
add_head c (List.◌∷◌ p ps) = List.◌∷◌ (c ∷ p) ps

-- The number says how many characters of a separator are still to be passed over.
split_at : String → ℕ → String → List String
split_at sep n [] = List.◌∷◌ [] List.[]
split_at sep (suc n) (c ∷ s) = split_at sep n s
split_at sep zero (c ∷ s) = elim (starts_with (c ∷ s) sep) [
  | true ↦ List.◌∷◌ [] (split_at sep (count sep - 1) s)
  | false ↦ add_head c (split_at sep zero s)
]

-- `strings.Split` at a separator that is not empty
unfoldable pub split : String → String → List String
unfolding split_at add_head
split s sep = split_at sep 0 s

pub equal_fold_refl : (s : String) → equal_fold s s ≡ true
unfolding equal_fold
equal_fold_refl [] = refl
equal_fold_refl (c ∷ s) = ground (arith, equal_fold_refl s)

pub equal_fold_comm : (s t : String) → equal_fold s t ≡ equal_fold t s
unfolding equal_fold
equal_fold_comm [] [] = refl
equal_fold_comm [] (d ∷ t) = refl
equal_fold_comm (c ∷ s) [] = refl
equal_fold_comm (c ∷ s) (d ∷ t) = ground (arith, equal_fold_comm s t)
