-- ===== src/Pagination/Sorted.antt =====
-- The sorted identities are ascending, and are those that came in.
use Prim.Native.Nat.{Ordering, compare as compare_ℕ}
use Prim.Native.Char.{code}
use Prim.Native.String.{compare, then as first_of_both}
use Prim.Native.String.compare
use csi_thalassa.Prelude.{
  ℕ, suc, ◌+◌, String, ◌≡◌, refl, sym, ◌∙◌, true, false, List, [], ◌∷◌, arith, ◌==◌, length,
  if◌then◌else◌,
}
use csi_thalassa.Prelude.Text.{text_le}
use csi_thalassa.Pagination.{insert_sorted, sort_strings}

unfoldable pub count : String → List String → ℕ
count x [] = 0
count x (y ∷ l) = if y == x then 1 + count x l else count x l

flip_codes :
    (a b : ℕ) (o p : Ordering)
    → (o ≡ Ordering.gt → p ≡ Ordering.lt)
    → first_of_both (compare_ℕ a b) o ≡ Ordering.gt
    → first_of_both (compare_ℕ b a) p ≡ Ordering.lt
flip_codes a b o p h e = ground (arith, h)

compare_flip : (s t : String) → compare s t ≡ Ordering.gt → compare t s ≡ Ordering.lt
compare_flip String.[] String.[] h = cc (h, compare.nil-nil)
compare_flip String.[] (String.◌∷◌ d t) h = cc (h, compare.nil-cons d t)
compare_flip (String.◌∷◌ c s) String.[] h = compare.nil-cons c s
compare_flip (String.◌∷◌ c s) (String.◌∷◌ d t) h =
    compare.cons-cons d c t s
    ∙ flip_codes (code c) (code d) (compare s t) (compare t s) (compare_flip s t)
        (sym (compare.cons-cons c d s t) ∙ h)

text_le_total : (s t : String) → text_le s t ≡ false → text_le t s ≡ true
unfolding text_le
text_le_total s t h = ground (arith, compare_flip s t)

abbrev pub IsSorted : List String → Type 0
IsSorted [] = Unit
IsSorted (x ∷ []) = Unit
IsSorted (x ∷ y ∷ l) = (text_le x y ≡ true) × IsSorted (y ∷ l)

insert_sorted-IsSorted : (x : String) (l : List String) → IsSorted l → IsSorted (insert_sorted x l)
unfolding insert_sorted
insert_sorted-IsSorted x [] h = tt
insert_sorted-IsSorted x (y ∷ []) h = ground (arith, text_le_total x y)
insert_sorted-IsSorted x (y ∷ z ∷ l) h =
    ground (arith, text_le_total x y, insert_sorted-IsSorted x (z ∷ l) h.1)

-- Sorting puts every text before those that are not smaller.
pub sort_strings-IsSorted : (l : List String) → IsSorted (sort_strings l)
unfolding sort_strings
sort_strings-IsSorted [] = tt
sort_strings-IsSorted (x ∷ l) = insert_sorted-IsSorted x (sort_strings l) (sort_strings-IsSorted l)

count-insert_sorted :
    (z x : String) (l : List String) → count z (insert_sorted x l) ≡ count z (x ∷ l)
unfolding count insert_sorted
count-insert_sorted z x [] = refl
count-insert_sorted z x (y ∷ l) = ground (arith, count-insert_sorted z x l)

-- Sorting keeps the number of times that each text occurs.
pub count-sort_strings : (z : String) (l : List String) → count z (sort_strings l) ≡ count z l
unfolding count sort_strings
count-sort_strings z [] = refl
count-sort_strings z (x ∷ l) =
    ground (arith, count-insert_sorted z x (sort_strings l), count-sort_strings z l)

length-insert_sorted : (x : String) (l : List String) → length (insert_sorted x l) ≡ suc (length l)
unfolding insert_sorted
length-insert_sorted x [] = refl
length-insert_sorted x (y ∷ l) = ground (arith, length-insert_sorted x l)

pub length-sort_strings : (l : List String) → length (sort_strings l) ≡ length l
unfolding sort_strings
length-sort_strings [] = refl
length-sort_strings (x ∷ l) =
    ground (arith, length-insert_sorted x (sort_strings l), length-sort_strings l)
