-- ===== src/Pagination/Slice.antt =====
-- A page holds identities of the list alone.
use csi_thalassa.Prelude.{
  ℕ, zero, suc, ◌-◌, ◌≤◌, ◌<◌, String, ◌≡◌, refl, ap, List, [], ◌∷◌, Option, none, some, map, arith,
  eq_iff, take, drop,
}
use csi_thalassa.Prelude.Signed.{ℤ, pos, negsuc}
use csi_thalassa.Exec.{ok}
use csi_thalassa.Pagination.{
  sort_strings, Page, page_from, starting_index, slice, paginate_identities,
}
use csi_thalassa.Pagination.Sorted.{count, count-sort_strings}

count-take-le : (x : String) (n : ℕ) (l : List String) → count x (take n l) ≤ count x l
unfolding count
count-take-le x zero l = omega arith
count-take-le x (suc n) [] = omega arith
count-take-le x (suc n) (y ∷ l) = ground (arith, count-take-le x n l)

count-drop-le : (x : String) (n : ℕ) (l : List String) → count x (drop n l) ≤ count x l
unfolding count
count-drop-le x zero l = omega arith
count-drop-le x (suc n) [] = omega arith
count-drop-le x (suc n) (y ∷ l) = ground (arith, count-drop-le x n l)

page_from-sorted :
    (l : List String) (max : ℤ) (start : Option ℕ) {p : Page}
    → page_from l max start ≡ ok p
    → p.sorted_identities ≡ l
unfolding page_from
page_from-sorted l (pos max) none h = cc
page_from-sorted l (negsuc max) none h = cc
page_from-sorted l (pos max) (some i) h = ground arith
page_from-sorted l (negsuc max) (some i) h = ground arith

paginate_identities-sorted :
    (ids : List String) (token : String) (max : ℤ) {p : Page}
    → paginate_identities ids token max ≡ ok p
    → p.sorted_identities ≡ sort_strings ids
unfolding paginate_identities
paginate_identities-sorted ids token (pos max) h =
    ground (
      arith,
      page_from-sorted (sort_strings ids) (pos max) (starting_index (sort_strings ids) token),
    )
paginate_identities-sorted ids token (negsuc max) h = ground arith

-- What a page holds came in.
pub count-slice-le :
    (x : String) (ids : List String) (token : String) (max : ℤ) {p : Page}
    → paginate_identities ids token max ≡ ok p
    → count x (slice p) ≤ count x ids
count-slice-le x ids token max {p} h = omega (
  arith,
  count-take-le x (p.end - p.start) (drop p.start p.sorted_identities),
  count-drop-le x p.start p.sorted_identities,
  ap (count x) (paginate_identities-sorted ids token max h),
  count-sort_strings x ids,
)

map-eq_self :
    (f : String → String) (l : List String) → ((x : String) → 0 < count x l → f x ≡ x) → map f l ≡ l
unfolding count
map-eq_self f [] h = refl
map-eq_self f (x ∷ l) h =
    λ i. h x (ground (arith, eq_iff x x)) i ∷ map-eq_self f l (λ y c. h y (ground arith)) i

-- A function that fixes the identities of the list fixes each page.
pub map-slice :
    (f : String → String) (ids : List String) (token : String) (max : ℤ) {p : Page}
    → paginate_identities ids token max ≡ ok p
    → ((x : String) → 0 < count x ids → f x ≡ x)
    → map f (slice p) ≡ slice p
map-slice f ids token max {p} h fixes =
    map-eq_self f (slice p) (λ x c. fixes x (omega (arith, count-slice-le x ids token max h)))
