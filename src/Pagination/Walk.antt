-- ===== src/Pagination/Walk.antt =====
-- A client that asks for page after page, from no token on, until a page names no further token.
use mathlib.Core.Path.{ap₂}
use csi_thalassa.Prelude.{
  ℕ, zero, suc, ◌-◌, ◌≤◌, ◌<◌, String, ◌≡◌, refl, sym, ap, ◌∙◌, false, List, [], ◌∷◌, ◌++◌, Option,
  none, some, arith, ◌==◌, eq_iff, if◌then◌else◌, length, get_elem?, take, drop, take_all,
  length-drop, take-append-drop, drop-drop, inl, inr,
}
use csi_thalassa.Prelude.Signed.{ℤ, pos}
use csi_thalassa.Exec.{ok, err}
use csi_thalassa.Pagination.{
  sort_strings, find_index, Page, starting_index, slice, paginate_identities,
}
use csi_thalassa.Pagination.Sorted.{count, count-sort_strings, length-sort_strings}
use csi_thalassa.Pagination.Bounds.{IsPage, page_of_index}

abbrev pub join : List String → Option (List String) → Option (List String)
join ids none = none
join ids (some rest) = some (ids ++ rest)

-- The identities of all pages, one after the other; `none` if a page is refused or the fuel ends.
unfoldable pub walk : ℕ → List String → String → ℤ → Option (List String)
walk zero ids token max = none
walk (suc fuel) ids token max = elim (paginate_identities ids token max) [
  | err e ↦ none
  | ok p ↦
      if p.next_token == "" then some (slice p) else join (slice p) (walk fuel ids p.next_token max)
]

-- The identities differ from one another, and none is empty.
pub record IsDistinct (ids : List String) : Type 0 where
  pub once : (x : String) → count x ids ≤ 1
  pub no_empty : count "" ids ≡ 0

count-pos : (x : String) (l : List String) (i : ℕ) → get_elem? l i ≡ some x → 0 < count x l
unfolding count
count-pos x [] i h = ground arith
count-pos x (y ∷ l) zero h = ground (arith, eq_iff y x)
count-pos x (y ∷ l) (suc i) h = ground (arith, count-pos x l i)

find_index-get_elem? :
    (x : String) (l : List String) (i : ℕ)
    → count x l ≤ 1
    → get_elem? l i ≡ some x
    → find_index x l ≡ some i
unfolding count find_index
find_index-get_elem? x [] i d h = ground arith
find_index-get_elem? x (y ∷ l) zero d h = ground (arith, eq_iff y x)
find_index-get_elem? x (y ∷ l) (suc i) d h =
    ground (arith, count-pos x l i, find_index-get_elem? x l i)

take_last : (l : List String) (i j : ℕ) → j ≡ length l → take (j - i) (drop i l) ≡ drop i l
take_last l i j h = take_all (j - i) (drop i l) (omega (arith, length-drop i l))

take_more : (l : List String) (i j : ℕ) → i < j → take (j - i) (drop i l) ++ drop j l ≡ drop i l
take_more l i j h =
    ap (λ (k : ℕ). take (j - i) (drop i l) ++ drop k l) (omega arith)
    ∙ ap (λ (r : List String). take (j - i) (drop i l) ++ r) (sym (drop-drop i (j - i) l))
    ∙ take-append-drop (j - i) (drop i l)

slice_last :
    {l : List String} {max i : ℕ} {p : Page}
    → IsPage l max i p
    → p.end ≡ length p.sorted_identities
    → slice p ≡ drop i l
slice_last {p} page h =
    take_last p.sorted_identities p.start p.end h ∙ ap₂ drop page.start_lem page.sorted_lem

slice_more :
    {l : List String} {max i : ℕ} {p : Page}
    → IsPage l max i p
    → p.start < p.end
    → slice p ++ drop p.end l ≡ drop i l
slice_more {p} page h =
    ap (λ (r : List String). slice p ++ drop p.end r) (sym page.sorted_lem)
    ∙ take_more p.sorted_identities p.start p.end h
    ∙ ap₂ drop page.start_lem page.sorted_lem

module _ (ids : List String) (d : IsDistinct ids) where
  starting_index-get_elem? :
      (x : String) (i : ℕ)
      → get_elem? (sort_strings ids) i ≡ some x
      → (starting_index (sort_strings ids) x ≡ some i) × ((x == "") ≡ false)
  starting_index-get_elem? x i h = ground (
    arith,
    count-pos x (sort_strings ids) i,
    eq_iff x "",
    count-sort_strings x ids,
    d.once x,
    d.no_empty,
    find_index-get_elem? x (sort_strings ids) i,
  )

  walk_from :
      (max fuel i : ℕ) (token : String)
      → starting_index (sort_strings ids) token ≡ some i
      → length (sort_strings ids) - i < fuel
      → walk fuel ids token (pos max) ≡ some (drop i (sort_strings ids))
  unfolding walk
  walk_from max zero i token at h = absurd (omega arith)
  walk_from max (suc fuel) i token at h =
      let (p, e, page) = page_of_index ids token max i at in
      elim page.continues [
        | inl (progress, inside, next) ↦
            let (found, full) =
              starting_index-get_elem? p.next_token p.end
                (ap (λ (l : List String). get_elem? l p.end) (sym page.sorted_lem) ∙ next) in
            rw
              (
                e,
                walk,
                full,
                walk_from max fuel p.end p.next_token found
                    (omega (arith, page.start_lem, ap (length {A = String}) page.sorted_lem)),
              )
              (ap some (slice_more page progress))
        | inr (done, none_left) ↦ rw (e, walk, none_left) (ap some (slice_last page done))
      ]

  -- For identities that differ from one another and are not empty, whatever the page size (0 or
  -- more): the pages from no token on, each asked for with the token of the page before, give every
  -- identity once, in ascending order, within one request for each identity and one more.
  pub walk-sort_strings :
      (max : ℕ) → walk (suc (length ids)) ids "" (pos max) ≡ some (sort_strings ids)
  walk-sort_strings max =
      walk_from max (suc (length ids)) 0 "" refl (omega (arith, length-sort_strings ids))
