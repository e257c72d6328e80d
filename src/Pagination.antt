-- ===== src/Pagination.antt =====
-- driver/pagination.go: one page of the sorted identities.
pub mod Sorted
pub mod Bounds
pub mod Slice
pub mod Walk
use csi_thalassa.Prelude.{
  ℕ, zero, suc, ◌+◌, ◌-◌, String, Bool, true, false, ◌&&◌, Option, none, some, List, [], ◌∷◌, ltb,
  length, take, drop, get_elem?, ◌==◌, if◌then◌else◌,
}
use csi_thalassa.Prelude.Signed.{ℤ, pos, negsuc, ltℤ}
use csi_thalassa.Prelude.Text.{text_le}
use csi_thalassa.Status.{status, invalid_argument, aborted, panic}
use csi_thalassa.Exec.{Result, ok, err}

insert_sorted : String → List String → List String
insert_sorted x [] = x ∷ []
insert_sorted x (y ∷ l) = if text_le x y then x ∷ y ∷ l else y ∷ insert_sorted x l

-- `sort.Strings`: the ascending list is the same for every algorithm.
unfoldable pub sort_strings : List String → List String
unfolding insert_sorted
sort_strings [] = []
sort_strings (x ∷ l) = insert_sorted x (sort_strings l)

-- The loop that looks for the starting token.
unfoldable pub find_index : String → List String → Option ℕ
find_index token [] = none
find_index token (id ∷ l) = elim (id == token) [
  | true ↦ some 0
  | false ↦ elim (find_index token l) [ none ↦ none | some i ↦ some (suc i) ]
]

-- `sortedIdentities, start, end, nextToken`
pub record Page : Type 0 where
  pub sorted_identities : List String
  pub start : ℕ
  pub end : ℕ
  pub next_token : String

-- `nextToken = sortedIdentities[end]`
cut : List String → ℕ → ℕ → Option String → Result Page
cut sorted start end none = err panic
cut sorted start end (some token) =
    ok (record { sorted_identities = sorted; start = start; end = end; next_token = token })

page_from : List String → ℤ → Option ℕ → Result Page
unfolding cut
page_from sorted max none = err (status aborted "invalid starting token %q")
page_from sorted (pos max) (some start) =
    if ltb 0 max && ltb max (length sorted - start)
    then cut sorted start (start + max) (get_elem? sorted (start + max))
    else ok
        (record { sorted_identities = sorted; start = start; end = length sorted; next_token = "" })
page_from sorted (negsuc max) (some start) =
    ok (record { sorted_identities = sorted; start = start; end = length sorted; next_token = "" })

abbrev pub starting_index : List String → String → Option ℕ
starting_index sorted token = if token == "" then some 0 else find_index token sorted

unfoldable pub paginate_identities : List String → String → ℤ → Result Page
unfolding page_from sort_strings find_index
paginate_identities identities starting_token max_entries =
    if ltℤ max_entries (pos 0)
    then err (status invalid_argument "max entries cannot be negative")
    else let sorted = sort_strings identities in
      page_from sorted max_entries (starting_index sorted starting_token)

-- `sortedIdentities[start:end]`
abbrev pub slice : Page → List String
slice p = take (p.end - p.start) (drop p.start p.sorted_identities)
