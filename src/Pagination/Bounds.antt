-- ===== src/Pagination/Bounds.antt =====
-- Every page lies inside the sorted list, and a request fails in two ways only.
use csi_thalassa.Prelude.{
  ℕ, zero, suc, ◌+◌, ◌-◌, ◌≤◌, ◌<◌, String, ◌≡◌, ◌≢◌, refl, ap, eq_iff, ◌==◌, false, List, [], ◌∷◌,
  Option, none, some, arith, length, get_elem?, ltb, ◌⊎◌, ◌↔◌, ◌&&◌, inl, inr, Bool-cases,
}
use csi_thalassa.Prelude.Signed.{pos, negsuc}
use csi_thalassa.Status.{status, invalid_argument, aborted}
use csi_thalassa.Exec.{ok, err}
use csi_thalassa.Pagination.{
  sort_strings, find_index, Page, starting_index, page_from, paginate_identities,
}

pub get_elem?-lt :
    (l : List String) (i : ℕ) → i < length l → (x : String) × (get_elem? l i ≡ some x)
get_elem?-lt [] i h = absurd (omega arith)
get_elem?-lt (x ∷ l) zero h = (x, refl)
get_elem?-lt (x ∷ l) (suc i) h = get_elem?-lt l i (omega arith)

find_index-lt :
    (token : String) (l : List String) (i : ℕ) → find_index token l ≡ some i → i < length l
unfolding find_index
find_index-lt token [] i h = ground arith
find_index-lt token (id ∷ l) zero h = omega arith
find_index-lt token (id ∷ l) (suc i) h = ground (arith, find_index-lt token l i)

pub starting_index-le :
    (l : List String) (token : String) (i : ℕ) → starting_index l token ≡ some i → i ≤ length l
starting_index-le l token i h = ground (arith, find_index-lt token l i)

-- The page [start, end) of `n` identities, at most `max` long where there is a maximum.
pub record InBounds (max : ℕ) (p : Page) : Type 0 where
  pub ordered : p.start ≤ p.end
  pub inside : p.end ≤ length p.sorted_identities
  pub short : 0 < max → p.end - p.start ≤ max

-- A page that is cut short is not empty, and names the first identity that it leaves out; the last
-- page names none.
abbrev Continues : Page → Type 0
Continues p =
    ((p.start < p.end)
      × (p.end < length p.sorted_identities)
      × (get_elem? p.sorted_identities p.end ≡ some p.next_token))
    ⊎ ((p.end ≡ length p.sorted_identities) × (p.next_token ≡ ""))

pub record IsPage (sorted : List String) (max start : ℕ) (p : Page) : Type 0 where
  pub sorted_lem : p.sorted_identities ≡ sorted
  pub start_lem : p.start ≡ start
  pub bounds : InBounds max p
  pub continues : Continues p

-- A valid start gives a page, and never a panic.
page_from-IsPage :
    (l : List String) (max start : ℕ)
    → start ≤ length l
    → (p : Page) × (page_from l (pos max) (some start) ≡ ok p) × IsPage l max start p
unfolding page_from
page_from-IsPage l max start h = elim (Bool-cases (ltb 0 max && ltb max (length l - start))) [
  | inl more ↦
      let (token, at) = get_elem?-lt l (start + max) (ground arith) in
      (
        record { sorted_identities = l; start = start; end = start + max; next_token = token },
        rw (more, at),
        ground arith,
      )
  | inr last ↦ (
    record { sorted_identities = l; start = start; end = length l; next_token = "" },
    rw last,
    ground arith,
  )
]

ltb-zero : (n : ℕ) → ltb n 0 ≡ false
ltb-zero n = ground arith

paginate_identities-nonneg :
    (ids : List String) (token : String) (max : ℕ)
    → paginate_identities ids token (pos max)
      ≡ page_from (sort_strings ids) (pos max) (starting_index (sort_strings ids) token)
unfolding paginate_identities
paginate_identities-nonneg ids token max = rw (ltb-zero max)

page_from-aborted :
    (l : List String) (max : ℕ) (start : Option ℕ)
    → ((i : ℕ) → start ≡ some i → i ≤ length l)
    → (start ≡ none)
      ↔ (page_from l (pos max) start ≡ err (status aborted "invalid starting token %q"))
unfolding page_from
page_from-aborted l max none h = (λ e. refl, λ e. refl)
page_from-aborted l max (some i) h =
    let (p, e, _) = page_from-IsPage l max i (h i refl) in (λ x. cc, λ x. cc)

pub page_of_index :
    (ids : List String) (token : String) (max i : ℕ)
    → starting_index (sort_strings ids) token ≡ some i
    → (p : Page) × (paginate_identities ids token (pos max) ≡ ok p)
      × IsPage (sort_strings ids) max i p
page_of_index ids token max i h =
    rw (paginate_identities-nonneg ids token max, h)
      (page_from-IsPage (sort_strings ids) max i (starting_index-le (sort_strings ids) token i h))

-- Where a page begins: at the front without a token, and else where the token stands first.
abbrev pub StartsAt : List String → String → ℕ → Type 0
StartsAt l token i =
    ((token ≡ "") × (i ≡ 0))
    ⊎ ((token ≢ "") × (get_elem? l i ≡ some token) × ((j : ℕ) → j < i → get_elem? l j ≢ some token))

find_index-first :
    (token : String) (l : List String) (i : ℕ)
    → get_elem? l i ≡ some token
    → ((j : ℕ) → j < i → get_elem? l j ≢ some token)
    → find_index token l ≡ some i
unfolding find_index
find_index-first token [] i at first = absurd (cc)
find_index-first token (id ∷ l) zero at first = ground (arith, (eq_iff id token).1 (cc at))
find_index-first token (id ∷ l) (suc i) at first = elim (Bool-cases (id == token)) [
  | inl same ↦ absurd (first 0 (omega arith) (ap some ((eq_iff id token).0 same)))
  | inr differs ↦
      ground (arith, differs, find_index-first token l i at (λ j h. first (suc j) (omega arith)))
]

starting_index-StartsAt :
    (l : List String) (token : String) (i : ℕ)
    → StartsAt l token i
    → starting_index l token ≡ some i
starting_index-StartsAt l token i (inl (none_given, front)) =
    rw ((eq_iff token "").1 none_given, front) refl
starting_index-StartsAt l token i (inr (given, at, first)) = elim (Bool-cases (token == "")) [
  | inl same ↦ absurd (given ((eq_iff token "").0 same))
  | inr differs ↦ rw differs (find_index-first token l i at first)
]

-- A request with a page size of 0 or more, and with no token or one of the identities, gets a page
-- of the sorted identities that begins at the front or at the place where the token stands first:
-- inside the list, no longer than the size (0 is no limit), and with the token of the first identity
-- left out, or none if it is the last.
pub paginate_identities-IsPage :
    (ids : List String) (token : String) (max i : ℕ)
    → StartsAt (sort_strings ids) token i
    → (p : Page) × (paginate_identities ids token (pos max) ≡ ok p)
      × IsPage (sort_strings ids) max i p
paginate_identities-IsPage ids token max i starts =
    page_of_index ids token max i (starting_index-StartsAt (sort_strings ids) token i starts)

-- A page is refused in two cases: always if the page size is negative, and else exactly if the
-- token is not among the identities.
pub paginate_identities_refused :
    (ids : List String) (token : String)
    → ((n : ℕ)
        → paginate_identities ids token (negsuc n)
          ≡ err (status invalid_argument "max entries cannot be negative"))
      × ((max : ℕ)
          → (starting_index (sort_strings ids) token ≡ none) ↔ (
              paginate_identities ids token (pos max)
              ≡ err (status aborted "invalid starting token %q")))
unfolding paginate_identities
paginate_identities_refused ids token = (
  λ n. refl,
  λ max. rw (paginate_identities-nonneg ids token max) (
      page_from-aborted (sort_strings ids) max (starting_index (sort_strings ids) token)
        (starting_index-le (sort_strings ids) token)),
)
