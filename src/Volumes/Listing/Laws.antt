-- ===== src/Volumes/Listing/Laws.antt =====
-- What a page of ListVolumes reports, and what a client sees that asks for all pages.
use csi_thalassa.Prelude.All.{All}
use csi_thalassa.Prelude.{
  ℕ, zero, suc, ◌<◌, String, ◌≡◌, refl, sym, ap, ◌∙◌, inl, inr, List, [], ◌∷◌, Option, none, some,
  map, arith, ◌==◌, if◌then◌else◌, ltb, Bool-cases, ◌^◌, length, length-map,
}
use csi_thalassa.Prelude.Signed.{ℤ, pos}
use csi_thalassa.Exec.{Result, ok, err, settle, fail, pure}
use csi_thalassa.Csi.{ListVolumesRequest, ListVolumesResponse, VolumeEntry}
use csi_thalassa.Iaas.{Cloud, Volume}
use csi_thalassa.Driver.{Driver}
use csi_thalassa.Index.{by_identity}
use csi_thalassa.Index.Laws.{lookup-by_identity}
use csi_thalassa.Pagination.{Page, sort_strings, slice, paginate_identities}
use csi_thalassa.Pagination.Sorted.{count}
use csi_thalassa.Pagination.Slice.{map-slice}
use csi_thalassa.Pagination.Walk.{walk, join, IsDistinct, walk-sort_strings}
use csi_thalassa.Volumes.Listing.{
  region_filter, effective_max_entries, entry_of, volumes_response, list_volumes,
}

abbrev pub identities : List Volume → List String
identities = map (λ (v : Volume). v.identity)

abbrev pub entry_ids : ListVolumesResponse → List String
entry_ids r = map (λ (e : VolumeEntry). e.volume.volume_id) r.entries

map-map {ℓ} :
    {A : Type ℓ} (f : A → String) (g : String → A) (l : List String)
    → map f (map g l) ≡ map (λ x. f (g x)) l
map-map f g [] = refl
map-map f g (x ∷ l) = ap (◌∷◌ (f (g x))) (map-map f g l)

anything : (l : List Volume) → All (λ _. Unit {0}) l
anything [] = tt
anything (v ∷ l) = (tt, anything l)

entry_of-identity :
    (vols : List Volume) (id : String)
    → 0 < count id (identities vols)
    → (entry_of (by_identity (λ (v : Volume). v.identity) vols []) id).volume.volume_id ≡ id
unfolding entry_of
entry_of-identity vols id h =
    let (v, found, _, same) =
      lookup-by_identity (λ (v : Volume). v.identity) (λ _. Unit {0}) vols id (anything vols) h in
    rw (found, entry_of) same

next_token-volumes_response :
    (vols : List Volume) (p : Page) → (volumes_response vols p).next_token ≡ p.next_token
unfolding volumes_response
next_token-volumes_response vols p = refl

-- A page lists the identities that the pagination cuts out, each once and in that order.
pub entry_ids-volumes_response :
    (vols : List Volume) (token : String) (max : ℤ) {p : Page}
    → paginate_identities (identities vols) token max ≡ ok p
    → entry_ids (volumes_response vols p) ≡ slice p
unfolding volumes_response
entry_ids-volumes_response vols token max {p} h =
    map-map (λ (e : VolumeEntry). e.volume.volume_id)
      (entry_of (by_identity (λ (v : Volume). v.identity) vols [])) (slice p)
    ∙ map-slice
        (λ id. (entry_of (by_identity (λ (v : Volume). v.identity) vols []) id).volume.volume_id)
        (identities vols) token max h (entry_of-identity vols)

abbrev answer : List Volume → Result Page → Result ListVolumesResponse
answer vols (ok p) = ok (volumes_response vols p)
answer vols (err e) = err e

-- If the API lists these volumes, the answer is the page of them that the request asks for, or the
-- error of the pagination.
pub list_volumes-answer :
    (c : Cloud) (d : Driver) (req : ListVolumesRequest) (vols : List Volume) (s s' : c.State)
    → c.list_volumes (region_filter d ∷ []) s ≡ (ok vols, s')
    → list_volumes c d req s ≡ (
      answer vols (
          paginate_identities
            (identities vols)
            req.starting_token
            (effective_max_entries d req.max_entries)),
      s',
    )
unfolding list_volumes
list_volumes-answer c d req vols s s' listed = rw listed (
    paged (
      paginate_identities (identities vols) req.starting_token
        (effective_max_entries d req.max_entries)))
  where
    paged :
        (r : Result Page)
        → settle fail (λ (page : Page). pure (volumes_response vols page)) r s'
          ≡ (answer vols r, s')
    paged (ok p) = refl
    paged (err e) = refl

-- A client that asks for page after page, as `walk` does.
module _ (c : Cloud) (d : Driver) (max : ℤ) where
  abbrev collect :
      Result ListVolumesResponse → (String → Option (List String)) → Option (List String)
  collect (err e) more = none
  collect (ok r) more =
      if r.next_token == "" then some (entry_ids r) else join (entry_ids r) (more r.next_token)

  pub walk_volumes : ℕ → String → c.State → Option (List String)
  walk_volumes zero token s = none
  walk_volumes (suc fuel) token s =
      let (r, s') = list_volumes c d (record { max_entries = max; starting_token = token }) s in
      collect r (λ next. walk_volumes fuel next s')

  module _ (vols : List Volume)
      (same : (s : c.State)
        → (s' : c.State) × (c.list_volumes (region_filter d ∷ []) s ≡ (ok vols, s'))) where
    -- While the API gives the same volumes at every call, all pages of ListVolumes together name
    -- what the pages of their identities hold.
    pub walk_volumes-walk :
        (fuel : ℕ) (token : String) (s : c.State)
        → walk_volumes fuel token s
          ≡ walk fuel (identities vols) token (effective_max_entries d max)
    unfolding walk_volumes walk
    walk_volumes-walk zero token s = refl
    walk_volumes-walk (suc fuel) token s =
        let (s', listed) = same s in
        rw
          (list_volumes-answer c d (record { max_entries = max; starting_token = token }) vols s s'
            listed)
          (page (paginate_identities (identities vols) token (effective_max_entries d max)) refl s'
            (λ next. walk_volumes-walk fuel next s'))
      where
        page :
            (r : Result Page)
            → paginate_identities (identities vols) token (effective_max_entries d max) ≡ r
            → (s' : c.State)
            → ((next : String)
                → walk_volumes fuel next s'
                  ≡ walk fuel (identities vols) next (effective_max_entries d max))
            → collect (answer vols r) (λ next. walk_volumes fuel next s')
              ≡ walk (suc fuel) (identities vols) token (effective_max_entries d max)
        page (err e) h s' ih = rw (h, walk)
        page (ok p) h s' ih = rw (
          h,
          walk,
          next_token-volumes_response vols p,
          entry_ids-volumes_response vols token (effective_max_entries d max) h,
          ih p.next_token,
        )

effective_max_entries-pos :
    (d : Driver) (max : ℕ)
    → d.default_volumes_page_size < 2 ^ 31
    → (n : ℕ) × (effective_max_entries d (pos max) ≡ pos n)
unfolding effective_max_entries
effective_max_entries-pos d zero h = elim (Bool-cases (ltb 0 d.default_volumes_page_size)) [
  | inl set ↦ (d.default_volumes_page_size, rw set (ground arith))
  | inr unset ↦ (0, rw unset)
]
effective_max_entries-pos d (suc max) h = (suc max, ground arith)

-- A client that asks ListVolumes for page after page, with any page size of 0 or more, sees every
-- volume's identity exactly once, in ascending order, within one request for each volume and one
-- more: if the API gives the same volumes at every call, their identities differ and are not empty,
-- and the default page size fits an `int32`.
pub walk_volumes-sort_strings :
    (c : Cloud) (d : Driver) (vols : List Volume)
    → ((s : c.State) → (s' : c.State) × (c.list_volumes (region_filter d ∷ []) s ≡ (ok vols, s')))
    → IsDistinct (identities vols)
    → d.default_volumes_page_size < 2 ^ 31
    → (max : ℕ) (s : c.State)
    → walk_volumes c d (pos max) (suc (length vols)) "" s ≡ some (sort_strings (identities vols))
walk_volumes-sort_strings c d vols same distinct h max s =
    let (n, e) = effective_max_entries-pos d max h in
    ap (λ (k : ℕ). walk_volumes c d (pos max) (suc k) "" s)
      (sym (length-map vols (λ (v : Volume). v.identity)))
    ∙ walk_volumes-walk c d (pos max) vols same (suc (length (identities vols))) "" s
    ∙ rw e (walk-sort_strings (identities vols) distinct n)
