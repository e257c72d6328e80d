-- ===== src/Snapshots/Listing/Laws.antt =====
-- What a page of ListSnapshots reports.
use csi_thalassa.Prelude.All.{All}
use csi_thalassa.Prelude.{◌<◌, String, ◌≡◌, refl, ap, ◌∙◌, List, [], ◌∷◌, map, true, ◌==◌}
use csi_thalassa.Prelude.Signed.{ℤ}
use csi_thalassa.Exec.{Result, ok, err, settle, fail, pure}
use csi_thalassa.Csi.{ListSnapshotsRequest, ListSnapshotsResponse, CsiSnapshot}
use csi_thalassa.Iaas.{Cloud, Snapshot}
use csi_thalassa.Driver.{Driver}
use csi_thalassa.Index.{by_identity}
use csi_thalassa.Index.Laws.{lookup-by_identity}
use csi_thalassa.Pagination.{Page, slice, paginate_identities}
use csi_thalassa.Pagination.Sorted.{count}
use csi_thalassa.Pagination.Slice.{map-slice}
use csi_thalassa.Snapshots.Source.{map_to_csi_snapshot}
use csi_thalassa.Snapshots.Listing.{
  snapshot_filters, snapshot_of, snapshots_response, list_snapshots,
}

abbrev pub snapshot_identities : List Snapshot → List String
snapshot_identities = map (λ (s : Snapshot). s.identity)

abbrev pub snapshot_ids : ListSnapshotsResponse → List String
snapshot_ids r = map (λ (e : CsiSnapshot). e.snapshot_id) r.entries

map-map :
    (f : CsiSnapshot → String) (g : String → CsiSnapshot) (l : List String)
    → map f (map g l) ≡ map (λ x. f (g x)) l
map-map f g [] = refl
map-map f g (x ∷ l) = ap (◌∷◌ (f (g x))) (map-map f g l)

anything : (l : List Snapshot) → All (λ _. Unit {0}) l
anything [] = tt
anything (s ∷ l) = (tt, anything l)

map_to_csi_snapshot-identity : (s : Snapshot) → (map_to_csi_snapshot s).snapshot_id ≡ s.identity
unfolding map_to_csi_snapshot
map_to_csi_snapshot-identity s = refl

snapshot_of-identity :
    (l : List Snapshot) (id : String)
    → 0 < count id (snapshot_identities l)
    → (snapshot_of (by_identity (λ (s : Snapshot). s.identity) l []) id).snapshot_id ≡ id
unfolding snapshot_of
snapshot_of-identity l id h =
    let (s, found, _, same) =
      lookup-by_identity (λ (s : Snapshot). s.identity) (λ _. Unit {0}) l id (anything l) h in
    rw (found, snapshot_of) (map_to_csi_snapshot-identity s ∙ same)

-- A page lists the snapshots that the pagination cuts out, each once and in that order.
pub snapshot_ids-snapshots_response :
    (l : List Snapshot) (token : String) (max : ℤ) {p : Page}
    → paginate_identities (snapshot_identities l) token max ≡ ok p
    → snapshot_ids (snapshots_response l p) ≡ slice p
unfolding snapshots_response
snapshot_ids-snapshots_response l token max {p} h =
    map-map (λ (e : CsiSnapshot). e.snapshot_id)
      (snapshot_of (by_identity (λ (s : Snapshot). s.identity) l [])) (slice p)
    ∙ map-slice
        (λ id. (snapshot_of (by_identity (λ (s : Snapshot). s.identity) l []) id).snapshot_id)
        (snapshot_identities l) token max h (snapshot_of-identity l)

abbrev snapshots_answer : List Snapshot → Result Page → Result ListSnapshotsResponse
snapshots_answer l (ok p) = ok (snapshots_response l p)
snapshots_answer l (err e) = err e

-- If no single snapshot is asked for and the API lists these snapshots, the answer is the page of
-- them that the request asks for, or the error of the pagination.
pub list_snapshots-answer :
    (c : Cloud) (d : Driver) (req : ListSnapshotsRequest) (l : List Snapshot) (s s' : c.State)
    → (req.snapshot_id == "") ≡ true
    → c.list_snapshots (snapshot_filters d req) s ≡ (ok l, s')
    → list_snapshots c d req s ≡ (
      snapshots_answer l
          (paginate_identities (snapshot_identities l) req.starting_token req.max_entries),
      s',
    )
unfolding list_snapshots
list_snapshots-answer c d req l s s' all listed =
    rw (all, listed)
      (paged (paginate_identities (snapshot_identities l) req.starting_token req.max_entries))
  where
    paged :
        (r : Result Page)
        → settle fail (λ (page : Page). pure (snapshots_response l page)) r s'
          ≡ (snapshots_answer l r, s')
    paged (ok p) = refl
    paged (err e) = refl
