-- ===== src/Snapshots/Listing.antt =====
-- ListSnapshots: one snapshot by its identity, or a page of those of the region.
pub mod Laws
use csi_thalassa.Prelude.{
  String, Bool, not, List, [], ◌∷◌, ◌++◌, Option, none, some, map, ◌==◌, if◌then◌else◌,
}
use csi_thalassa.Prelude.Labels.{lookup}
use csi_thalassa.Status.{status, text, internal}
use csi_thalassa.Exec.{Exec, pure, fail, lift, deref, handle, ◌>>=◌}
use csi_thalassa.Csi.{ListSnapshotsRequest, ListSnapshotsResponse, CsiSnapshot}
use csi_thalassa.Iaas.{Cloud, Snapshot, Filter}
use csi_thalassa.Driver.{Driver}
use csi_thalassa.Index.{by_identity}
use csi_thalassa.Pagination.{Page, slice, paginate_identities}
use csi_thalassa.Snapshots.Source.{filter_by, map_to_csi_snapshot}

unfoldable pub snapshot_filters : Driver → ListSnapshotsRequest → List Filter
snapshot_filters d req =
    if req.source_volume_id == ""
    then filter_by "region" d.region ∷ []
    else filter_by "region" d.region ∷ filter_by "SourceVolume" req.source_volume_id ∷ []

-- What Go reads from the map under a missing key.
abbrev zero_snapshot : Snapshot
zero_snapshot = record {
  identity = "";
  name = "";
  source_volume_id = none;
  source_volume = none;
  size_gb = none;
  status = "";
  created_at = 0;
}

unfoldable pub snapshot_of : List (String × Snapshot) → String → CsiSnapshot
unfolding map_to_csi_snapshot
snapshot_of m identity = elim (lookup identity m) [
  | none ↦ map_to_csi_snapshot zero_snapshot
  | some snap ↦ map_to_csi_snapshot snap
]

unfoldable pub snapshots_response : List Snapshot → Page → ListSnapshotsResponse
unfolding by_identity snapshot_of lookup
snapshots_response snapshots p = record {
  entries = map (snapshot_of (by_identity (λ (s : Snapshot). s.identity) snapshots [])) (slice p);
  next_token = p.next_token;
}

module _ (c : Cloud) where
  -- The answer for one wanted snapshot.
  unfoldable pub get_one : String → Exec c.State ListSnapshotsResponse
  unfolding map_to_csi_snapshot
  get_one snapshot_id =
      handle (c.get_snapshot snapshot_id) (λ e. fail (status internal (text e)))
        λ found. do
          snap ← deref found
          pure (record { entries = map_to_csi_snapshot snap ∷ []; next_token = "" })

  unfoldable pub list_snapshots : Driver → ListSnapshotsRequest → Exec c.State ListSnapshotsResponse
  unfolding snapshot_filters snapshots_response get_one
  list_snapshots d req =
      if not (req.snapshot_id == "")
      then get_one req.snapshot_id
      else handle (c.list_snapshots (snapshot_filters d req)) (λ e. fail (status internal (text e)))
          λ snapshots. do
            page ← lift (
                paginate_identities (map (λ (s : Snapshot). s.identity) snapshots)
                  req.starting_token req.max_entries)
            pure (snapshots_response snapshots page)
