-- ===== src/Snapshots/Create.antt =====
-- CreateSnapshot and DeleteSnapshot.
pub mod Laws
use csi_thalassa.Prelude.{
  String, Bool, true, false, not, List, [], ◌∷◌, Option, none, some, ◌==◌, ◌&&◌, if◌then◌else◌,
}
use csi_thalassa.Prelude.Labels.{Labels, add_missing}
use csi_thalassa.Status.{
  Error, status, wrap, text, is_status, is_not_found, invalid_argument, not_found, internal,
  already_exists,
}
use csi_thalassa.Exec.{Exec, pure, fail, deref, handle, ◌>>=◌, ◌>>◌}
use csi_thalassa.Csi.{CreateSnapshotRequest, CsiSnapshot}
use csi_thalassa.Iaas.{Cloud, Snapshot, CreateSnapshot}
use csi_thalassa.Driver.{Driver}
use csi_thalassa.Volumes.Request.{insert_if_given}
use csi_thalassa.Snapshots.Source.{
  filter_by, resolve_volume_identity, snapshot_source_volume_matches, map_to_csi_snapshot,
}

unfoldable pub find_named : String → List Snapshot → Option Snapshot
find_named name [] = none
find_named name (s ∷ l) = if not (s.name == name) then find_named name l else some s

-- `st, ok := status.FromError(err); ok && st.Code() == codes.NotFound`
unfoldable pub is_not_found_status : Error → Bool
is_not_found_status (status not_found m) = true
is_not_found_status (wrap m e) = is_not_found_status e
is_not_found_status _ = false

unfoldable pub snapshot_labels : Driver → CreateSnapshotRequest → Labels
unfolding add_missing
snapshot_labels d req = insert_if_given "k8s.thalassa.cloud/cluster-identity" d.cluster_identity (
    add_missing d.custom_labels (
      ("csi.volume.id", req.source_volume_id)
      ∷ ("k8s.thalassa.cloud/csi-driver", "true")
      ∷ ("k8s.thalassa.cloud/csi-driver-name", d.name)
      ∷ []))

unfoldable pub snapshot_annotations : Driver → CreateSnapshotRequest → Labels
unfolding add_missing
snapshot_annotations d req = add_missing d.custom_annotations (
    ("csi.snapshot.id", req.name)
    ∷ ("k8s.thalassa.cloud/description", "Provisioned by Thalassa CSI driver")
    ∷ [])

unfoldable pub snapshot_request : Driver → CreateSnapshotRequest → String → CreateSnapshot
unfolding snapshot_labels snapshot_annotations
snapshot_request d req volume_identity = record {
  name = req.name;
  volume_identity = volume_identity;
  labels = snapshot_labels d req;
  annotations = snapshot_annotations d req;
}

module _ (c : Cloud) where
  -- The body of the loop for the first snapshot of the wanted name.
  unfoldable pub check_existing :
      Driver → CreateSnapshotRequest → Snapshot → Exec c.State (Option Snapshot)
  unfolding is_not_found_status
  check_existing d req snapshot =
      handle (resolve_volume_identity c d req.source_volume_id)
        (λ e.
          if is_not_found_status e
          then (if snapshot_source_volume_matches req.source_volume_id "" snapshot
              then pure (some snapshot)
              else fail (
                  status already_exists
                    "snapshot %q already exists with a different source volume"))
          else fail e)
        λ resolved.
          if not (snapshot_source_volume_matches req.source_volume_id resolved snapshot)
          then fail
              (status already_exists "snapshot %q already exists with a different source volume")
          else pure (some snapshot)

  unfoldable pub get_or_create_snapshot :
      Driver → CreateSnapshotRequest → Exec c.State (Option Snapshot)
  unfolding check_existing find_named snapshot_request
  get_or_create_snapshot d req =
      handle (c.list_snapshots (filter_by "region" d.region ∷ filter_by "name" req.name ∷ []))
        (λ e. fail (status internal "failed to list snapshots: %s"))
        λ snapshots. elim (find_named req.name snapshots) [
          | some snapshot ↦ check_existing d req snapshot
          | none ↦ do
            volume_identity ← resolve_volume_identity c d req.source_volume_id
            handle (c.create_snapshot (snapshot_request d req volume_identity))
                (λ e. fail (status internal (text e))) pure
        ]

  -- CreateSnapshot from the wait for the snapshot on.
  unfoldable pub await_snapshot : Snapshot → Exec c.State CsiSnapshot
  unfolding map_to_csi_snapshot
  await_snapshot snapshot =
      handle (c.wait_until_snapshot_is_available snapshot.identity)
        (λ e. fail (status internal (text e)))
        λ _.
          handle (c.get_snapshot snapshot.identity)
            (λ e. fail (
              if is_not_found e
              then status not_found "snapshot not found"
              else status internal (text e)))
            λ found. do ready ← deref found; pure (map_to_csi_snapshot ready)

  unfoldable pub create_snapshot : Driver → CreateSnapshotRequest → Exec c.State CsiSnapshot
  unfolding await_snapshot
  create_snapshot d req =
      if req.name == ""
      then fail (status invalid_argument "CreateSnapshot Name must be provided")
      else if req.source_volume_id == ""
      then fail (status invalid_argument "CreateSnapshot Source Volume ID must be provided")
      else handle (get_or_create_snapshot d req)
          (λ e. if is_status e then fail e else fail (status internal (text e)))
          λ snapshot. elim snapshot [
            | none ↦ fail (status not_found "snapshot not found or not created")
            | some snap ↦ await_snapshot snap
          ]

  unfoldable pub delete_snapshot : String → Exec c.State (Unit {0})
  delete_snapshot snapshot_id =
      if snapshot_id == ""
      then fail (status invalid_argument "DeleteSnapshot Snapshot ID must be provided")
      else handle (c.delete_snapshot snapshot_id)
          (λ e. if is_not_found e then pure tt else fail (status internal (text e))) (λ _. pure tt)
