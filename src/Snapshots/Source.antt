-- ===== src/Snapshots/Source.antt =====
-- Which volume a snapshot was taken of, and the snapshot as CSI has it.
pub mod Laws
use csi_thalassa.Prelude.{
  String, Bool, true, false, not, List, [], ◌∷◌, Option, none, some, ◌==◌, ◌&&◌, if◌then◌else◌,
}
use csi_thalassa.Prelude.Signed.{ℤ, pos, ◌*ℤ◌}
use csi_thalassa.Status.{status, internal, not_found}
use csi_thalassa.Exec.{Result, ok, err, Exec, fail, lift, handle}
use csi_thalassa.Capacity.{gib}
use csi_thalassa.Csi.{CsiSnapshot}
use csi_thalassa.Iaas.{Cloud, Volume, Snapshot, Filter}
use csi_thalassa.Driver.{Driver}

unfoldable pub snapshot_source_volume_identity : Snapshot → String
snapshot_source_volume_identity snapshot = elim snapshot.source_volume [
  | some volume ↦ volume.identity
  | none ↦ elim snapshot.source_volume_id [ some id ↦ id | none ↦ "" ]
]

source_volume_named : String → Option Volume → Bool
source_volume_named name none = false
source_volume_named name (some volume) = name == volume.name

unfoldable pub snapshot_source_volume_matches : String → String → Snapshot → Bool
unfolding source_volume_named
snapshot_source_volume_matches requested resolved snapshot =
    let existing = snapshot_source_volume_identity snapshot in
    if existing == ""
    then false
    else if not (resolved == "")
    then resolved == existing
    else if requested == existing
    then true
    else source_volume_named requested snapshot.source_volume

unfoldable pub map_to_csi_snapshot : Snapshot → CsiSnapshot
unfolding ◌*ℤ◌
map_to_csi_snapshot snap = record {
  snapshot_id = snap.identity;
  source_volume_id = elim snap.source_volume [ none ↦ "" | some volume ↦ volume.identity ];
  size_bytes = elim snap.size_gb [ none ↦ pos 0 | some size ↦ size *ℤ gib ];
  creation_time = snap.created_at;
  ready_to_use = snap.status == "Available";
}

abbrev pub filter_by : String → String → Filter
filter_by key value = record { key = key; value = value }

-- The one volume of a list, or an error.
unfoldable pub only_volume : List Volume → Result String
only_volume [] = err (status not_found "volume with name %q not found")
only_volume (v ∷ []) = ok v.identity
only_volume (v ∷ w ∷ l) = err (status internal "multiple volumes found with name %q")

-- The identity of the volume that a text names, by its identity or else by its name.
unfoldable pub resolve_volume_identity : (c : Cloud) → Driver → String → Exec c.State String
unfolding only_volume
resolve_volume_identity c d volume_id =
    handle (c.list_volumes (filter_by "region" d.region ∷ filter_by "identity" volume_id ∷ []))
      (λ e. fail (status internal "failed to list volumes: %s"))
      (elim [
        | [] ↦
            handle (c.list_volumes (filter_by "region" d.region ∷ filter_by "name" volume_id ∷ []))
              (λ e. fail (status internal "failed to list volumes: %s"))
              (λ volumes. lift (only_volume volumes))
        | v ∷ l ↦ lift (only_volume (v ∷ l))
      ])
