-- ===== src/Tests/Attachment.antt =====
-- Snapshots and attachments on an API in memory, and the applications of their theorems.
use csi_thalassa.Prelude.{◌≢◌, ◌⊎◌, ◌≡◌, refl, [], ◌∷◌, some, ◌==◌, if◌then◌else◌}
use csi_thalassa.Status.{status, already_exists}
use csi_thalassa.Exec.{ok, err}
use csi_thalassa.Iaas.{Volume}
use csi_thalassa.Snapshots.Source.{resolve_volume_identity}
use csi_thalassa.Snapshots.Create.{create_snapshot, await_snapshot}
use csi_thalassa.Snapshots.Source.{filter_by}
use csi_thalassa.Snapshots.Source.Laws.{IsSource}
use csi_thalassa.Snapshots.Create.Laws.{create_snapshot_named}
use csi_thalassa.Attachment.{
  controller_publish_volume, publish_context, attach_and_wait, find_machine, publish_node_id,
}
use csi_thalassa.Attachment.Laws.{is_attached_to, last_machine, taken_error}
use csi_thalassa.Attachment.Outcome.{controller_publish_volume_outcome}
use csi_thalassa.Tests.World.{
  World, memory, driver, volume, snapshot, world, snapshot_request, publish_request,
}

-- CreateSnapshot leaves the volumes as they are.
abbrev SameVolumes : World → Type 0
SameVolumes w = w.volumes ≡ world.volumes

resolves : resolve_volume_identity memory driver "vol-1" world ≡ (ok "vol-1", world)
unfolding resolve_volume_identity
resolves = refl

-- The snapshots that the API lists under the name.
lists_snap :
    memory.list_snapshots (filter_by "region" "nl-1" ∷ filter_by "name" "snap-1" ∷ []) world
    ≡ (ok (snapshot "snap-1" ∷ []), world)
lists_snap = refl

named_snap : (snapshot_request "snap-1").name ≢ ""
named_snap same = absurd (cc same)

sourced_snap : (snapshot_request "snap-1").source_volume_id ≢ ""
sourced_snap same = absurd (cc same)

create_snapshot_named_example :
    (IsSource "vol-1" "vol-1" (snapshot "snap-1")
      × (create_snapshot memory driver (snapshot_request "snap-1") world
          ≡ await_snapshot memory (snapshot "snap-1") world))
    ⊎ ((¬ IsSource "vol-1" "vol-1" (snapshot "snap-1"))
        × (create_snapshot memory driver (snapshot_request "snap-1") world ≡ (
          err (status already_exists "snapshot %q already exists with a different source volume"),
          world,
        )))
create_snapshot_named_example =
    create_snapshot_named memory driver (snapshot_request "snap-1") (snapshot "snap-1") [] []
      (ok "vol-1") world world world named_snap sourced_snap lists_snap tt refl resolves refl

-- ControllerPublishVolume and ControllerUnpublishVolume leave the snapshots as they are.
abbrev SameSnapshots : World → Type 0
SameSnapshots w = w.snapshots ≡ world.snapshots

abbrev elsewhere : Volume
elsewhere = volume "vol-1" 8 (record { attached_to_identity = "vm-2" } ∷ [])

-- A world in which the volume is attached to another machine than the request's.
abbrev taken_world : World
taken_world = record world { volumes = elsewhere ∷ [] }

finds_machine : find_machine "node-1" taken_world.machines ≡ some "vm-1"
unfolding find_machine
finds_machine = refl

keeps_node_id : publish_node_id memory driver "node-1" taken_world ≡ (ok "node-1", taken_world)
unfolding publish_node_id
keeps_node_id = refl

controller_publish_volume_outcome_example :
    controller_publish_volume memory driver publish_request taken_world ≡ (
      if is_attached_to "vm-1" elsewhere.attachments
      then (ok (publish_context driver elsewhere), taken_world)
      else if last_machine elsewhere.attachments "" == ""
      then attach_and_wait memory driver "vol-1" elsewhere "vm-1" taken_world
      else (err taken_error, taken_world))
controller_publish_volume_outcome_example =
    controller_publish_volume_outcome memory driver publish_request elsewhere "node-1" "vm-1"
      taken_world.machines taken_world taken_world taken_world taken_world refl refl refl refl refl
      keeps_node_id refl finds_machine
