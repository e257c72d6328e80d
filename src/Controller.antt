-- ===== src/Controller.antt =====
-- The methods of `csi.ControllerServer` that call the Thalassa API, as the gRPC server serves them
-- that driver/controller.go registers the driver with: one goroutine for each request.
pub mod Calls
pub mod Writes
pub mod Replay
pub mod Glimpse
pub mod Tree
pub mod Concurrent
use csi_thalassa.Prelude.{String, List}
use csi_thalassa.Prelude.Labels.{Labels}
use csi_thalassa.Exec.{Exec, pure, ◌>>=◌}
use csi_thalassa.Csi.{
  AccessMode, CreateVolumeRequest, CsiVolume, ListVolumesRequest, ListVolumesResponse,
  ExpandVolumeRequest, ExpandVolumeResponse, CreateSnapshotRequest, CsiSnapshot,
  ListSnapshotsRequest, ListSnapshotsResponse, ControllerPublishRequest,
}
use csi_thalassa.Iaas.{Cloud}
use csi_thalassa.Driver.{Driver}
use csi_thalassa.Capabilities.{ValidateRequest, validate_volume_capabilities}
use csi_thalassa.Volumes.Create.{create_volume, delete_volume}
use csi_thalassa.Volumes.Listing.{list_volumes}
use csi_thalassa.Resize.{controller_expand_volume}
use csi_thalassa.Snapshots.Create.{create_snapshot, delete_snapshot}
use csi_thalassa.Snapshots.Listing.{list_snapshots}
use csi_thalassa.Attachment.{controller_publish_volume, controller_unpublish_volume}

pub data Request : Type 0 where
  create_volume_request : CreateVolumeRequest → Request
  delete_volume_request : String → Request
  publish_request : ControllerPublishRequest → Request
  unpublish_request : (volume_id node_id : String) → Request
  list_volumes_request : ListVolumesRequest → Request
  expand_request : ExpandVolumeRequest → Request
  create_snapshot_request : CreateSnapshotRequest → Request
  delete_snapshot_request : String → Request
  list_snapshots_request : ListSnapshotsRequest → Request
  validate_request : ValidateRequest → Request

pub data Response : Type 0 where
  created_volume : CsiVolume → Response
  published : Labels → Response
  listed_volumes : ListVolumesResponse → Response
  expanded : ExpandVolumeResponse → Response
  created_snapshot : CsiSnapshot → Response
  listed_snapshots : ListSnapshotsResponse → Response
  confirmed : List AccessMode → Response
  -- a response without fields
  empty : Response

module _ (c : Cloud) where
  unfoldable pub serve : Driver → Request → Exec c.State Response
  serve d (create_volume_request req) = do v ← create_volume c d req; pure (created_volume v)
  serve d (delete_volume_request id) = do _ ← delete_volume c id; pure empty
  serve d (publish_request req) = do l ← controller_publish_volume c d req; pure (published l)
  serve d (unpublish_request id node) = do _ ← controller_unpublish_volume c d id node; pure empty
  serve d (list_volumes_request req) = do r ← list_volumes c d req; pure (listed_volumes r)
  serve d (expand_request req) = do r ← controller_expand_volume c req; pure (expanded r)
  serve d (create_snapshot_request req) = do s ← create_snapshot c d req; pure (created_snapshot s)
  serve d (delete_snapshot_request id) = do _ ← delete_snapshot c id; pure empty
  serve d (list_snapshots_request req) = do r ← list_snapshots c d req; pure (listed_snapshots r)
  serve d (validate_request req) = do l ← validate_volume_capabilities c req; pure (confirmed l)
