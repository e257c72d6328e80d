-- ===== src/Csi.antt =====
-- The parts of the CSI messages that the driver reads and writes. They are generated from the
-- specification (vendor/github.com/container-storage-interface); a field that the driver does not
-- use is left out, and a nil slice or message field of a scalar type is its empty value.
use csi_thalassa.Prelude.{ℕ, String, Bool, Option, List}
use csi_thalassa.Prelude.Signed.{ℤ}
use csi_thalassa.Prelude.Labels.{Labels}
use csi_thalassa.Capacity.{CapacityRange}

-- `VolumeCapability_AccessMode_Mode`; a capability without access mode reads as `unknown`.
pub data AccessMode : Type 0 where
  unknown single_node_writer single_node_reader_only multi_node_reader_only : AccessMode
  multi_node_single_writer multi_node_multi_writer : AccessMode
  single_node_single_writer single_node_multi_writer : AccessMode

pub record MountVolume : Type 0 where
  pub fs_type : String
  pub mount_flags : List String

-- `GetAccessType()`
pub data AccessType : Type 0 where
  no_type : AccessType
  block : AccessType
  mount : MountVolume → AccessType

pub record VolumeCapability : Type 0 where
  pub access_mode : AccessMode
  pub access_type : AccessType

-- `VolumeContentSource`: another kind than a snapshot counts as none of its own.
pub data ContentSource : Type 0 where
  snapshot : String → ContentSource
  other_source : ContentSource

pub record CreateVolumeRequest : Type 0 where
  pub name : String
  pub volume_capabilities : List VolumeCapability
  pub capacity_range : Option CapacityRange
  -- the `Segments` of each required topology, or none at all
  pub requisite : Option (List Labels)
  pub parameters : Labels
  pub volume_content_source : Option ContentSource

-- `csi.Volume`
pub record CsiVolume : Type 0 where
  pub volume_id : String
  pub capacity_bytes : ℤ
  pub accessible_topology : List Labels
  pub content_source : Option ContentSource

pub record ListVolumesRequest : Type 0 where
  pub max_entries : ℤ
  pub starting_token : String

pub record VolumeEntry : Type 0 where
  pub volume : CsiVolume
  pub published_node_ids : List String

pub record ListVolumesResponse : Type 0 where
  pub entries : List VolumeEntry
  pub next_token : String

pub record ExpandVolumeRequest : Type 0 where
  pub volume_id : String
  pub capacity_range : Option CapacityRange
  pub volume_capability : Option VolumeCapability

pub record ExpandVolumeResponse : Type 0 where
  pub capacity_bytes : ℤ
  pub node_expansion_required : Bool

-- `csi.Snapshot`
pub record CsiSnapshot : Type 0 where
  pub snapshot_id : String
  pub source_volume_id : String
  pub size_bytes : ℤ
  pub creation_time : ℕ
  pub ready_to_use : Bool

pub record CreateSnapshotRequest : Type 0 where
  pub name : String
  pub source_volume_id : String

pub record ListSnapshotsRequest : Type 0 where
  pub snapshot_id : String
  pub source_volume_id : String
  pub max_entries : ℤ
  pub starting_token : String

pub record ListSnapshotsResponse : Type 0 where
  pub entries : List CsiSnapshot
  pub next_token : String

pub record ControllerPublishRequest : Type 0 where
  pub volume_id : String
  pub node_id : String
  pub volume_capability : Option VolumeCapability
  pub readonly : Bool

pub record NodeStageRequest : Type 0 where
  pub volume_id : String
  pub staging_target_path : String
  pub volume_capability : Option VolumeCapability
  pub volume_context : Labels

pub record NodePublishRequest : Type 0 where
  pub volume_id : String
  pub staging_target_path : String
  pub target_path : String
  pub volume_capability : Option VolumeCapability
  pub readonly : Bool

-- One unit's part of `VolumeUsage`: available, total and used.
pub record VolumeUsage : Type 0 where
  pub available : ℤ
  pub total : ℤ
  pub used : ℤ

pub data NodeRpc : Type 0 where
  stage_unstage_volume expand_volume get_volume_stats : NodeRpc

pub record NodeInfo : Type 0 where
  pub node_id : String
  pub max_volumes_per_node : ℕ
  pub accessible_topology : Labels
