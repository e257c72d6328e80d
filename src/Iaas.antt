-- ===== src/Iaas.antt =====
-- The Thalassa API client (vendor/github.com/thalassa-cloud/client-go), the Kubernetes client and
-- `wait.PollUntilContextTimeout`, as the driver calls them: an interface over an unknown state of
-- the world. A call answers with a value or an error; a pointer that may be nil is an `Option`.
pub mod Reads
pub mod Store
use csi_thalassa.Prelude.{ℕ, String, Bool, Option, List}
use csi_thalassa.Prelude.Signed.{ℤ}
use csi_thalassa.Prelude.Labels.{Labels}
use csi_thalassa.Exec.{Exec}

pub record VolumeAttachment : Type 0 where
  pub attached_to_identity : String

pub record Volume : Type 0 where
  pub identity : String
  pub name : String
  pub description : String
  pub status : String
  pub labels : Labels
  pub annotations : Labels
  pub attachments : List VolumeAttachment
  -- in GiB
  pub size : ℤ
  pub delete_protection : Bool

pub record VolumeType : Type 0 where
  pub identity : String
  pub name : String

pub record Snapshot : Type 0 where
  pub identity : String
  pub name : String
  pub source_volume_id : Option String
  pub source_volume : Option Volume
  pub size_gb : Option ℤ
  pub status : String
  pub created_at : ℕ

pub record Machine : Type 0 where
  pub identity : String
  pub name : String
  pub slug : String

-- `filters.FilterKeyValue`
pub record Filter : Type 0 where
  pub key : String
  pub value : String

-- `iaas.CreateVolume`
pub record CreateVolume : Type 0 where
  pub name : String
  pub cloud_region_identity : String
  pub description : String
  pub size : ℤ
  pub volume_type_identity : String
  pub labels : Labels
  pub annotations : Labels
  pub restore_from_snapshot_id : Option String

-- `iaas.UpdateVolume`
pub record UpdateVolume : Type 0 where
  pub name : String
  pub description : String
  pub labels : Labels
  pub annotations : Labels
  pub size : ℤ
  pub delete_protection : Bool

-- `iaas.CreateSnapshotRequest`
pub record CreateSnapshot : Type 0 where
  pub name : String
  pub volume_identity : String
  pub labels : Labels
  pub annotations : Labels

-- `iaas.AttachVolumeRequest` and `iaas.DetachVolumeRequest`
pub record ResourceRequest : Type 0 where
  pub resource_identity : String
  pub resource_type : String

pub record Cloud : Type 1 where
  pub State : Type 0
  pub get_volume : String → Exec State (Option Volume)
  pub list_volumes : List Filter → Exec State (List Volume)
  pub create_volume : CreateVolume → Exec State (Option Volume)
  pub update_volume : String → UpdateVolume → Exec State (Unit {0})
  pub delete_volume : String → Exec State (Unit {0})
  pub attach_volume : String → ResourceRequest → Exec State (Unit {0})
  pub detach_volume : String → ResourceRequest → Exec State (Unit {0})
  pub list_volume_types : Exec State (List VolumeType)
  pub get_machine : String → Exec State (Unit {0})
  pub list_machines : List Filter → Exec State (List Machine)
  pub get_snapshot : String → Exec State (Option Snapshot)
  pub list_snapshots : List Filter → Exec State (List Snapshot)
  pub create_snapshot : CreateSnapshot → Exec State (Option Snapshot)
  pub delete_snapshot : String → Exec State (Unit {0})
  pub wait_until_snapshot_is_available : String → Exec State (Unit {0})
  pub list_regions : List Filter → Exec State (Unit {0})
  -- `wait.PollUntilContextTimeout` with the driver's interval and timeout
  pub poll : Exec State Bool → Exec State (Unit {0})
  -- `clientcmd.BuildConfigFromFlags`, `kubernetes.NewForConfig`, and the node's `Spec.ProviderID`
  pub build_kube_config : String → Exec State (Unit {0})
  pub new_kube_client : Exec State (Unit {0})
  pub get_node_provider_id : String → Exec State String
