-- ===== src/Tests/Node.antt =====
-- Runs of the node's handlers on the mock mounter, and the applications of their theorems.
use csi_thalassa.Prelude.{
  String, ◌≡◌, ◌≢◌, refl, inr, Bool, false, List, [], ◌∷◌, Option, none, some, arith,
}
use csi_thalassa.Prelude.Labels.{lookup, insert}
use csi_thalassa.Prelude.Text.{split}
use csi_thalassa.Status.{Error, plain}
use csi_thalassa.Exec.{Result, ok, err}
use csi_thalassa.Exec.Keeps.{Keeps}
use csi_thalassa.Exec.Ensures.{Ensures}
use csi_thalassa.Csi.{
  AccessMode, AccessType, MountVolume, VolumeCapability, NodeStageRequest, NodePublishRequest,
}
use csi_thalassa.Node.Path.{get_device_by_id_path}
use csi_thalassa.Node.Interface.{Host}
use csi_thalassa.Node.Stage.{node_stage_volume}
use csi_thalassa.Node.Stage.Laws.{node_stage_volume-Keeps}
use csi_thalassa.Node.Publish.{node_publish_volume, node_unpublish_volume}
use csi_thalassa.Node.Publish.Laws.{MountedAt, node_publish_volume-MountedAt}
use csi_thalassa.Node.Mock.{
  MockMounter, inject, new_mock_mounter, mock_host, mock_is_formatted, mock_is_mounted, mock_mount,
}
use csi_thalassa.Node.Mock.Table.{mock-QuietKeep}
use csi_thalassa.Node.Mock.Laws.{IsComplete, node_unpublish_volume-mock}
use csi_thalassa.Config.{NewDriverParams, new_driver, controller_driver, parse_custom_labels}
use csi_thalassa.Config.Laws.{last_value, lookup-parse_custom_labels}
use csi_thalassa.Tests.World.{driver}

abbrev pub stat : String → Result (Unit {0})
stat path = err (plain "no such file or directory")

abbrev pub link : String → Result String
link path = ok "/dev/sdb"

abbrev pub need : String → String → Result Bool
need device path = ok false

abbrev pub host : Host
host = mock_host stat link need need

abbrev mnt : MountVolume
mnt = record { fs_type = "ext4"; mount_flags = "noatime" ∷ [] }

abbrev pub file_system : VolumeCapability
file_system = record {
  access_mode = AccessMode.single_node_writer;
  access_type = AccessType.mount mnt;
}

abbrev pub stage_request : NodeStageRequest
stage_request = record {
  volume_id = "vol-1";
  staging_target_path = "/staging";
  volume_capability = some file_system;
  volume_context = [];
}

abbrev pub publish_request : NodePublishRequest
publish_request = record {
  volume_id = "vol-1";
  staging_target_path = "/staging";
  target_path = "/target";
  volume_capability = some file_system;
  readonly = false;
}

-- The volume's device has the file system that it has.
abbrev pub IsExt4 : MockMounter → Type 0
IsExt4 m = lookup (get_device_by_id_path "vol-1") m.formatted_devices ≡ some "ext4"

pub IsExt4-formatted :
    (m : MockMounter)
    → IsExt4 m
    → (host.is_formatted (get_device_by_id_path "vol-1") m).0 ≢ ok false
unfolding mock_is_formatted
IsExt4-formatted m p = rw p (ground arith)

IsExt4-mount :
    (fs_type : String) (options : List String)
    → Keeps IsExt4 (host.mount (get_device_by_id_path "vol-1") "/staging" fs_type options)
unfolding mock_mount
IsExt4-mount fs_type options m p = injected (lookup "/staging" m.mount_errors)
  where
    injected :
        (o : Option Error)
        → IsExt4
            (inject o m (record m {
              mount_points = insert "/staging" (get_device_by_id_path "vol-1") m.mount_points;
            })).1
    injected none = p
    injected (some e) = p

node_stage_volume-Keeps_example : Keeps IsExt4 (node_stage_volume host driver stage_request)
node_stage_volume-Keeps_example =
    node_stage_volume-Keeps host IsExt4 (mock-QuietKeep stat link need need IsExt4).looks driver
      stage_request (inr IsExt4-formatted) IsExt4-mount (λ s p. p)

node_publish_volume-MountedAt_example :
    Ensures
      (λ _. MountedAt host "/target")
      (node_publish_volume host publish_request new_mock_mounter)
node_publish_volume-MountedAt_example =
    node_publish_volume-MountedAt host publish_request new_mock_mounter

-- Something is mounted at the target.
abbrev IsBusy : MockMounter → Type 0
IsBusy m = lookup "/target" m.mount_points ≡ some "/other"

IsBusy-mounted : (m : MockMounter) → IsBusy m → (host.is_mounted "/target" m).0 ≢ ok false
unfolding mock_is_mounted
IsBusy-mounted m p = rw p (ground arith)

complete : IsComplete publish_request mnt
complete = record {
  volume = refl;
  staging = refl;
  target = refl;
  mode = AccessMode.single_node_writer;
  capability = refl;
}

nothing {ℓ} : {V : Type ℓ} → lookup {V = V} "/target" [] ≡ none
unfolding lookup
nothing = refl

node_unpublish_volume-mock_example :
    lookup "/target"
      (node_unpublish_volume host "vol-1" "/target"
        (node_publish_volume host publish_request new_mock_mounter).1).1.mount_points
    ≡ lookup "/target" []
node_unpublish_volume-mock_example =
    node_unpublish_volume-mock stat link need need new_mock_mounter publish_request mnt "/target"
      complete nothing nothing nothing

abbrev params : NewDriverParams
params = record {
  csi_endpoint = "unix:///csi.sock";
  thalassa_token = "";
  thalassa_client_id = "id";
  thalassa_client_secret = "secret";
  thalassa_url = "https://api.thalassa.cloud";
  thalassa_organisation = "org";
  thalassa_project = "";
  thalassa_insecure = false;
  region = "nl-1";
  vpc = "vpc-1";
  cluster = "";
  driver_name = "";
  debug_addr = "";
  volume_limit = 16;
  node_id = "";
  kube_config = "/etc/kubeconfig";
}

makes_driver : new_driver "v1" (λ _. ok tt) (ok tt) params ≡ ok (controller_driver params)
unfolding new_driver
makes_driver = refl

lookup-parse_custom_labels_example :
    lookup "team" (parse_custom_labels "team=a,zone,team=b")
    ≡ last_value "team" (split "team=a,zone,team=b" ",")
lookup-parse_custom_labels_example = lookup-parse_custom_labels "team" "team=a,zone,team=b" refl
