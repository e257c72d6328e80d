-- ===== src/Config.antt =====
-- How a driver is configured (driver/controller.go, driver/nodedriver.go), what it says of itself
-- (driver/identity.go), and its check of the API (driver/health.go).
pub mod Laws
use csi_thalassa.Prelude.{
  ℕ, String, Bool, true, false, not, List, [], ◌∷◌, ◌++◌, ◌==◌, ◌&&◌, ◌<>◌, if◌then◌else◌,
}
use csi_thalassa.Prelude.Labels.{Labels, insert}
use csi_thalassa.Prelude.Text.{split}
use csi_thalassa.Status.{Error, plain, wrap, status, unimplemented}
use csi_thalassa.Exec.{Result, ok, err, Exec, pure, fail, handle, settle}
use csi_thalassa.Iaas.{Cloud, Filter}
use csi_thalassa.Driver.{Driver}
use csi_thalassa.Snapshots.Source.{filter_by}

abbrev pub default_driver_name : String
default_driver_name = "csi.k8s.thalassa.cloud"

abbrev pub driver_name : String → String
driver_name name = if name == "" then default_driver_name else name

pub record NewDriverParams : Type 0 where
  pub csi_endpoint : String
  pub thalassa_token : String
  pub thalassa_client_id : String
  pub thalassa_client_secret : String
  pub thalassa_url : String
  pub thalassa_organisation : String
  pub thalassa_project : String
  pub thalassa_insecure : Bool
  pub region : String
  pub vpc : String
  pub cluster : String
  pub driver_name : String
  pub debug_addr : String
  pub volume_limit : ℕ
  pub node_id : String
  pub kube_config : String

-- The options of the API's client.
pub data ClientOption : Type 0 where
  with_base_url with_organisation with_user_agent with_project with_auth_personal_token :
      String → ClientOption
  with_insecure : ClientOption
  with_auth_oidc : (client_id client_secret url : String) → ClientOption
  with_auth_oidc_insecure : (client_id client_secret url : String) → Bool → ClientOption

abbrev token_url : NewDriverParams → String
token_url p = p.thalassa_url <> "/oidc/token"

unfoldable pub auth_options : NewDriverParams → List ClientOption
auth_options p =
    if not (p.thalassa_client_id == "") && not (p.thalassa_client_secret == "")
    then (if p.thalassa_insecure
        then with_auth_oidc_insecure p.thalassa_client_id p.thalassa_client_secret (token_url p)
            p.thalassa_insecure
          ∷ []
        else with_auth_oidc p.thalassa_client_id p.thalassa_client_secret (token_url p) ∷ [])
    else if not (p.thalassa_token == "")
    then with_auth_personal_token p.thalassa_token ∷ []
    else []

unfoldable pub client_options : String → NewDriverParams → List ClientOption
unfolding auth_options
client_options version p =
    with_base_url p.thalassa_url
      ∷ with_organisation p.thalassa_organisation
      ∷ with_user_agent ("github.com/thalassa-cloud/csi-thalassa/" <> version)
      ∷ (if p.thalassa_insecure then with_insecure ∷ [] else [])
    ++ (if not (p.thalassa_project == "") then with_project p.thalassa_project ∷ [] else [])
    ++ auth_options p

-- The driver of the controller. The fields that the source does not set have their zero value.
unfoldable pub controller_driver : NewDriverParams → Driver
controller_driver p = record {
  name = driver_name p.driver_name;
  publish_info_volume_name = driver_name p.driver_name <> "/volume-name";
  endpoint = p.csi_endpoint;
  debug_addr = p.debug_addr;
  region = p.region;
  node_id = p.node_id;
  default_volumes_page_size = 0;
  validate_attachment = false;
  vpc = p.vpc;
  cluster_identity = p.cluster;
  project_id = p.thalassa_project;
  http_srv = false;
  ready = false;
  volume_limit = p.volume_limit;
  kube_config = "";
  custom_labels = [];
  custom_annotations = [];
}

-- `NewDriver`, over `client.NewClient` and `iaas.New`.
unfoldable pub new_driver :
    (version : String) (new_client : List ClientOption → Result (Unit {0}))
    (new_iaas : Result (Unit {0}))
    → NewDriverParams
    → Result Driver
unfolding client_options controller_driver
new_driver version new_client new_iaas p = elim (new_client (client_options version p)) [
  | err e ↦ err (plain "failed to initialize Thalassa client: %s")
  | ok _ ↦ elim new_iaas [
    | err e ↦ err (plain "failed to initialize Thalassa IaaS client: %s")
    | ok _ ↦ ok (controller_driver p)
  ]
]

pub record NewNodeDriverParams : Type 0 where
  pub csi_endpoint : String
  pub driver_name : String
  pub debug_addr : String
  pub validate_attachment : Bool
  pub volume_limit : ℕ
  pub node_id : String
  pub region : String
  pub vpc : String
  pub project : String
  pub cluster : String
  pub custom_labels : String
  pub custom_annotations : String

-- One `key=value` of the list; other texts are passed over.
unfoldable pub add_label : List String → Labels → Labels
unfolding insert
add_label (k ∷ v ∷ []) labels = insert k v labels
add_label _ labels = labels

unfoldable pub add_labels : List String → Labels → Labels
unfolding add_label split
add_labels [] labels = labels
add_labels (label ∷ l) labels = add_labels l (add_label (split label "=") labels)

unfoldable pub parse_custom_labels : String → Labels
unfolding add_labels
parse_custom_labels custom_labels =
    if custom_labels == "" then [] else add_labels (split custom_labels ",") []

unfoldable pub new_node_driver : NewNodeDriverParams → Driver
unfolding parse_custom_labels
new_node_driver p = record {
  name = driver_name p.driver_name;
  publish_info_volume_name = driver_name p.driver_name <> "/volume-name";
  endpoint = p.csi_endpoint;
  debug_addr = p.debug_addr;
  region = p.region;
  node_id = p.node_id;
  default_volumes_page_size = 0;
  validate_attachment = p.validate_attachment;
  vpc = p.vpc;
  cluster_identity = p.cluster;
  project_id = "";
  http_srv = false;
  ready = false;
  volume_limit = p.volume_limit;
  kube_config = "";
  custom_labels = parse_custom_labels p.custom_labels;
  custom_annotations = parse_custom_labels p.custom_annotations;
}

pub data PluginCapability : Type 0 where
  controller_service volume_accessibility_constraints online_expansion : PluginCapability

abbrev pub get_plugin_capabilities : List PluginCapability
get_plugin_capabilities =
    controller_service ∷ volume_accessibility_constraints ∷ online_expansion ∷ []

-- the driver's name and the version that the build sets
abbrev pub get_plugin_info : (version : String) → Driver → String × String
get_plugin_info version d = (d.name, version)

abbrev pub probe : Driver → Bool
probe d = d.ready

-- GetCapacity, ControllerGetVolume and ControllerModifyVolume
abbrev pub unserved {ℓ} : {A : Type ℓ} → Result A
unserved = err (status unimplemented "")

abbrev pub health_filters : String → List Filter
health_filters region = if not (region == "") then filter_by "region" region ∷ [] else []

-- `tcHealthChecker.Check`
unfoldable pub check_health : (c : Cloud) → String → Exec c.State (Unit {0})
check_health c region =
    handle (c.list_regions (health_filters region))
      (λ e. fail (wrap "thalassa API health check failed" e)) λ _. pure tt
