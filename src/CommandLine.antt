-- ===== src/CommandLine.antt =====
-- The program's commands: cmd/thalassa-csi-plugin/cmd (plugin.go, root.go, version.go).
pub mod Laws
use csi_thalassa.Prelude.{
  ℕ, String, Bool, true, false, not, List, [], ◌∷◌, Option, none, some, ◌==◌, ◌<>◌, if◌then◌else◌,
}
use csi_thalassa.Status.{Error, plain, wrap}
use csi_thalassa.Exec.{Result, ok, err, Exec, pure, fail, lift, handle, settle}
use csi_thalassa.Driver.{Driver}
use csi_thalassa.Config.{
  ClientOption, NewDriverParams, new_driver, NewNodeDriverParams, new_node_driver,
  default_driver_name,
}

-- The values of the flags: viper's `GetString`, `GetBool` and `GetUint`.
pub record Viper : Type 0 where
  pub get_string : String → String
  pub get_bool : String → Bool
  pub get_uint : String → ℕ

unfoldable pub controller_params : Viper → NewDriverParams
controller_params v = record {
  csi_endpoint = v.get_string "csi-endpoint";
  thalassa_token = v.get_string "thalassa-token";
  thalassa_client_id = v.get_string "thalassa-client-id";
  thalassa_client_secret = v.get_string "thalassa-client-secret";
  thalassa_url = v.get_string "thalassa-url";
  thalassa_organisation = v.get_string "organisation";
  thalassa_project = v.get_string "thalassa-project";
  thalassa_insecure = v.get_bool "thalassa-insecure";
  region = v.get_string "thalassa-region";
  vpc = v.get_string "vpc";
  cluster = v.get_string "cluster";
  driver_name = v.get_string "driver-name";
  debug_addr = v.get_string "debug-addr";
  volume_limit = v.get_uint "volume-limit";
  node_id = v.get_string "node-id";
  kube_config = v.get_string "kube-config";
}

-- The custom labels and annotations are not set, and so are empty.
unfoldable pub node_params : Viper → NewNodeDriverParams
node_params v = record {
  csi_endpoint = v.get_string "csi-endpoint";
  driver_name = v.get_string "driver-name";
  debug_addr = v.get_string "debug-addr";
  validate_attachment = v.get_bool "validate-attachment";
  volume_limit = v.get_uint "volume-limit";
  node_id = v.get_string "node-id";
  region = v.get_string "thalassa-region";
  vpc = v.get_string "vpc";
  project = v.get_string "thalassa-project";
  cluster = v.get_string "cluster";
  custom_labels = "";
  custom_annotations = "";
}

-- What the command calls: the client's constructors, and the drivers' `Run` and `RunNode`.
pub record Program : Type 1 where
  pub State : Type 0
  pub version : String
  pub new_client : List ClientOption → Result (Unit {0})
  pub new_iaas : Result (Unit {0})
  pub run : Driver → Exec State (Unit {0})
  pub run_node : Driver → Exec State (Unit {0})

module _ (p : Program) where
  unfoldable pub plugin_controller : Viper → Exec p.State (Unit {0})
  unfolding new_driver controller_params
  plugin_controller v =
      handle (lift (new_driver p.version p.new_client p.new_iaas (controller_params v)))
        (λ e. fail (wrap "failed to create controller" e))
        λ controller. handle (p.run controller) (λ e. fail (wrap "failed to run driver" e)) pure

  -- NewNodeDriver returns no error.
  unfoldable pub plugin_node : Viper → Exec p.State (Unit {0})
  unfolding new_node_driver node_params
  plugin_node v =
      handle (pure (new_node_driver (node_params v)))
        (λ e. fail (wrap "failed to create node driver" e))
        λ drv. handle (p.run_node drv) (λ e. fail (wrap "failed to run driver" e)) pure

  -- The command `plugin`
  unfoldable pub plugin : Viper → Exec p.State (Unit {0})
  unfolding plugin_controller plugin_node
  plugin v =
      if v.get_string "mode" == "controller"
      then plugin_controller v
      else if v.get_string "mode" == "node"
      then plugin_node v
      else fail (plain "invalid mode: %s")

  -- `Execute`: the program's exit status
  unfoldable pub execute : Viper → p.State → ℕ × p.State
  unfolding plugin
  execute v s = let (r, s') = plugin v s in (elim r [ ok _ ↦ 0 | err e ↦ 1 ], s')

-- A flag's default.
pub data Default : Type 0 where
  a_string : String → Default
  a_bool : Bool → Default
  a_uint : ℕ → Default

-- The flags of `plugin`.
unfoldable pub flags : List (String × Default)
flags =
    ("mode", a_string "node")
    ∷ (
      "csi-endpoint",
      a_string ("unix:///var/lib/kubelet/plugins/" <> default_driver_name <> "/csi.sock"),
    )
    ∷ ("driver-name", a_string default_driver_name)
    ∷ ("debug-addr", a_string "")
    ∷ ("validate-attachment", a_bool false)
    ∷ ("volume-limit", a_uint 20)
    ∷ ("node-id", a_string "")
    ∷ ("custom-labels", a_string "")
    ∷ ("custom-annotations", a_string "")
    ∷ ("thalassa-token", a_string "")
    ∷ ("thalassa-client-id", a_string "")
    ∷ ("thalassa-client-secret", a_string "")
    ∷ ("thalassa-insecure", a_bool false)
    ∷ ("thalassa-url", a_string "https://api.thalassa.cloud/")
    ∷ ("thalassa-region", a_string "")
    ∷ ("thalassa-project", a_string "")
    ∷ ("organisation", a_string "")
    ∷ ("kube-config", a_string "")
    ∷ ("cluster", a_string "")
    ∷ ("vpc", a_string "")
    ∷ []

-- What `initConfig` asks of viper.
pub data ConfigCall : Type 0 where
  set_config_file add_config_path set_config_type set_config_name : String → ConfigCall
  automatic_env read_in_config : ConfigCall

-- `initConfig`, over the home directory: an error ends the program. A configuration file that
-- cannot be read is passed over.
unfoldable pub init_config : (cfg_file : String) → Result String → Result (List ConfigCall)
init_config cfg_file home =
    let rest = automatic_env ∷ read_in_config ∷ [] in
    if not (cfg_file == "") then ok (set_config_file cfg_file ∷ rest) else elim home [
      | err e ↦ err e
      | ok dir ↦ ok (
          add_config_path dir
          ∷ set_config_type "yaml"
          ∷ set_config_name ".thalassa-csi-plugin"
          ∷ rest)
    ]

-- The text that the command `version` prints
abbrev pub version_line : (version commit tree_state : String) → String
version_line version commit tree_state = version <> " - " <> commit <> " (" <> tree_state <> ")"
