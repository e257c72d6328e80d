-- ===== src/Driver.antt =====
-- The driver's configuration: the fields of `Driver` in driver/controller.go that its methods read.
use csi_thalassa.Prelude.{ℕ, String, Bool}
use csi_thalassa.Prelude.Labels.{Labels}

pub record Driver : Type 0 where
  pub name : String
  pub publish_info_volume_name : String
  pub endpoint : String
  pub debug_addr : String
  pub region : String
  pub node_id : String
  pub default_volumes_page_size : ℕ
  pub validate_attachment : Bool
  pub vpc : String
  pub cluster_identity : String
  pub project_id : String
  -- whether `httpSrv` is set
  pub http_srv : Bool
  pub ready : Bool
  pub volume_limit : ℕ
  pub kube_config : String
  pub custom_labels : Labels
  pub custom_annotations : Labels
