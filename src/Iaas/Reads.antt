-- ===== src/Iaas/Reads.antt =====
-- The calls that only look at the world.
use csi_thalassa.Prelude.{String, Bool, List}
use csi_thalassa.Exec.{Exec}
use csi_thalassa.Exec.Keeps.{Keeps}
use csi_thalassa.Iaas.{Cloud, Filter}

-- `P` survives every call that reads, and every wait for a condition that it survives.
pub record ReadsKeep (c : Cloud) (P : c.State → Type 0) : Type 0 where
  pub get_volume : (id : String) → Keeps P (c.get_volume id)
  pub list_volumes : (l : List Filter) → Keeps P (c.list_volumes l)
  pub list_volume_types : Keeps P c.list_volume_types
  pub get_machine : (id : String) → Keeps P (c.get_machine id)
  pub list_machines : (l : List Filter) → Keeps P (c.list_machines l)
  pub get_snapshot : (id : String) → Keeps P (c.get_snapshot id)
  pub list_snapshots : (l : List Filter) → Keeps P (c.list_snapshots l)
  pub wait_until_snapshot_is_available :
      (id : String) → Keeps P (c.wait_until_snapshot_is_available id)
  pub poll : (m : Exec c.State Bool) → Keeps P m → Keeps P (c.poll m)
  pub build_kube_config : (k : String) → Keeps P (c.build_kube_config k)
  pub new_kube_client : Keeps P c.new_kube_client
  pub get_node_provider_id : (node : String) → Keeps P (c.get_node_provider_id node)
