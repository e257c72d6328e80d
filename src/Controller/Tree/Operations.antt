-- ===== src/Controller/Tree/Operations.antt =====
-- The operations of the API as trees of one call.
use csi_thalassa.Prelude.{ℕ, String, List, refl, arith}
use csi_thalassa.Iaas.{Filter, CreateVolume, UpdateVolume, CreateSnapshot, ResourceRequest}
use csi_thalassa.Controller.Calls.{Read, Write, read, write, perform}
use csi_thalassa.Controller.Replay.{
  to_done, to_volume, to_volumes, to_volume_types, to_machines, to_snapshot, to_snapshots,
  to_provider_id,
}
use csi_thalassa.Controller.Tree.{IsTree, ask-IsTree}

module _ {n : ℕ} where
  pub get_volume-IsTree : (id : String) → IsTree n 1 (λ c. c.get_volume id)
  unfolding perform
  get_volume-IsTree id =
      ask-IsTree 1 (read (Read.get_volume id)) to_volume _ (omega arith) (λ c s. refl)

  pub list_volumes-IsTree : (l : List Filter) → IsTree n 1 (λ c. c.list_volumes l)
  unfolding perform
  list_volumes-IsTree l =
      ask-IsTree 1 (read (Read.list_volumes l)) to_volumes _ (omega arith) (λ c s. refl)

  pub list_volume_types-IsTree : IsTree n 1 (λ c. c.list_volume_types)
  unfolding perform
  list_volume_types-IsTree =
      ask-IsTree 1 (read Read.list_volume_types) to_volume_types _ (omega arith) (λ c s. refl)

  pub get_machine-IsTree : (id : String) → IsTree n 1 (λ c. c.get_machine id)
  unfolding perform
  get_machine-IsTree id =
      ask-IsTree 1 (read (Read.get_machine id)) to_done _ (omega arith) (λ c s. refl)

  pub list_machines-IsTree : (l : List Filter) → IsTree n 1 (λ c. c.list_machines l)
  unfolding perform
  list_machines-IsTree l =
      ask-IsTree 1 (read (Read.list_machines l)) to_machines _ (omega arith) (λ c s. refl)

  pub get_snapshot-IsTree : (id : String) → IsTree n 1 (λ c. c.get_snapshot id)
  unfolding perform
  get_snapshot-IsTree id =
      ask-IsTree 1 (read (Read.get_snapshot id)) to_snapshot _ (omega arith) (λ c s. refl)

  pub list_snapshots-IsTree : (l : List Filter) → IsTree n 1 (λ c. c.list_snapshots l)
  unfolding perform
  list_snapshots-IsTree l =
      ask-IsTree 1 (read (Read.list_snapshots l)) to_snapshots _ (omega arith) (λ c s. refl)

  pub wait_until_snapshot_is_available-IsTree :
      (id : String) → IsTree n 1 (λ c. c.wait_until_snapshot_is_available id)
  unfolding perform
  wait_until_snapshot_is_available-IsTree id =
      ask-IsTree 1 (read (Read.wait_until_snapshot_is_available id)) to_done _ (omega arith)
        (λ c s. refl)

  pub build_kube_config-IsTree : (k : String) → IsTree n 1 (λ c. c.build_kube_config k)
  unfolding perform
  build_kube_config-IsTree k =
      ask-IsTree 1 (read (Read.build_kube_config k)) to_done _ (omega arith) (λ c s. refl)

  pub new_kube_client-IsTree : IsTree n 1 (λ c. c.new_kube_client)
  unfolding perform
  new_kube_client-IsTree =
      ask-IsTree 1 (read Read.new_kube_client) to_done _ (omega arith) (λ c s. refl)

  pub get_node_provider_id-IsTree : (node : String) → IsTree n 1 (λ c. c.get_node_provider_id node)
  unfolding perform
  get_node_provider_id-IsTree node =
      ask-IsTree 1 (read (Read.get_node_provider_id node)) to_provider_id _ (omega arith)
        (λ c s. refl)

  pub create_volume-IsTree : (r : CreateVolume) → IsTree n 1 (λ c. c.create_volume r)
  unfolding perform
  create_volume-IsTree r =
      ask-IsTree 1 (write (Write.create_volume r)) to_volume _ (omega arith) (λ c s. refl)

  pub update_volume-IsTree :
      (id : String) (u : UpdateVolume) → IsTree n 1 (λ c. c.update_volume id u)
  unfolding perform
  update_volume-IsTree id u =
      ask-IsTree 1 (write (Write.update_volume id u)) to_done _ (omega arith) (λ c s. refl)

  pub delete_volume-IsTree : (id : String) → IsTree n 1 (λ c. c.delete_volume id)
  unfolding perform
  delete_volume-IsTree id =
      ask-IsTree 1 (write (Write.delete_volume id)) to_done _ (omega arith) (λ c s. refl)

  pub attach_volume-IsTree :
      (id : String) (r : ResourceRequest) → IsTree n 1 (λ c. c.attach_volume id r)
  unfolding perform
  attach_volume-IsTree id r =
      ask-IsTree 1 (write (Write.attach_volume id r)) to_done _ (omega arith) (λ c s. refl)

  pub detach_volume-IsTree :
      (id : String) (r : ResourceRequest) → IsTree n 1 (λ c. c.detach_volume id r)
  unfolding perform
  detach_volume-IsTree id r =
      ask-IsTree 1 (write (Write.detach_volume id r)) to_done _ (omega arith) (λ c s. refl)

  pub create_snapshot-IsTree : (r : CreateSnapshot) → IsTree n 1 (λ c. c.create_snapshot r)
  unfolding perform
  create_snapshot-IsTree r =
      ask-IsTree 1 (write (Write.create_snapshot r)) to_snapshot _ (omega arith) (λ c s. refl)

  pub delete_snapshot-IsTree : (id : String) → IsTree n 1 (λ c. c.delete_snapshot id)
  unfolding perform
  delete_snapshot-IsTree id =
      ask-IsTree 1 (write (Write.delete_snapshot id)) to_done _ (omega arith) (λ c s. refl)
