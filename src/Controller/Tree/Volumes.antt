-- ===== src/Controller/Tree/Volumes.antt =====
-- The handlers of requests about volumes as trees of their calls.
use csi_thalassa.Prelude.{ℕ, String, Option, none, some}
use csi_thalassa.Prelude.Signed.{ℤ}
use csi_thalassa.Csi.{
  ContentSource, CsiVolume, snapshot, other_source, CreateVolumeRequest, ExpandVolumeRequest,
  ListVolumesRequest,
}
use csi_thalassa.Iaas.{CreateVolume, Volume}
use csi_thalassa.Exec.{Exec, lift}
use csi_thalassa.Driver.{Driver}
use csi_thalassa.Capabilities.{ValidateRequest, validate_volume_capabilities}
use csi_thalassa.Volumes.Request.{create_volume_response_from_existing}
use csi_thalassa.Volumes.Create.{
  resolve_volume_type_identity, apply_snapshot_restore, create_new_volume, find_or_create,
  volume_identity, create_volume, delete_volume,
}
use csi_thalassa.Volumes.Listing.{list_volumes}
use csi_thalassa.Resize.{controller_expand_volume, grow}
use csi_thalassa.Controller.Tree.{handle-IsTree, IsTree, lift-IsTree, >>=-IsTree, tree_rules}
use csi_thalassa.Controller.Tree.Operations.{
  list_volumes-IsTree, get_snapshot-IsTree, get_volume-IsTree, delete_volume-IsTree,
  update_volume-IsTree, list_volume_types-IsTree, create_volume-IsTree,
}

module _ {n : ℕ} where
  pub ListVolumes-IsTree :
      (d : Driver) (req : ListVolumesRequest) → IsTree n 1 (λ c. list_volumes c d req)
  unfolding list_volumes
  ListVolumes-IsTree d req = search (tree_rules, list_volumes-IsTree)

  pub DeleteVolume-IsTree : (id : String) → IsTree n 1 (λ c. delete_volume c id)
  unfolding delete_volume
  DeleteVolume-IsTree id = search (tree_rules, delete_volume-IsTree)

  pub Validate-IsTree :
      (req : ValidateRequest) → IsTree n 1 (λ c. validate_volume_capabilities c req)
  unfolding validate_volume_capabilities
  Validate-IsTree req = search (tree_rules, get_volume-IsTree)

  pub Expand-IsTree : (req : ExpandVolumeRequest) → IsTree n 2 (λ c. controller_expand_volume c req)
  unfolding controller_expand_volume grow
  Expand-IsTree req = search (tree_rules, get_volume-IsTree, update_volume-IsTree) depth 10

  resolve_type-IsTree : (param : String) → IsTree n 1 (λ c. resolve_volume_type_identity c param)
  unfolding resolve_volume_type_identity
  resolve_type-IsTree param = search (tree_rules, list_volume_types-IsTree) depth 10

  restore-IsTree :
      (source : Option ContentSource) (r : CreateVolume)
      → IsTree n 1 (λ c. apply_snapshot_restore c source r)
  unfolding apply_snapshot_restore
  restore-IsTree none r = lift-IsTree
  restore-IsTree (some other_source) r = lift-IsTree
  restore-IsTree (some (snapshot id)) r = search (tree_rules, get_snapshot-IsTree)

  create_new_volume-IsTree :
      (d : Driver) (req : CreateVolumeRequest) (size : ℤ)
      → IsTree n 3 (λ c. create_new_volume c d req size)
  unfolding create_new_volume
  create_new_volume-IsTree d req size = >>=-IsTree 1 2 _ _ (resolve_type-IsTree _) λ type_identity.
      >>=-IsTree 1 1 _ _ (restore-IsTree req.volume_content_source _)
        λ r. search (tree_rules, >>=-IsTree 1 0, create_volume-IsTree)

  find_or_create-IsTree :
      (d : Driver) (req : CreateVolumeRequest) (size : ℤ)
      → IsTree n 4 (λ c. find_or_create c d req size)
  unfolding find_or_create
  find_or_create-IsTree d req size =
      handle-IsTree 1 3 _ _ _ (get_volume-IsTree (volume_identity req))
        (λ e. search (tree_rules, create_new_volume-IsTree)) found
    where
      found :
          (o : Option Volume)
          → IsTree n 3 (λ c. elim o as (λ _. Exec c.State CsiVolume) [
            | none ↦ create_new_volume c d req size
            | some volume ↦ lift (create_volume_response_from_existing volume size)
          ])
      found none = create_new_volume-IsTree d req size
      found (some v) = lift-IsTree

  pub CreateVolume-IsTree :
      (d : Driver) (req : CreateVolumeRequest) → IsTree n 4 (λ c. create_volume c d req)
  unfolding create_volume
  CreateVolume-IsTree d req = search (tree_rules, find_or_create-IsTree d req) depth 10
