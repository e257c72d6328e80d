-- ===== src/Controller/Tree/Snapshots.antt =====
-- The handlers of requests about snapshots as trees of their calls.
use csi_thalassa.Prelude.{ℕ, String, List, [], ◌∷◌, Option, none, some, ◌==◌}
use csi_thalassa.Status.{status, internal, not_found, text}
use csi_thalassa.Csi.{CsiSnapshot, CreateSnapshotRequest, ListSnapshotsRequest}
use csi_thalassa.Iaas.{Volume, Snapshot}
use csi_thalassa.Exec.{Exec, lift, handle, fail, pure, ◌>>=◌}
use csi_thalassa.Driver.{Driver}
use csi_thalassa.Snapshots.Create.{
  find_named, snapshot_request, check_existing, get_or_create_snapshot, await_snapshot,
  create_snapshot, delete_snapshot,
}
use csi_thalassa.Snapshots.Source.{filter_by, only_volume, resolve_volume_identity}
use csi_thalassa.Snapshots.Listing.{list_snapshots, get_one}
use csi_thalassa.Controller.Tree.{
  IsTree, lift-IsTree, if-IsTree, handle-IsTree, >>=-IsTree, tree_rules,
}
use csi_thalassa.Controller.Tree.Operations.{
  list_volumes-IsTree, get_snapshot-IsTree, list_snapshots-IsTree, delete_snapshot-IsTree,
  create_snapshot-IsTree, wait_until_snapshot_is_available-IsTree,
}

module _ {n : ℕ} where
  pub ListSnapshots-IsTree :
      (d : Driver) (req : ListSnapshotsRequest) → IsTree n 1 (λ c. list_snapshots c d req)
  unfolding list_snapshots get_one
  ListSnapshots-IsTree d req = search (tree_rules, list_snapshots-IsTree, get_snapshot-IsTree)

  pub DeleteSnapshot-IsTree : (id : String) → IsTree n 1 (λ c. delete_snapshot c id)
  unfolding delete_snapshot
  DeleteSnapshot-IsTree id = search (tree_rules, delete_snapshot-IsTree)

  resolve-IsTree : (d : Driver) (id : String) → IsTree n 2 (λ c. resolve_volume_identity c d id)
  unfolding resolve_volume_identity
  resolve-IsTree d id = search (tree_rules, list_volumes-IsTree, found)
    where
      found :
          (l : List Volume)
          → IsTree n 1 (λ c. elim l as (λ _. Exec c.State String) [
            | [] ↦
                handle
                  (c.list_volumes (filter_by "region" d.region ∷ filter_by "name" id ∷ []))
                  (λ e. fail (status internal "failed to list volumes: %s"))
                  (λ volumes. lift (only_volume volumes))
            | v ∷ l ↦ lift (only_volume (v ∷ l))
          ])
      found [] = search (tree_rules, list_volumes-IsTree)
      found (v ∷ l) = lift-IsTree

  check_existing-IsTree :
      (d : Driver) (req : CreateSnapshotRequest) (snap : Snapshot)
      → IsTree n 3 (λ c. check_existing c d req snap)
  unfolding check_existing
  check_existing-IsTree d req snap =
      handle-IsTree 2 1 _ _ _ (resolve-IsTree d req.source_volume_id) (λ e. search tree_rules)
        (λ id. search tree_rules)

  get_or_create-IsTree :
      (d : Driver) (req : CreateSnapshotRequest) → IsTree n 4 (λ c. get_or_create_snapshot c d req)
  unfolding get_or_create_snapshot
  get_or_create-IsTree d req =
      search
        (tree_rules, list_snapshots-IsTree, λ (l : List Snapshot). found (find_named req.name l))
    where
      found :
          (o : Option Snapshot)
          → IsTree n 3 (λ c. elim o as (λ _. Exec c.State (Option Snapshot)) [
            | some snap ↦ check_existing c d req snap
            | none ↦ do
              volume_identity ← resolve_volume_identity c d req.source_volume_id
              handle
                  (c.create_snapshot (snapshot_request d req volume_identity))
                  (λ e. fail (status internal (text e)))
                  pure
          ])
      found none =
          >>=-IsTree 2 1 _ _ (resolve-IsTree d req.source_volume_id)
            λ id. search (tree_rules, create_snapshot-IsTree)
      found (some snap) = check_existing-IsTree d req snap

  await-IsTree : (snap : Snapshot) → IsTree n 2 (λ c. await_snapshot c snap)
  unfolding await_snapshot
  await-IsTree snap =
      search (tree_rules, wait_until_snapshot_is_available-IsTree, get_snapshot-IsTree)

  pub CreateSnapshot-IsTree :
      (d : Driver) (req : CreateSnapshotRequest) → IsTree n 6 (λ c. create_snapshot c d req)
  unfolding create_snapshot
  CreateSnapshot-IsTree d req = if-IsTree 6 (req.name == "") _ _ lift-IsTree (
      if-IsTree 6 (req.source_volume_id == "") _ _ lift-IsTree
        (handle-IsTree 4 2 _ _ _ (get_or_create-IsTree d req) (λ e. search tree_rules) found))
    where
      found :
          (o : Option Snapshot)
          → IsTree n 2 (λ c. elim o as (λ _. Exec c.State CsiSnapshot) [
            | none ↦ fail (status not_found "snapshot not found or not created")
            | some snap ↦ await_snapshot c snap
          ])
      found none = lift-IsTree
      found (some snap) = await-IsTree snap
