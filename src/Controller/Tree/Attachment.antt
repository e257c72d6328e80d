-- ===== src/Controller/Tree/Attachment.antt =====
-- The handlers of attachments as trees of their calls.
use csi_thalassa.Prelude.{ℕ, suc, String, ◌+◌, ◌==◌, List, Option, none, some, arith, if◌then◌else◌}
use csi_thalassa.Prelude.Labels.{Labels}
use csi_thalassa.Status.{status, internal, not_found}
use csi_thalassa.Exec.{Exec, pure, fail, deref, ◌>>=◌}
use csi_thalassa.Csi.{ControllerPublishRequest}
use csi_thalassa.Iaas.{Volume, Machine}
use csi_thalassa.Driver.{Driver}
use csi_thalassa.Attachment.{
  find_machine, is_detached, provider_identity, get_node_machine_identity, volume_has_status,
  publish_node_id, unpublish_node_id, attach_and_wait, attach_if_free, attach_to_node,
  publish_volume, controller_publish_volume, machine_to_detach, detach_and_wait, detach_from_node,
  controller_unpublish_volume,
}
use csi_thalassa.Controller.Tree.{
  IsTree, lift-IsTree, handle-IsTree, >>=-IsTree, IsTree-mono, wait-IsTree, if-IsTree, tree_rules,
}
use csi_thalassa.Controller.Tree.Operations.{
  get_volume-IsTree, build_kube_config-IsTree, new_kube_client-IsTree, get_node_provider_id-IsTree,
  list_machines-IsTree, get_machine-IsTree, attach_volume-IsTree, detach_volume-IsTree,
}

module _ {n : ℕ} where
  machine_identity-IsTree :
      (d : Driver) (node : String) → IsTree n 3 (λ c. get_node_machine_identity c d node)
  unfolding get_node_machine_identity
  machine_identity-IsTree d node =
      search
        (
          tree_rules,
          build_kube_config-IsTree,
          new_kube_client-IsTree,
          get_node_provider_id-IsTree,
          λ (id : String). identity (provider_identity id),
        )
        depth 10
    where
      identity :
          (o : Option String)
          → IsTree n 0 (λ c. elim o as (λ _. Exec c.State String) [
            | none ↦ fail (status internal "invalid provider ID: %q")
            | some identity ↦ pure identity
          ])
      identity none = lift-IsTree
      identity (some id) = lift-IsTree

  has_status-IsTree : (wanted id : String) → IsTree n 1 (λ c. volume_has_status c wanted id)
  unfolding volume_has_status
  has_status-IsTree wanted id = search (tree_rules, get_volume-IsTree)

  publish_node_id-IsTree : (d : Driver) (node : String) → IsTree n 3 (λ c. publish_node_id c d node)
  unfolding publish_node_id
  publish_node_id-IsTree d node = search (tree_rules, machine_identity-IsTree)

  unpublish_node_id-IsTree :
      (d : Driver) (node : String) → IsTree n 3 (λ c. unpublish_node_id c d node)
  unfolding unpublish_node_id
  unpublish_node_id-IsTree d node = search (tree_rules, handle-IsTree 3 0, machine_identity-IsTree)

  attach_and_wait-IsTree :
      (d : Driver) (id : String) (vol : Volume) (machine : String)
      → IsTree n (suc n) (λ c. attach_and_wait c d id vol machine)
  unfolding attach_and_wait
  attach_and_wait-IsTree d id vol machine =
      search (tree_rules, wait-IsTree, attach_volume-IsTree, has_status-IsTree)

  attach_if_free-IsTree :
      (d : Driver) (id : String) (vol : Volume) (machine : String)
      → IsTree n (suc n) (λ c. attach_if_free c d id vol machine)
  unfolding attach_if_free
  attach_if_free-IsTree d id vol machine = search (tree_rules, attach_and_wait-IsTree)

  attach_to_node-IsTree :
      (d : Driver) (id : String) (found : Option Volume) (node : String)
      → IsTree n (suc (suc n)) (λ c. attach_to_node c d id found node)
  unfolding attach_to_node
  attach_to_node-IsTree d id found node =
      search (tree_rules, list_machines-IsTree, λ (l : List Machine). machine (find_machine node l))
    where
      machine :
          (o : Option String)
          → IsTree n (suc n) (λ c. elim o as (λ _. Exec c.State Labels) [
            | none ↦ fail (status not_found "machine %q does not exist")
            | some machine ↦ do vol ← deref found; attach_if_free c d id vol machine
          ])
      machine none = lift-IsTree
      machine (some m) = search (tree_rules, attach_if_free-IsTree)

  publish_volume-IsTree :
      (d : Driver) (id node : String) → IsTree n (6 + n) (λ c. publish_volume c d id node)
  unfolding publish_volume
  publish_volume-IsTree d id node = IsTree-mono (1 + (3 + suc (suc n))) (6 + n) _ (omega arith) (
      handle-IsTree 1 (3 + suc (suc n)) _ _ _ (get_volume-IsTree id) (λ e. search tree_rules)
        λ vol.
          >>=-IsTree 3 (suc (suc n)) (λ c. publish_node_id c d node)
            (λ c node. attach_to_node c d id vol node) (publish_node_id-IsTree d node)
            λ node. attach_to_node-IsTree d id vol node)

  -- The look at the volume, the three calls for the node's machine, the list of the machines, the
  -- attachment, and the looks of the wait.
  pub Publish-IsTree :
      (d : Driver) (req : ControllerPublishRequest)
      → IsTree n (6 + n) (λ c. controller_publish_volume c d req)
  unfolding controller_publish_volume
  Publish-IsTree d req = search (tree_rules, publish_volume-IsTree)

  machine_to_detach-IsTree :
      (d : Driver) (node : String) → IsTree n 2 (λ c. machine_to_detach c d node)
  unfolding machine_to_detach
  machine_to_detach-IsTree d node = search (tree_rules, get_machine-IsTree, list_machines-IsTree)

  detach_and_wait-IsTree :
      (id machine : String) → IsTree n (suc n) (λ c. detach_and_wait c id machine)
  unfolding detach_and_wait
  detach_and_wait-IsTree id machine =
      search (tree_rules, wait-IsTree, detach_volume-IsTree, has_status-IsTree)

  detach_from_node-IsTree :
      (d : Driver) (id node : String)
      → IsTree n (3 + (2 + suc n)) (λ c. detach_from_node c d id node)
  unfolding detach_from_node
  detach_from_node-IsTree d id node =
      >>=-IsTree 3 (2 + suc n) _ _ (unpublish_node_id-IsTree d node)
        λ node. >>=-IsTree 2 (suc n) _ _ (machine_to_detach-IsTree d node) machine
    where
      machine :
          (o : Option String)
          → IsTree n (suc n) (λ c. elim o as (λ _. Exec c.State (Unit {0})) [
            | none ↦ pure tt
            | some machine ↦ detach_and_wait c id machine
          ])
      machine none = lift-IsTree
      machine (some m) = detach_and_wait-IsTree id m

  unpublish_found-IsTree :
      (d : Driver) (id node : String) (vol : Option Volume)
      → IsTree n (6 + n) (λ c. if is_detached vol then pure tt else detach_from_node c d id node)
  unpublish_found-IsTree d id node vol =
      if-IsTree (6 + n) (is_detached vol) _ _ lift-IsTree
        (IsTree-mono (3 + (2 + suc n)) (6 + n) _ (omega arith) (detach_from_node-IsTree d id node))

  -- The look at the volume, the three calls for the node's machine, the two ways to find it, the
  -- detachment, and the looks of the wait.
  pub Unpublish-IsTree :
      (d : Driver) (id node : String)
      → IsTree n (7 + n) (λ c. controller_unpublish_volume c d id node)
  unfolding controller_unpublish_volume
  Unpublish-IsTree d id node = if-IsTree (7 + n) (id == "") _ _ lift-IsTree (
      IsTree-mono (1 + (6 + n)) (7 + n) _ (omega arith) (
        handle-IsTree 1 (6 + n) _ _ _ (get_volume-IsTree id) (λ e. search tree_rules)
          λ vol. unpublish_found-IsTree d id node vol))
