-- ===== src/Attachment.antt =====
-- ControllerPublishVolume and ControllerUnpublishVolume (driver/controller_attachment.go), and the
-- way from a node's name to its machine (driver/machineidentity.go).
pub mod Named
pub mod Laws
pub mod Waits
pub mod Outcome
pub mod Detach
use csi_thalassa.Prelude.{
  ℕ, String, Bool, true, false, not, is_some, List, [], ◌∷◌, Option, none, some, ◌==◌, ◌&&◌, ◌||◌,
  if◌then◌else◌,
}
use csi_thalassa.Prelude.Labels.{Labels}
use csi_thalassa.Prelude.Text.{equal_fold, split}
use csi_thalassa.Status.{
  Error, status, wrap, is_not_found, invalid_argument, not_found, internal, failed_precondition,
}
use csi_thalassa.Exec.{Exec, pure, fail, deref, handle, ◌>>=◌}
use csi_thalassa.Csi.{ControllerPublishRequest}
use csi_thalassa.Iaas.{Cloud, Volume, VolumeAttachment, Machine, Filter, ResourceRequest}
use csi_thalassa.Driver.{Driver}
use csi_thalassa.Snapshots.Source.{filter_by}

-- The loop over the machines: the identity of the first one that the node's name, identity or slug
-- names.
unfoldable pub find_machine : String → List Machine → Option String
find_machine node [] = none
find_machine node (m ∷ l) =
    if m.name == node || m.identity == node || m.slug == node
    then some m.identity
    else find_machine node l

-- The loop over the attachments: whether one is to this machine, and the last machine it has seen.
unfoldable pub find_attachment : String → String → List VolumeAttachment → Bool × String
find_attachment machine attached_to [] = (false, attached_to)
find_attachment machine attached_to (a ∷ l) =
    let rest = find_attachment machine a.attached_to_identity l in
    if a.attached_to_identity == machine then (true, a.attached_to_identity) else rest

-- The second of exactly two parts.
unfoldable pub second_part : List String → Option String
second_part (a ∷ b ∷ []) = some b
second_part _ = none

unfoldable pub provider_identity : String → Option String
unfolding second_part split
provider_identity provider_id = second_part (split provider_id "://")

abbrev pub machine_filters : Driver → List Filter
machine_filters d = filter_by "region" d.region ∷ filter_by "vpc" d.vpc ∷ []

abbrev pub resource : String → ResourceRequest
resource machine = record { resource_identity = machine; resource_type = "cloud_virtual_machine" }

-- `PublishContext` with the volume's name
abbrev pub publish_context : Driver → Volume → Labels
publish_context d vol = (d.publish_info_volume_name, vol.name) ∷ []

-- No attachments, and the status `available`.
unfoldable pub is_detached : Option Volume → Bool
unfolding equal_fold
is_detached none = false
is_detached (some vol) = elim vol.attachments [
  | [] ↦ equal_fold vol.status "available"
  | a ∷ l ↦ false
]

module _ (c : Cloud) where
  unfoldable pub get_node_machine_identity : Driver → String → Exec c.State String
  unfolding provider_identity
  get_node_machine_identity d node =
      handle (c.build_kube_config d.kube_config)
        (λ e. fail (status internal "failed to build kube config: %s"))
        λ _.
          handle (c.new_kube_client)
            (λ e. fail (status internal "failed to build kubernetes client: %s"))
            λ _.
              handle (c.get_node_provider_id node)
                (λ e. fail (status internal "failed to get node: %s"))
                λ provider_id.
                  if provider_id == ""
                  then fail (status internal "node %q does not have a provider ID")
                  else elim (provider_identity provider_id) [
                    | none ↦ fail (status internal "invalid provider ID: %q")
                    | some identity ↦ pure identity
                  ]

  -- The condition of both polls.
  unfoldable pub volume_has_status : String → String → Exec c.State Bool
  unfolding equal_fold
  volume_has_status wanted volume_id =
      handle (c.get_volume volume_id) (λ e. fail (wrap "error getting volume" e))
        λ found. do vol ← deref found; pure (equal_fold vol.status wanted)

  -- The node's identity that the rest of ControllerPublishVolume goes on with.
  unfoldable pub publish_node_id : Driver → String → Exec c.State String
  publish_node_id d node =
      if not (d.kube_config == "") then get_node_machine_identity d node else pure node

  unfoldable pub attach_and_wait : Driver → String → Volume → String → Exec c.State Labels
  attach_and_wait d volume_id vol machine =
      handle (c.attach_volume volume_id (resource machine))
        (λ e.
          if is_not_found e then fail (status not_found "machine %q does not exist") else fail e)
        λ _.
          handle (c.poll (volume_has_status "attached" volume_id))
            (λ e. fail (wrap "failed to attach volume" e)) λ _. pure (publish_context d vol)

  -- From the volume and the machine on: the loop over the attachments and what follows it.
  unfoldable pub attach_if_free : Driver → String → Volume → String → Exec c.State Labels
  unfolding find_attachment attach_and_wait
  attach_if_free d volume_id vol machine =
      let (already, attached_to) = find_attachment machine "" vol.attachments in
      if already
      then pure (publish_context d vol)
      else if not (attached_to == "")
      then fail (
          status failed_precondition
            "volume %q is attached to the wrong machine (%q), detach the volume to fix it")
      else attach_and_wait d volume_id vol machine

  -- From the lookup of the machine on.
  unfoldable pub attach_to_node : Driver → String → Option Volume → String → Exec c.State Labels
  unfolding find_machine
  attach_to_node d volume_id found node =
      handle (c.list_machines (machine_filters d)) fail λ machines.
        elim (find_machine node machines) [
          | none ↦ fail (status not_found "machine %q does not exist")
          | some machine ↦ do vol ← deref found; attach_if_free d volume_id vol machine
        ]

  -- From the lookup of the volume on.
  unfoldable pub publish_volume : Driver → String → String → Exec c.State Labels
  unfolding publish_node_id attach_to_node is_not_found
  publish_volume d volume_id node_id =
      handle (c.get_volume volume_id)
        (λ e. if is_not_found e then fail (status not_found "volume %q does not exist") else fail e)
        λ vol. do node ← publish_node_id d node_id; attach_to_node d volume_id vol node

  unfoldable pub controller_publish_volume : Driver → ControllerPublishRequest → Exec c.State Labels
  unfolding publish_volume
  controller_publish_volume d req =
      if req.volume_id == ""
      then fail (status invalid_argument "ControllerPublishVolume Volume ID must be provided")
      else if req.node_id == ""
      then fail (status invalid_argument "ControllerPublishVolume Node ID must be provided")
      else if not (is_some req.volume_capability)
      then fail
          (status invalid_argument "ControllerPublishVolume Volume capability must be provided")
      else if req.readonly
      then fail (status invalid_argument "read only volumes are not supported")
      else publish_volume d req.volume_id req.node_id

  -- The machine to detach from: the node's identity, or the one that the list of machines has for
  -- it; none if there is no such machine.
  unfoldable pub machine_to_detach : Driver → String → Exec c.State (Option String)
  unfolding find_machine is_not_found
  machine_to_detach d node =
      handle (c.get_machine node)
        (λ e.
          if is_not_found e
          then (handle (c.list_machines (machine_filters d))
              (λ e. fail (wrap "failed to list machines" e))
              λ machines. pure (find_machine node machines))
          else fail (wrap "failed to get machine" e))
        λ _. pure (some node)

  unfoldable pub detach_and_wait : String → String → Exec c.State (Unit {0})
  unfolding is_not_found
  detach_and_wait volume_id machine =
      handle (c.detach_volume volume_id (resource machine))
        (λ e. if is_not_found e then pure tt else fail e)
        λ _.
          handle (c.poll (volume_has_status "available" volume_id))
            (λ e. if is_not_found e then pure tt else fail (wrap "failed to detach volume" e))
            λ _. pure tt

  -- The node's identity that ControllerUnpublishVolume goes on with: a lookup that fails is passed
  -- over.
  unfoldable pub unpublish_node_id : Driver → String → Exec c.State String
  unpublish_node_id d node =
      if not (d.kube_config == "")
      then handle (get_node_machine_identity d node) (λ _. pure node) pure
      else pure node

  unfoldable pub detach_from_node : Driver → String → String → Exec c.State (Unit {0})
  unfolding unpublish_node_id machine_to_detach detach_and_wait
  detach_from_node d volume_id node_id = do
    node ← unpublish_node_id d node_id
    machine ← machine_to_detach d node
    elim machine [ none ↦ pure tt | some machine ↦ detach_and_wait volume_id machine ]

  unfoldable pub controller_unpublish_volume : Driver → String → String → Exec c.State (Unit {0})
  unfolding is_detached detach_from_node
  controller_unpublish_volume d volume_id node_id =
      if volume_id == ""
      then fail (status invalid_argument "ControllerUnpublishVolume Volume ID must be provided")
      else handle (c.get_volume volume_id) (λ e. if is_not_found e then pure tt else fail e)
          λ vol. if is_detached vol then pure tt else detach_from_node d volume_id node_id
