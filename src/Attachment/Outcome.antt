-- ===== src/Attachment/Outcome.antt =====
-- The three outcomes of ControllerPublishVolume once its lookups have answered
-- (driver/controller_attachment.go).
use csi_thalassa.Prelude.{
  String, ◌≡◌, true, false, is_some, List, Option, some, ◌==◌, ◌∙◌, if◌then◌else◌,
}
use csi_thalassa.Exec.{ok, err, settle}
use csi_thalassa.Csi.{ControllerPublishRequest}
use csi_thalassa.Iaas.{Cloud, Volume, Machine}
use csi_thalassa.Driver.{Driver}
use csi_thalassa.Attachment.{
  find_machine, machine_filters, publish_context, publish_node_id, attach_and_wait, attach_if_free,
  attach_to_node, publish_volume, controller_publish_volume,
}
use csi_thalassa.Attachment.Laws.{is_attached_to, last_machine, taken_error, attach_if_free_lem}

module _ (c : Cloud) (d : Driver) where
  attach_to_node-found :
      (id : String) (vol : Volume) (node : String) {machine : String} {machines : List Machine}
      {s s' : c.State}
      → c.list_machines (machine_filters d) s ≡ (ok machines, s')
      → find_machine node machines ≡ some machine
      → attach_to_node c d id (some vol) node s ≡ attach_if_free c d id vol machine s'
  unfolding attach_to_node
  attach_to_node-found id vol node listed found = rw (listed, settle, found)

  publish_volume-found :
      (id node_id : String) {found : Option Volume} {node : String} {s s1 s2 : c.State}
      → c.get_volume id s ≡ (ok found, s1)
      → publish_node_id c d node_id s1 ≡ (ok node, s2)
      → publish_volume c d id node_id s ≡ attach_to_node c d id found node s2
  unfolding publish_volume
  publish_volume-found id node_id got named = rw (got, named)

  -- A ControllerPublishVolume request that names a volume and a node, has a capability and is not
  -- read-only, whose volume the API finds, whose node resolves to an identity, and whose identity
  -- names a machine of the list: it answers without a further call if one of the volume's
  -- attachments is to that machine, refuses with `FailedPrecondition` and without a further call if
  -- none is but the last attachment names a machine, and attaches the volume and waits otherwise.
  pub controller_publish_volume_outcome :
      (req : ControllerPublishRequest) (vol : Volume) (node machine : String)
      (machines : List Machine) (s s1 s2 s3 : c.State)
      → (req.volume_id == "") ≡ false
      → (req.node_id == "") ≡ false
      → is_some req.volume_capability ≡ true
      → req.readonly ≡ false
      → c.get_volume req.volume_id s ≡ (ok (some vol), s1)
      → publish_node_id c d req.node_id s1 ≡ (ok node, s2)
      → c.list_machines (machine_filters d) s2 ≡ (ok machines, s3)
      → find_machine node machines ≡ some machine
      → controller_publish_volume c d req s ≡ (
          if is_attached_to machine vol.attachments
          then (ok (publish_context d vol), s3)
          else if last_machine vol.attachments "" == ""
          then attach_and_wait c d req.volume_id vol machine s3
          else (err taken_error, s3))
  unfolding controller_publish_volume
  controller_publish_volume_outcome req vol node machine machines s s1 s2 s3 has_volume has_node
        has_capability writable got named listed found =
      rw (has_volume, has_node, has_capability, writable)
        (publish_volume-found req.volume_id req.node_id got named
          ∙ attach_to_node-found req.volume_id vol node listed found
          ∙ attach_if_free_lem c d req.volume_id vol machine s3)
