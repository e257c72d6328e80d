-- ===== src/Attachment/Laws.antt =====
-- What ControllerPublishVolume and ControllerUnpublishVolume write, refuse, and wait for.
use csi_thalassa.Prelude.{
  String, ◌≡◌, refl, Bool, true, false, not, is_some, List, [], ◌∷◌, Option, none, some, ◌==◌, inl,
  inr, if◌then◌else◌, Bool-cases, any, arith,
}
use csi_thalassa.Prelude.Labels.{Labels}
use csi_thalassa.Prelude.Text.{equal_fold}
use csi_thalassa.Status.{Error, status, is_not_found, failed_precondition, not_found, internal}
use csi_thalassa.Exec.{Exec, ok, err, pure, fail, deref, ◌>>=◌}
use csi_thalassa.Exec.Keeps.{Keeps, handle-Keeps, >>=-Keeps, if-Keeps, deref-Keeps}
use csi_thalassa.Csi.{ControllerPublishRequest}
use csi_thalassa.Iaas.{Cloud, Volume, VolumeAttachment, Machine}
use csi_thalassa.Iaas.Reads.{ReadsKeep}
use csi_thalassa.Driver.{Driver}
use csi_thalassa.Attachment.{
  find_attachment, find_machine, resource, publish_context, provider_identity,
  get_node_machine_identity, volume_has_status, publish_node_id, attach_and_wait, attach_if_free,
  attach_to_node, publish_volume, controller_publish_volume,
}

-- One of the attachments is to this machine.
abbrev pub is_attached_to : String → List VolumeAttachment → Bool
is_attached_to machine = any (λ a. a.attached_to_identity == machine)

-- The machine of the last attachment, or no text if there is none.
abbrev pub last_machine : List VolumeAttachment → String → String
last_machine [] before = before
last_machine (a ∷ l) before = last_machine l a.attached_to_identity

module _ (c : Cloud) (P : c.State → Type 0) (reads : ReadsKeep c P) (d : Driver) where
  pub get_node_machine_identity-Keeps :
      (node : String) → Keeps P (get_node_machine_identity c d node)
  unfolding get_node_machine_identity
  get_node_machine_identity-Keeps node =
      handle-Keeps (c.build_kube_config d.kube_config) _ _ (reads.build_kube_config d.kube_config)
        (λ e s h. h)
        λ _.
          handle-Keeps c.new_kube_client _ _ reads.new_kube_client (λ e s h. h)
            λ _.
              handle-Keeps (c.get_node_provider_id node) _ _ (reads.get_node_provider_id node)
                (λ e s h. h)
                λ id. if-Keeps P (id == "") _ _ (λ s h. h) (identity (provider_identity id))
    where
      identity :
          (o : Option String)
          → Keeps {A = String} P (elim o [
            | none ↦ fail (status internal "invalid provider ID: %q")
            | some identity ↦ pure identity
          ])
      identity none s h = h
      identity (some id) s h = h

  pub volume_has_status-Keeps : (wanted id : String) → Keeps P (volume_has_status c wanted id)
  unfolding volume_has_status
  volume_has_status-Keeps wanted id =
      handle-Keeps (c.get_volume id) _ _ (reads.get_volume id) (λ e s h. h)
        λ found. >>=-Keeps (deref found) _ (deref-Keeps P found) (λ v s h. h)

  pub publish_node_id-Keeps : (node : String) → Keeps P (publish_node_id c d node)
  unfolding publish_node_id
  publish_node_id-Keeps node =
      if-Keeps P (not (d.kube_config == "")) _ _ (get_node_machine_identity-Keeps node) (λ s h. h)

  module _ (volume_id : String)
      (writes : (l : List Machine) (node machine : String)
        → find_machine node l ≡ some machine
        → Keeps P (c.attach_volume volume_id (resource machine))) where
    attach_if_free-Keeps :
        (l : List Machine) (node machine : String) (vol : Volume)
        → find_machine node l ≡ some machine
        → Keeps P (attach_if_free c d volume_id vol machine)
    unfolding attach_if_free attach_and_wait
    attach_if_free-Keeps l node machine vol e =
        if-Keeps P (find_attachment machine "" vol.attachments).0 _ _ (λ s h. h)
          (if-Keeps P (not ((find_attachment machine "" vol.attachments).1 == "")) _ _ (λ s h. h)
            (handle-Keeps (c.attach_volume volume_id (resource machine)) _ _
              (writes l node machine e) (λ e. if-Keeps P (is_not_found e) _ _ (λ s h. h) (λ s h. h))
              λ _.
                handle-Keeps (c.poll (volume_has_status c "attached" volume_id)) _ _
                  (reads.poll _ (volume_has_status-Keeps "attached" volume_id)) (λ e s h. h)
                  (λ _ s h. h)))

    attach_to_node-Keeps :
        (found : Option Volume) (node : String) → Keeps P (attach_to_node c d volume_id found node)
    unfolding attach_to_node
    attach_to_node-Keeps found node =
        handle-Keeps (c.list_machines _) _ _ (reads.list_machines _) (λ e s h. h)
          (λ l. machine l (find_machine node l) refl)
      where
        machine :
            (l : List Machine) (o : Option String)
            → find_machine node l ≡ o
            → Keeps {A = Labels} P (elim o [
              | none ↦ fail (status not_found "machine %q does not exist")
              | some machine ↦ do vol ← deref found; attach_if_free c d volume_id vol machine
            ])
        machine l none e = λ s h. h
        machine l (some m) e =
            >>=-Keeps (deref found) _ (deref-Keeps P found)
              λ vol. attach_if_free-Keeps l node m vol e

-- Whatever survives the calls that read, and the attachment of the request's volume to a machine
-- that a list of machines has for some node, survives ControllerPublishVolume: it makes no other
-- write.
pub controller_publish_volume-Keeps :
    (c : Cloud) (P : c.State → Type 0)
    → ReadsKeep c P
    → (d : Driver) (req : ControllerPublishRequest)
    → ((l : List Machine) (node machine : String)
        → find_machine node l ≡ some machine
        → Keeps P (c.attach_volume req.volume_id (resource machine)))
    → Keeps P (controller_publish_volume c d req)
unfolding controller_publish_volume publish_volume
controller_publish_volume-Keeps c P reads d req writes =
    if-Keeps P (req.volume_id == "") _ _ (λ s h. h)
      (if-Keeps P (req.node_id == "") _ _ (λ s h. h)
        (if-Keeps P (not (is_some req.volume_capability)) _ _ (λ s h. h)
          (if-Keeps P req.readonly _ _ (λ s h. h)
            (handle-Keeps (c.get_volume req.volume_id) _ _ (reads.get_volume req.volume_id)
              (λ e. if-Keeps P (is_not_found e) _ _ (λ s h. h) (λ s h. h))
              λ vol.
                >>=-Keeps (publish_node_id c d req.node_id) _
                  (publish_node_id-Keeps c P reads d req.node_id)
                  λ node. attach_to_node-Keeps c P reads d req.volume_id writes vol node))))

find_attachment_lem :
    (machine before : String) (l : List VolumeAttachment)
    → ((find_attachment machine before l).0 ≡ is_attached_to machine l)
      × (is_attached_to machine l ≡ false
          → (find_attachment machine before l).1 ≡ last_machine l before)
unfolding find_attachment
find_attachment_lem machine before [] = (refl, λ _. refl)
find_attachment_lem machine before (a ∷ l) =
    let (same, last) = find_attachment_lem machine a.attached_to_identity l in
    elim (Bool-cases (a.attached_to_identity == machine)) [
      | inl e ↦ (rw e, λ h. ground (arith, e, h))
      | inr e ↦ (rw e same, rw e last)
    ]

abbrev pub taken_error : Error
taken_error =
    status failed_precondition
      "volume %q is attached to the wrong machine (%q), detach the volume to fix it"

-- From a volume and a machine on, ControllerPublishVolume answers at once if the volume is attached
-- to that machine, refuses with `FailedPrecondition` and no call if it is not but its last
-- attachment names a machine, and attaches it only if neither holds.
pub attach_if_free_lem :
    (c : Cloud) (d : Driver) (volume_id : String) (vol : Volume) (machine : String) (s : c.State)
    → attach_if_free c d volume_id vol machine s ≡ (
        if is_attached_to machine vol.attachments
        then (ok (publish_context d vol), s)
        else if last_machine vol.attachments "" == ""
        then attach_and_wait c d volume_id vol machine s
        else (err taken_error, s))
unfolding attach_if_free
attach_if_free_lem c d volume_id vol machine s =
    let (same, last) = find_attachment_lem machine "" vol.attachments in
    elim (Bool-cases (is_attached_to machine vol.attachments)) [
      | inl e ↦ rw (same, e)
      | inr e ↦
          rw (same, e, last e)
            (elim (Bool-cases (last_machine vol.attachments "" == "")) [
              | inl f ↦ rw f
              | inr f ↦ rw f
            ])
    ]

-- A wait that ends without an error ended on a call of its condition that gave `true`, as
-- `wait.PollUntilContextTimeout` documents.
abbrev pub PollIsSound : Cloud → Type 0
PollIsSound c =
    (m : Exec c.State Bool) (s s' : c.State)
    → c.poll m s ≡ (ok tt, s')
    → (s0 : c.State) × (m s0 ≡ (ok true, s'))

-- The last answer of the API about a volume had this status.
abbrev pub SeenWith : (c : Cloud) → String → String → c.State → Type 0
SeenWith c wanted volume_id s' =
    (s0 : c.State) × (vol : Volume) × (c.get_volume volume_id s0 ≡ (ok (some vol), s'))
    × (equal_fold vol.status wanted ≡ true)
