-- ===== src/Attachment/Waits.antt =====
-- What ControllerPublishVolume and ControllerUnpublishVolume have seen when they succeed.
use csi_thalassa.Prelude.{
  String, ◌≡◌, refl, true, not, is_some, List, Option, none, some, ◌==◌, ◌⊎◌, inl, inr, Bool-cases,
}
use csi_thalassa.Prelude.Labels.{Labels}
use csi_thalassa.Prelude.Text.{equal_fold}
use csi_thalassa.Status.{status, is_not_found, not_found}
use csi_thalassa.Exec.{Exec, ok, pure, fail, deref, ◌>>=◌}
use csi_thalassa.Exec.Ensures.{Ensures, handle-Ensures, if-Ensures, ensured, Ensures-weaken}
use csi_thalassa.Csi.{ControllerPublishRequest}
use csi_thalassa.Iaas.{Cloud, Volume, Machine}
use csi_thalassa.Driver.{Driver}
use csi_thalassa.Attachment.{
  find_machine, machine_filters, resource, publish_context, volume_has_status, publish_node_id,
  attach_and_wait, attach_if_free, attach_to_node, publish_volume, controller_publish_volume,
}
use csi_thalassa.Attachment.Laws.{
  is_attached_to, last_machine, attach_if_free_lem, PollIsSound, SeenWith,
}

volume_has_status-Ensures :
    (c : Cloud) (wanted id : String) (s : c.State)
    → Ensures (λ b s'. b ≡ true → SeenWith c wanted id s') (volume_has_status c wanted id s)
unfolding volume_has_status
volume_has_status-Ensures c wanted id s =
    handle-Ensures (λ b s'. b ≡ true → SeenWith c wanted id s') (c.get_volume id) _ _ s
      (λ e s1 h. tt) seen
  where
    seen :
        (o : Option Volume) (s1 : c.State)
        → c.get_volume id s ≡ (ok o, s1)
        → Ensures
            (λ b s'. b ≡ true → SeenWith c wanted id s')
            ((do vol ← deref o; pure (equal_fold vol.status wanted)) s1)
    seen none s1 h = tt
    seen (some vol) s1 h = λ e. (s, vol, h, e)

-- A wait for a status has seen that status.
pub poll-SeenWith :
    (c : Cloud) (wanted id : String) (s s' : c.State)
    → PollIsSound c
    → c.poll (volume_has_status c wanted id) s ≡ (ok tt, s')
    → SeenWith c wanted id s'
poll-SeenWith c wanted id s s' sound h =
    let (s0, e) = sound (volume_has_status c wanted id) s s' h in
    ensured (λ b s'. b ≡ true → SeenWith c wanted id s') (volume_has_status c wanted id s0) true s'
      e (volume_has_status-Ensures c wanted id s0) refl

-- A machine was attached, and then the volume was seen to be attached.
abbrev pub Attached : (c : Cloud) → String → String → c.State → c.State → Type 0
Attached c id machine s s' =
    (s1 : c.State) × (c.attach_volume id (resource machine) s ≡ (ok tt, s1))
    × SeenWith c "attached" id s'

attach_and_wait-Ensures :
    (c : Cloud) (d : Driver) (id : String) (vol : Volume) (machine : String) (s : c.State)
    → PollIsSound c
    → Ensures
        (λ labels s'. (labels ≡ publish_context d vol) × Attached c id machine s s')
        (attach_and_wait c d id vol machine s)
unfolding attach_and_wait
attach_and_wait-Ensures c d id vol machine s sound =
    handle-Ensures _ (c.attach_volume id (resource machine)) _ _ s
      (λ e s1 h. if-Ensures _ (is_not_found e) _ _ s1 (λ _. tt) (λ _. tt))
      λ _ s1 h.
        handle-Ensures _ (c.poll (volume_has_status c "attached" id)) _ _ s1 (λ e s2 h. tt)
          λ _ s2 polled. (refl, (s1, h, poll-SeenWith c "attached" id s1 s2 sound polled))

-- The calls up to the choice of the machine: the volume is looked up, then the node, and then the
-- machine that the node names.
pub record Chosen (c : Cloud) (d : Driver) (id node_id : String) (s : c.State) (vol : Volume)
    (machine : String) (s' : c.State) : Type 0 where
  pub node : String
  pub machines : List Machine
  pub s1 : c.State
  pub s2 : c.State
  pub got : c.get_volume id s ≡ (ok (some vol), s1)
  pub resolved : publish_node_id c d node_id s1 ≡ (ok node, s2)
  pub listed : c.list_machines (machine_filters d) s2 ≡ (ok machines, s')
  pub names : find_machine node machines ≡ some machine

-- The volume that the first call gave is attached to the machine of the request's node, or was then
-- attached to that machine, and a last look at the volume found it attached.
abbrev pub Published : (c : Cloud) → Driver → String → String → c.State → Labels → c.State → Type 0
Published c d id node_id s labels s' =
    (vol : Volume) × (labels ≡ publish_context d vol)
    × (machine : String) × (s3 : c.State) × Chosen c d id node_id s vol machine s3
    × (((is_attached_to machine vol.attachments ≡ true) × (s3 ≡ s')) ⊎ Attached c id machine s3 s')

module _ (c : Cloud) (d : Driver) (id node_id : String) (sound : PollIsSound c) (s : c.State) where
  attach_if_free-Published :
      (vol : Volume) (machine : String) (s3 : c.State)
      → Chosen c d id node_id s vol machine s3
      → Ensures (Published c d id node_id s) (attach_if_free c d id vol machine s3)
  attach_if_free-Published vol machine s3 chosen =
      rw (attach_if_free_lem c d id vol machine s3)
        (elim (Bool-cases (is_attached_to machine vol.attachments)) [
          | inl e ↦ rw e (vol, refl, machine, s3, chosen, inl (e, refl))
          | inr e ↦ rw e (elim (Bool-cases (last_machine vol.attachments "" == "")) [
            | inl f ↦ rw f (
                Ensures-weaken _ (Published c d id node_id s)
                  (attach_and_wait c d id vol machine s3)
                  (λ labels s' (same, seen). (vol, same, machine, s3, chosen, inr seen))
                  (attach_and_wait-Ensures c d id vol machine s3 sound))
            | inr f ↦ rw f tt
          ])
        ])

  attach_to_node-Published :
      (found : Option Volume) (node : String) (s1 s2 : c.State)
      → c.get_volume id s ≡ (ok found, s1)
      → publish_node_id c d node_id s1 ≡ (ok node, s2)
      → Ensures (Published c d id node_id s) (attach_to_node c d id found node s2)
  unfolding attach_to_node
  attach_to_node-Published found node s1 s2 got resolved =
      handle-Ensures (Published c d id node_id s) (c.list_machines _) _ _ s2 (λ e s3 h. tt)
        λ l s3 h. machine l (find_machine node l) found s3 h refl got
    where
      machine :
          (l : List Machine) (o : Option String) (found : Option Volume) (s3 : c.State)
          → c.list_machines (machine_filters d) s2 ≡ (ok l, s3)
          → find_machine node l ≡ o
          → c.get_volume id s ≡ (ok found, s1)
          → Ensures (Published c d id node_id s) (
              elim o as (λ _. Exec c.State Labels) [
                | none ↦ fail (status not_found "machine %q does not exist")
                | some machine ↦ do vol ← deref found; attach_if_free c d id vol machine
              ]
                s3)
      machine l none found s3 listed h got = tt
      machine l (some m) none s3 listed h got = tt
      machine l (some m) (some vol) s3 listed h got = attach_if_free-Published vol m s3 (record {
        node = node;
        machines = l;
        s1 = s1;
        s2 = s2;
        got = got;
        resolved = resolved;
        listed = listed;
        names = h;
      })

  publish_volume-Published : Ensures (Published c d id node_id s) (publish_volume c d id node_id s)
  unfolding publish_volume
  publish_volume-Published =
      handle-Ensures (Published c d id node_id s) (c.get_volume id) _ _ s
        (λ e s1 h.
          if-Ensures (Published c d id node_id s) (is_not_found e) _ _ s1 (λ _. tt) (λ _. tt))
        λ found s1 got.
          handle-Ensures (Published c d id node_id s) (publish_node_id c d node_id) fail _ s1
            (λ e s2 h. tt)
            λ node s2 resolved. attach_to_node-Published found node s1 s2 got resolved

-- If the waits are sound, ControllerPublishVolume succeeds only with the publish context of the
-- volume that its first call gave for the request's identity, and only if that volume was attached
-- to the machine that its last call listed for the request's node, or was then attached to that
-- machine and found to be attached at the last call.
pub controller_publish_volume-Published :
    (c : Cloud) (d : Driver) (req : ControllerPublishRequest) (s : c.State)
    → PollIsSound c
    → Ensures (Published c d req.volume_id req.node_id s) (controller_publish_volume c d req s)
unfolding controller_publish_volume
controller_publish_volume-Published c d req s sound =
    if-Ensures (Published c d req.volume_id req.node_id s) (req.volume_id == "") _ _ s (λ _. tt)
      λ _.
        if-Ensures (Published c d req.volume_id req.node_id s) (req.node_id == "") _ _ s (λ _. tt)
          λ _.
            if-Ensures (Published c d req.volume_id req.node_id s)
              (not (is_some req.volume_capability)) _ _ s (λ _. tt)
              λ _.
                if-Ensures (Published c d req.volume_id req.node_id s) req.readonly _ _ s (λ _. tt)
                  λ _. publish_volume-Published c d req.volume_id req.node_id sound s
