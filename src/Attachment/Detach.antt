-- ===== src/Attachment/Detach.antt =====
-- What ControllerUnpublishVolume writes, and what it has seen when it succeeds.
use csi_thalassa.Prelude.{String, ◌≡◌, refl, true, not, List, Option, none, some, ◌==◌, arith}
use csi_thalassa.Status.{Error, is_not_found}
use csi_thalassa.Exec.{Exec, ok, err, pure, fail}
use csi_thalassa.Exec.Keeps.{Keeps, handle-Keeps, >>=-Keeps, if-Keeps}
use csi_thalassa.Exec.Ensures.{Ensures, handle-Ensures, if-Ensures, ensured}
use csi_thalassa.Iaas.{Cloud, Volume, Machine}
use csi_thalassa.Iaas.Reads.{ReadsKeep}
use csi_thalassa.Driver.{Driver}
use csi_thalassa.Attachment.{
  find_machine, resource, machine_filters, volume_has_status, get_node_machine_identity,
  unpublish_node_id, machine_to_detach, detach_and_wait, is_detached, detach_from_node,
  controller_unpublish_volume,
}
use csi_thalassa.Attachment.Laws.{
  PollIsSound, SeenWith, get_node_machine_identity-Keeps, volume_has_status-Keeps,
}
use csi_thalassa.Attachment.Waits.{poll-SeenWith}

module _ (c : Cloud) (P : c.State → Type 0) (reads : ReadsKeep c P) (d : Driver) where
  pub unpublish_node_id-Keeps : (node : String) → Keeps P (unpublish_node_id c d node)
  unfolding unpublish_node_id
  unpublish_node_id-Keeps node =
      if-Keeps P (not (d.kube_config == "")) _ _
        (handle-Keeps (get_node_machine_identity c d node) _ _
          (get_node_machine_identity-Keeps c P reads d node) (λ e s h. h) (λ id s h. h))
        (λ s h. h)

  pub machine_to_detach-Keeps : (node : String) → Keeps P (machine_to_detach c d node)
  unfolding machine_to_detach
  machine_to_detach-Keeps node =
      handle-Keeps (c.get_machine node) _ _ (reads.get_machine node)
        (λ e.
          if-Keeps P (is_not_found e) _ _
            (handle-Keeps (c.list_machines _) _ _ (reads.list_machines _) (λ e s h. h) (λ l s h. h))
            (λ s h. h))
        (λ _ s h. h)

  -- Whatever survives the calls that read, and the detachment of the request's volume from a
  -- machine, survives ControllerUnpublishVolume: it makes no other write.
  pub controller_unpublish_volume-Keeps :
      (volume_id node_id : String)
      → ((machine : String) → Keeps P (c.detach_volume volume_id (resource machine)))
      → Keeps P (controller_unpublish_volume c d volume_id node_id)
  unfolding controller_unpublish_volume detach_from_node detach_and_wait
  controller_unpublish_volume-Keeps volume_id node_id writes =
      if-Keeps P (volume_id == "") _ _ (λ s h. h)
        (handle-Keeps (c.get_volume volume_id) _ _ (reads.get_volume volume_id)
          (λ e. if-Keeps P (is_not_found e) _ _ (λ s h. h) (λ s h. h))
          λ vol.
            if-Keeps P (is_detached vol) _ _ (λ s h. h)
              (>>=-Keeps (unpublish_node_id c d node_id) _ (unpublish_node_id-Keeps node_id) λ node.
                >>=-Keeps (machine_to_detach c d node) _ (machine_to_detach-Keeps node) detach))
    where
      waited : (machine : String) → Keeps P (detach_and_wait c volume_id machine)
      waited machine =
          handle-Keeps (c.detach_volume volume_id (resource machine)) _ _ (writes machine)
            (λ e. if-Keeps P (is_not_found e) _ _ (λ s h. h) (λ s h. h))
            λ _.
              handle-Keeps (c.poll (volume_has_status c "available" volume_id)) _ _
                (reads.poll _ (volume_has_status-Keeps c P reads d "available" volume_id))
                (λ e. if-Keeps P (is_not_found e) _ _ (λ s h. h) (λ s h. h)) (λ _ s h. h)

      detach :
          (o : Option String)
          → Keeps P (elim o as (λ _. Exec c.State (Unit {0})) [
            | none ↦ pure tt
            | some machine ↦ detach_and_wait c volume_id machine
          ])
      detach none = λ s h. h
      detach (some m) = waited m

-- The first calls: the volume is looked up, and then the node.
abbrev pub Resolved : (c : Cloud) → Driver → String → String → c.State → String → c.State → Type 0
Resolved c d id node_id s node s' =
    (vol : Option Volume) × (s1 : c.State) × (c.get_volume id s ≡ (ok vol, s1))
    × (unpublish_node_id c d node_id s1 ≡ (ok node, s'))

-- Why ControllerUnpublishVolume takes a volume for detached, by the last answer of the API.
pub data Released (c : Cloud) (d : Driver) (id node_id : String) (s s' : c.State) : Type 0 where
  missing :
      (e : Error) (s1 : c.State)
      → c.get_volume id s1 ≡ (err e, s')
      → is_not_found e ≡ true
      → Released c d id node_id s s'
  idle :
      (vol : Option Volume) (s1 : c.State)
      → c.get_volume id s1 ≡ (ok vol, s')
      → is_detached vol ≡ true
      → Released c d id node_id s s'
  no_machine :
      (node : String) (e : Error) (l : List Machine) (s1 s2 : c.State)
      → Resolved c d id node_id s node s1
      → c.get_machine node s1 ≡ (err e, s2)
      → is_not_found e ≡ true
      → c.list_machines (machine_filters d) s2 ≡ (ok l, s')
      → find_machine node l ≡ none
      → Released c d id node_id s s'
  not_attached :
      (node machine : String) (e : Error) (s1 s2 : c.State)
      → Resolved c d id node_id s node s1
      → machine_to_detach c d node s1 ≡ (ok (some machine), s2)
      → c.detach_volume id (resource machine) s2 ≡ (err e, s')
      → is_not_found e ≡ true
      → Released c d id node_id s s'
  vanished :
      (e : Error) (s1 : c.State)
      → c.poll (volume_has_status c "available" id) s1 ≡ (err e, s')
      → is_not_found e ≡ true
      → Released c d id node_id s s'
  available : SeenWith c "available" id s' → Released c d id node_id s s'

module _ (c : Cloud) (d : Driver) (id node_id : String) (s : c.State) where
  detach_and_wait-Released :
      (node machine : String) (s1 s2 : c.State)
      → PollIsSound c
      → Resolved c d id node_id s node s1
      → machine_to_detach c d node s1 ≡ (ok (some machine), s2)
      → Ensures (λ _. Released c d id node_id s) (detach_and_wait c id machine s2)
  unfolding detach_and_wait
  detach_and_wait-Released node machine s1 s2 sound resolved chosen =
      handle-Ensures (λ _. Released c d id node_id s) (c.detach_volume id (resource machine)) _ _ s2
        (λ e s3 h.
          if-Ensures (λ _. Released c d id node_id s) (is_not_found e) _ _ s3
            (λ f. not_attached node machine e s1 s2 resolved chosen h f) (λ _. tt))
        λ _ s3 h.
          handle-Ensures (λ _. Released c d id node_id s)
            (c.poll (volume_has_status c "available" id)) _ _ s3
            (λ e s4 h.
              if-Ensures (λ _. Released c d id node_id s) (is_not_found e) _ _ s4
                (λ f. vanished e s3 h f) (λ _. tt))
            (λ _ s4 h. available (poll-SeenWith c "available" id s3 s4 sound h))

  machine_to_detach-Ensures :
      (node : String) (s1 : c.State)
      → Resolved c d id node_id s node s1
      → Ensures (λ o s'. o ≡ none → Released c d id node_id s s') (machine_to_detach c d node s1)
  unfolding machine_to_detach
  machine_to_detach-Ensures node s1 resolved =
      handle-Ensures (λ o s'. o ≡ none → Released c d id node_id s s') (c.get_machine node) _ _ s1
        (λ e s2 h.
          if-Ensures _ (is_not_found e) _ _ s2
            (λ f.
              handle-Ensures (λ o s'. o ≡ none → Released c d id node_id s s')
                (c.list_machines (machine_filters d)) _ _ s2 (λ e s3 h. tt)
                (λ l s3 listed. λ lost. no_machine node e l s1 s2 resolved h f listed lost))
            (λ _. tt))
        (λ _ s2 h. λ lost. ground arith)

-- If the waits are sound, ControllerUnpublishVolume succeeds only if the last answer of the API was
-- one of these: there is no such volume; it has no attachments and is available; there is no machine
-- of the node's identity, and none in the list that it names; there is nothing to detach from the
-- machine of the node; the volume vanished during the wait; it is available.
pub controller_unpublish_volume-Released :
    (c : Cloud) (d : Driver) (id node_id : String) (s : c.State)
    → PollIsSound c
    → Ensures (λ _. Released c d id node_id s) (controller_unpublish_volume c d id node_id s)
unfolding controller_unpublish_volume detach_from_node
controller_unpublish_volume-Released c d id node_id s sound =
    if-Ensures (λ _. Released c d id node_id s) (id == "") _ _ s (λ _. tt)
      λ _.
        handle-Ensures (λ _. Released c d id node_id s) (c.get_volume id) _ _ s
          (λ e s1 h.
            if-Ensures (λ _. Released c d id node_id s) (is_not_found e) _ _ s1
              (λ f. missing e s h f) (λ _. tt))
          λ vol s1 found.
            if-Ensures (λ _. Released c d id node_id s) (is_detached vol) _ _ s1
              (λ f. idle vol s found f)
              λ _.
                handle-Ensures (λ _. Released c d id node_id s) (unpublish_node_id c d node_id) fail
                  _ s1 (λ e s2 h. tt)
                  λ node s2 named.
                    let resolved : Resolved c d id node_id s node s2 = (vol, s1, found, named) in
                    handle-Ensures (λ _. Released c d id node_id s) (machine_to_detach c d node)
                      fail _ s2 (λ e s3 h. tt)
                      λ o s3 h. detach node s2 resolved o s3 h (
                        ensured (λ o s'. o ≡ none → Released c d id node_id s s')
                          (machine_to_detach c d node s2) o s3 h
                          (machine_to_detach-Ensures c d id node_id s node s2 resolved))
  where
    detach :
        (node : String) (s2 : c.State)
        → Resolved c d id node_id s node s2
        → (o : Option String) (s3 : c.State) → machine_to_detach c d node s2 ≡ (ok o, s3)
        → (o ≡ none → Released c d id node_id s s3)
        → Ensures
            (λ _. Released c d id node_id s)
            (elim o as (λ _. Exec c.State (Unit {0})) [
              | none ↦ pure tt
              | some machine ↦ detach_and_wait c id machine
            ]
              s3)
    detach node s2 resolved none s3 chosen lost = lost refl
    detach node s2 resolved (some m) s3 chosen _ =
        detach_and_wait-Released c d id node_id s node m s2 s3 sound resolved chosen
