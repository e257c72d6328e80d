-- ===== src/Attachment/Named.antt =====
-- Where the node and the machine of a request come from.
use csi_thalassa.Prelude.{String, ◌≡◌, ◌⊎◌, inl, inr, refl, not, List, Option, none, some, ◌==◌}
use csi_thalassa.Status.{is_not_found, status, internal}
use csi_thalassa.Exec.{Exec, ok, pure, fail}
use csi_thalassa.Exec.Ensures.{Ensures, Ensures-weaken, ensured, handle-Ensures, if-Ensures}
use csi_thalassa.Iaas.{Cloud, Machine}
use csi_thalassa.Driver.{Driver}
use csi_thalassa.Attachment.{
  find_machine, machine_filters, provider_identity, get_node_machine_identity, publish_node_id,
  unpublish_node_id, machine_to_detach,
}

module _ (c : Cloud) (d : Driver) (node_id : String) where
  -- The last call gave the Kubernetes node of this name, whose provider identity is this one.
  abbrev pub ProvidedBy : String → c.State → Type 0
  ProvidedBy node s' =
      (s : c.State) × (id : String) × (c.get_node_provider_id node_id s ≡ (ok id, s'))
      × (provider_identity id ≡ some node)

  pub get_node_machine_identity-ProvidedBy :
      (s : c.State) → Ensures ProvidedBy (get_node_machine_identity c d node_id s)
  unfolding get_node_machine_identity
  get_node_machine_identity-ProvidedBy s =
      handle-Ensures ProvidedBy (c.build_kube_config d.kube_config) _ _ s (λ e s1 h. tt)
        λ _ s1 h.
          handle-Ensures ProvidedBy c.new_kube_client _ _ s1 (λ e s2 h. tt)
            λ _ s2 h.
              handle-Ensures ProvidedBy (c.get_node_provider_id node_id) _ _ s2 (λ e s3 h. tt)
                λ id s3 h.
                  if-Ensures ProvidedBy (id == "") _ _ s3 (λ _. tt)
                    λ _. given id s2 s3 h (provider_identity id) refl
    where
      given :
          (id : String) (s2 s3 : c.State)
          → c.get_node_provider_id node_id s2 ≡ (ok id, s3)
          → (o : Option String) → provider_identity id ≡ o
          → Ensures ProvidedBy (
              elim o as (λ _. Exec c.State String) [
                | none ↦ fail (status internal "invalid provider ID: %q")
                | some identity ↦ pure identity
              ]
                s3)
      given id s2 s3 h none e = tt
      given id s2 s3 h (some node) e = (s2, id, h, e)

  -- The node is the request's, or the one that its provider identity names.
  abbrev pub Named : String → c.State → Type 0
  Named node s' = (node ≡ node_id) ⊎ ProvidedBy node s'

  pub unpublish_node_id-Named : (s : c.State) → Ensures Named (unpublish_node_id c d node_id s)
  unfolding unpublish_node_id
  unpublish_node_id-Named s =
      if-Ensures Named (not (d.kube_config == "")) _ _ s
        (λ _.
          handle-Ensures Named (get_node_machine_identity c d node_id) _ _ s (λ e s1 h. inl refl)
            (λ node s1 h. inr (
              ensured ProvidedBy (get_node_machine_identity c d node_id s) node s1 h
                (get_node_machine_identity-ProvidedBy s))))
        (λ _. inl refl)

  pub publish_node_id-Named : (s : c.State) → Ensures Named (publish_node_id c d node_id s)
  unfolding publish_node_id
  publish_node_id-Named s =
      if-Ensures Named (not (d.kube_config == "")) _ _ s
        (λ _.
          Ensures-weaken ProvidedBy Named (get_node_machine_identity c d node_id s)
            (λ node s1 h. inr h) (get_node_machine_identity-ProvidedBy s))
        (λ _. inl refl)

-- The machine is the node itself, or the last call listed it as one that the node names.
abbrev pub Listed : (c : Cloud) → Driver → String → String → c.State → Type 0
Listed c d node machine s' =
    (machine ≡ node)
    ⊎ ((s : c.State) × (l : List Machine) × (c.list_machines (machine_filters d) s ≡ (ok l, s'))
        × (find_machine node l ≡ some machine))

pub machine_to_detach-Listed :
    (c : Cloud) (d : Driver) (node : String) (s : c.State)
    → Ensures
        (λ o s'. (machine : String) → o ≡ some machine → Listed c d node machine s')
        (machine_to_detach c d node s)
unfolding machine_to_detach
machine_to_detach-Listed c d node s =
    handle-Ensures _ (c.get_machine node) _ _ s
      (λ e s1 h.
        if-Ensures _ (is_not_found e) _ _ s1
          (λ _.
            handle-Ensures _ (c.list_machines (machine_filters d)) _ _ s1 (λ e s2 h. tt)
              (λ l s2 h. λ machine found. inr (s1, l, h, found)))
          (λ _. tt))
      (λ _ s1 h. λ machine same. inl (cc same))
