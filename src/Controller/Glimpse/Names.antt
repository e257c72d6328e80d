-- ===== src/Controller/Glimpse/Names.antt =====
-- Where the node and the machine of a request come from, by the states that it has seen.
use csi_thalassa.Prelude.{ℕ, String, ◌≡◌, ◌⊎◌, inl, inr, List, some}
use csi_thalassa.Exec.{ok}
use csi_thalassa.Iaas.{Cloud, Machine}
use csi_thalassa.Driver.{Driver}
use csi_thalassa.Attachment.{find_machine, machine_filters, provider_identity}
use csi_thalassa.Attachment.Named.{Named, Listed}
use csi_thalassa.Controller.Glimpse.{Glimpses, glimpse}
use csi_thalassa.Controller.Glimpse.Looks.{AllStates, look-ok}
use csi_thalassa.Controller.Glimpse.States.{LastSeen-All}

-- The node is the request's, or its provider identity in one of these states names it.
abbrev pub NodeFrom : (c : Cloud) → (c.State → Type 0) → String → String → Type 0
NodeFrom c Q node_id node =
    (node ≡ node_id)
    ⊎ ((z : c.State) × Q z
        × (id : String) × ((c.get_node_provider_id node_id z).0 ≡ ok id)
        × (provider_identity id ≡ some node))

-- The machine is the node itself, or in one of these states the list has it as one that the node
-- names.
abbrev pub MachineFrom : (c : Cloud) → Driver → (c.State → Type 0) → String → String → Type 0
MachineFrom c d Q node machine =
    (machine ≡ node)
    ⊎ ((z : c.State) × Q z
        × (l : List Machine) × ((c.list_machines (machine_filters d) z).0 ≡ ok l)
        × (find_machine node l ≡ some machine))

module _ (n : ℕ) (c : Cloud) (d : Driver) (Q : c.State → Type 0) where
  pub Named-glimpse :
      (node_id node : String) (g : Glimpses c.State)
      → AllStates Q g
      → Named (glimpse n c) d node_id node g
      → NodeFrom c Q node_id node
  Named-glimpse node_id node g all (inl same) = inl same
  Named-glimpse node_id node g all (inr (g0, id, h, named)) =
      let (z, q, given) =
        LastSeen-All Q (c.get_node_provider_id node_id) (ok id) g
          (look-ok (c.get_node_provider_id node_id) g0 g id h) all.0 in
      inr (z, q, id, given, named)

  pub Listed-glimpse :
      (node machine : String) (g : Glimpses c.State)
      → AllStates Q g
      → Listed (glimpse n c) d node machine g
      → MachineFrom c d Q node machine
  Listed-glimpse node machine g all (inl same) = inl same
  Listed-glimpse node machine g all (inr (g0, l, h, found)) =
      let (z, q, listed) =
        LastSeen-All Q (c.list_machines (machine_filters d)) (ok l) g
          (look-ok (c.list_machines (machine_filters d)) g0 g l h) all.0 in
      inr (z, q, l, listed, found)
