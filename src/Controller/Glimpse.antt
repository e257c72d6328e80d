-- ===== src/Controller/Glimpse.antt =====
-- What one request sees of an API that others use too: each of its calls meets the API in the state
-- that it is in then.
pub mod Looks
pub mod Names
pub mod States
use csi_thalassa.Prelude.{ℕ, ◌≡◌, refl, List, [], ◌∷◌}
use csi_thalassa.Exec.{err, Exec}
use csi_thalassa.Iaas.{Cloud}
use csi_thalassa.Controller.Calls.{Read, Write, Call, read, write, perform}
use csi_thalassa.Controller.Replay.{unanswered, poll_rounds}

-- The states at its calls so far, the last one first, and those at the calls to come.
pub record Glimpses (S : Type 0) : Type 0 where
  pub past : List S
  pub to_come : List S

unfoldable pub look : {S A : Type 0} → Exec S A → Exec (Glimpses S) A
look m g = elim g.to_come [
  | [] ↦ (err unanswered, g)
  | x ∷ l ↦ ((m x).0, record { past = x ∷ g.past; to_come = l })
]

abbrev pub glimpse : ℕ → Cloud → Cloud
glimpse rounds c = record {
  State = Glimpses c.State;
  get_volume = λ id. look (c.get_volume id);
  list_volumes = λ l. look (c.list_volumes l);
  create_volume = λ r. look (c.create_volume r);
  update_volume = λ id u. look (c.update_volume id u);
  delete_volume = λ id. look (c.delete_volume id);
  attach_volume = λ id r. look (c.attach_volume id r);
  detach_volume = λ id r. look (c.detach_volume id r);
  list_volume_types = look c.list_volume_types;
  get_machine = λ id. look (c.get_machine id);
  list_machines = λ l. look (c.list_machines l);
  get_snapshot = λ id. look (c.get_snapshot id);
  list_snapshots = λ l. look (c.list_snapshots l);
  create_snapshot = λ r. look (c.create_snapshot r);
  delete_snapshot = λ id. look (c.delete_snapshot id);
  wait_until_snapshot_is_available = λ id. look (c.wait_until_snapshot_is_available id);
  list_regions = λ l. look (c.list_regions l);
  poll = poll_rounds rounds;
  build_kube_config = λ k. look (c.build_kube_config k);
  new_kube_client = look c.new_kube_client;
  get_node_provider_id = λ node. look (c.get_node_provider_id node);
}

module _ (n : ℕ) (c : Cloud) (x : c.State) (p l : List c.State) where
  -- A call sees the next state.
  abbrev SeesNext : Call → Type 0
  SeesNext k =
      perform (glimpse n c) k (record { past = p; to_come = x ∷ l })
      ≡ ((perform c k x).0, record { past = x ∷ p; to_come = l })

  read-SeesNext : (q : Read) → SeesNext (read q)
  unfolding perform look
  read-SeesNext (Read.get_volume id) = refl
  read-SeesNext _ = refl

  write-SeesNext : (w : Write) → SeesNext (write w)
  unfolding perform look
  write-SeesNext (Write.create_volume r) = refl
  write-SeesNext _ = refl

  pub perform-glimpse : (k : Call) → SeesNext k
  perform-glimpse (read q) = read-SeesNext q
  perform-glimpse (write w) = write-SeesNext w
