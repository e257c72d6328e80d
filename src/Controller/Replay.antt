-- ===== src/Controller/Replay.antt =====
-- A request in progress. The code of a handler is deterministic: the answers that its calls have
-- had so far settle which call it makes next, or what it returns. This API gives these answers
-- again, in turn, and notes the first call beyond them.
pub mod Reads
pub mod Descent
use csi_thalassa.Prelude.{
  String, ℕ, zero, suc, Bool, List, [], ◌∷◌, Option, none, some, if◌then◌else◌,
}
use csi_thalassa.Status.{Error, plain, panic}
use csi_thalassa.Exec.{Result, ok, err, Exec, pure, fail, handle}
use csi_thalassa.Iaas.{Cloud, Volume, VolumeType, Machine, Snapshot}
use csi_thalassa.Controller.Calls.{
  Read, Write, Call, read, write, Reply, done, volume, volumes, volume_types, machines, snapshot,
  snapshots, provider_id,
}

pub record Replay : Type 0 where
  -- the answers that are still to be given
  pub replies : List Reply
  -- the call that waits for an answer
  pub asks : Option Call

-- What a handler sees of a call that has no answer yet; what it does after that is not looked at.
abbrev pub unanswered : Error
unanswered = plain "no answer yet"

-- The answer as the result of one kind of calls, if it is of that kind.
abbrev pub to_done : Reply → Option (Result (Unit {0}))
to_done (done r) = some r
to_done _ = none

abbrev pub to_volume : Reply → Option (Result (Option Volume))
to_volume (volume r) = some r
to_volume _ = none

abbrev pub to_volumes : Reply → Option (Result (List Volume))
to_volumes (volumes r) = some r
to_volumes _ = none

abbrev pub to_volume_types : Reply → Option (Result (List VolumeType))
to_volume_types (volume_types r) = some r
to_volume_types _ = none

abbrev pub to_machines : Reply → Option (Result (List Machine))
to_machines (machines r) = some r
to_machines _ = none

abbrev pub to_snapshot : Reply → Option (Result (Option Snapshot))
to_snapshot (snapshot r) = some r
to_snapshot _ = none

abbrev pub to_snapshots : Reply → Option (Result (List Snapshot))
to_snapshots (snapshots r) = some r
to_snapshots _ = none

abbrev pub to_provider_id : Reply → Option (Result String)
to_provider_id (provider_id r) = some r
to_provider_id _ = none

module _ {A : Type 0} where
  -- A call never gets the answer of another kind of calls.
  abbrev pub given : Option (Result A) → Result A
  given (some r) = r
  given none = err panic

  -- A call takes the next answer, or waits; after a call that waits nothing is answered.
  unfoldable pub ask : (Reply → Option (Result A)) → Call → Exec Replay A
  ask to k t = elim t.asks [
    | some first ↦ (err unanswered, t)
    | none ↦ elim t.replies [
      | [] ↦ (err unanswered, record { replies = []; asks = some k })
      | r ∷ l ↦ (given (to r), record { replies = l; asks = none })
    ]
  ]

-- `wait.PollUntilContextTimeout`, whose context lasts for so many calls of the condition.
unfoldable pub poll_rounds : {S : Type 0} → ℕ → Exec S Bool → Exec S (Unit {0})
poll_rounds zero m = fail (plain "context deadline exceeded")
poll_rounds (suc n) m =
    let rest = poll_rounds n m in handle m fail λ is_done. if is_done then pure tt else rest

abbrev pub replay : ℕ → Cloud
replay rounds = record {
  State = Replay;
  get_volume = λ id. ask to_volume (read (Read.get_volume id));
  list_volumes = λ l. ask to_volumes (read (Read.list_volumes l));
  create_volume = λ r. ask to_volume (write (Write.create_volume r));
  update_volume = λ id u. ask to_done (write (Write.update_volume id u));
  delete_volume = λ id. ask to_done (write (Write.delete_volume id));
  attach_volume = λ id r. ask to_done (write (Write.attach_volume id r));
  detach_volume = λ id r. ask to_done (write (Write.detach_volume id r));
  list_volume_types = ask to_volume_types (read Read.list_volume_types);
  get_machine = λ id. ask to_done (read (Read.get_machine id));
  list_machines = λ l. ask to_machines (read (Read.list_machines l));
  get_snapshot = λ id. ask to_snapshot (read (Read.get_snapshot id));
  list_snapshots = λ l. ask to_snapshots (read (Read.list_snapshots l));
  create_snapshot = λ r. ask to_snapshot (write (Write.create_snapshot r));
  delete_snapshot = λ id. ask to_done (write (Write.delete_snapshot id));
  wait_until_snapshot_is_available =
      λ id. ask to_done (read (Read.wait_until_snapshot_is_available id));
  list_regions = λ l. ask to_done (read (Read.list_regions l));
  poll = poll_rounds rounds;
  build_kube_config = λ k. ask to_done (read (Read.build_kube_config k));
  new_kube_client = ask to_done (read Read.new_kube_client);
  get_node_provider_id = λ node. ask to_provider_id (read (Read.get_node_provider_id node));
}
