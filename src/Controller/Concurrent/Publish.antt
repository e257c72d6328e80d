-- ===== src/Controller/Concurrent/Publish.antt =====
-- What a request to attach a volume has seen when it succeeds beside other requests.
use csi_thalassa.Prelude.{
  ℕ, String, ◌≡◌, ◌≤◌, ◌⊎◌, inl, inr, true, List, [], some, get_elem?, arith,
}
use csi_thalassa.Prelude.Labels.{Labels}
use csi_thalassa.Prelude.Text.{equal_fold}
use csi_thalassa.Exec.{Result, ok, err, settle, fail, pure}
use csi_thalassa.Exec.Keeps.{Keeps-after}
use csi_thalassa.Exec.Ensures.{Ensures, ensured, OnSuccess, on_success}
use csi_thalassa.Csi.{ControllerPublishRequest}
use csi_thalassa.Iaas.{Cloud, Volume, Machine}
use csi_thalassa.Driver.{Driver}
use csi_thalassa.Attachment.{
  publish_node_id, find_machine, resource, machine_filters, publish_context,
  controller_publish_volume,
}
use csi_thalassa.Attachment.Laws.{
  is_attached_to, publish_node_id-Keeps, controller_publish_volume-Keeps,
}
use csi_thalassa.Attachment.Named.{Named, publish_node_id-Named}
use csi_thalassa.Attachment.Waits.{Attached, Published, controller_publish_volume-Published}
use csi_thalassa.Controller.{Response, publish_request, published, serve}
use csi_thalassa.Controller.Tree.Serve.{call_bound}
use csi_thalassa.Controller.Glimpse.{Glimpses, look, glimpse}
use csi_thalassa.Controller.Glimpse.Looks.{
  AllStates, look-ok, look-Keeps, glimpse-ReadsKeep, poll_rounds-ok,
}
use csi_thalassa.Controller.Glimpse.Names.{NodeFrom, Named-glimpse}
use csi_thalassa.Controller.Glimpse.States.{Among, All-Among, LastSeen-All}
use csi_thalassa.Controller.Concurrent.{System, Event, new_task, run}
use csi_thalassa.Prelude.All.{All}
use csi_thalassa.Controller.Concurrent.Liveness.{turns, seen, IsAnswered, run-IsAnswered}

-- The machine was attached in one of these states, and the volume found attached in one.
abbrev pub IsAttached : (c : Cloud) → String → (c.State → Type 0) → String → Type 0
IsAttached c id Q machine =
    ((y : c.State) × Q y × ((c.attach_volume id (resource machine) y).0 ≡ ok tt))
    × ((z : c.State) × Q z
        × (found : Volume) × ((c.get_volume id z).0 ≡ ok (some found))
        × (equal_fold found.status "attached" ≡ true))

-- The labels are the publish context of a volume that the API gave in one of these states. In one of
-- them it listed the machine of the request's node, and the volume was attached to that machine, or
-- was then attached to it and found to be attached.
pub record IsPublished (c : Cloud) (d : Driver) (id node_id : String) (Q : c.State → Type 0)
    (labels : Labels) : Type 0 where
  pub vol : Volume
  pub is_context : labels ≡ publish_context d vol
  pub given : (y : c.State) × Q y × ((c.get_volume id y).0 ≡ ok (some vol))
  pub node : String
  pub node_from : NodeFrom c Q node_id node
  pub machines : List Machine
  pub listed : (y : c.State) × Q y × ((c.list_machines (machine_filters d) y).0 ≡ ok machines)
  pub machine : String
  pub names : find_machine node machines ≡ some machine
  pub attached : (is_attached_to machine vol.attachments ≡ true) ⊎ IsAttached c id Q machine

module _ (c : Cloud) (d : Driver) (n : ℕ) (Q : c.State → Type 0) (l : List c.State)
    (all : All Q l) where
  start : Glimpses c.State
  start = record { past = []; to_come = l }

  -- What a call that succeeded tells of one of the states.
  seen_ok :
      {A : Type 0} (m : c.State → Result A × c.State) (a : A) (g g' : Glimpses c.State)
      → AllStates Q g
      → look m g ≡ (ok a, g')
      → (y : c.State) × Q y × ((m y).0 ≡ ok a)
  seen_ok m a g g' all_g h =
      LastSeen-All Q m (ok a) g' (look-ok m g g' a h)
        (Keeps-after (AllStates Q) (look m) (look-Keeps Q m) all_g h).0

  Attached-glimpse :
      (id machine : String) (g g' : Glimpses c.State)
      → AllStates Q g
      → AllStates Q g'
      → Attached (glimpse n c) id machine g g'
      → IsAttached c id Q machine
  Attached-glimpse id machine g g' all_g all_g' (g1, h, (g2, found, looked, status)) =
      let (z, q, at_z) =
        LastSeen-All Q (c.get_volume id) (ok (some found)) g'
          (look-ok (c.get_volume id) g2 g' (some found) looked) all_g'.0 in
      (seen_ok (c.attach_volume id (resource machine)) tt g g1 all_g h, (z, q, found, at_z, status))

  Published-glimpse :
      (id node_id : String) (labels : Labels) (g : Glimpses c.State)
      → AllStates Q g
      → Published (glimpse n c) d id node_id start labels g
      → IsPublished c d id node_id Q labels
  unfolding start
  Published-glimpse id node_id labels g all_g (vol, same, machine, g3, chosen, how) =
      let all1 =
        Keeps-after (AllStates Q) (look (c.get_volume id)) (look-Keeps Q (c.get_volume id))
          (tt, all) chosen.got in
      let all2 =
        Keeps-after (AllStates Q) (publish_node_id (glimpse n c) d node_id)
          (publish_node_id-Keeps (glimpse n c) (AllStates Q) (glimpse-ReadsKeep n c Q) d node_id)
          all1 chosen.resolved in
      let all3 =
        Keeps-after (AllStates Q) (look (c.list_machines (machine_filters d)))
          (look-Keeps Q (c.list_machines (machine_filters d))) all2 chosen.listed in
      record {
        vol = vol;
        is_context = same;
        given = seen_ok (c.get_volume id) (some vol) start chosen.s1 (tt, all) chosen.got;
        node = chosen.node;
        node_from = Named-glimpse n c d Q node_id chosen.node chosen.s2 all2 (
            ensured (Named (glimpse n c) d node_id)
              (publish_node_id (glimpse n c) d node_id chosen.s1) chosen.node chosen.s2
              chosen.resolved (publish_node_id-Named (glimpse n c) d node_id chosen.s1));
        machines = chosen.machines;
        listed =
            seen_ok (c.list_machines (machine_filters d)) chosen.machines chosen.s2 g3 all2
              chosen.listed;
        machine = machine;
        names = chosen.names;
        attached = elim how [
          | inl (e, _) ↦ inl e
          | inr seen ↦ inr (Attached-glimpse id machine g3 g all3 all_g seen)
        ];
      }

  serve-IsPublished :
      (req : ControllerPublishRequest) (r : Response)
      → (serve (glimpse n c) d (publish_request req) start).0 ≡ ok r
      → (labels : Labels) × (r ≡ published labels)
        × IsPublished c d req.volume_id req.node_id Q labels
  unfolding serve start
  serve-IsPublished req r h =
      at (controller_publish_volume (glimpse n c) d req start)
        (controller_publish_volume-Published (glimpse n c) d req start
          (λ m s s' h. poll_rounds-ok m n s s' h))
        (controller_publish_volume-Keeps (glimpse n c) (AllStates Q) (glimpse-ReadsKeep n c Q) d req
          (λ l node machine found. look-Keeps Q (c.attach_volume req.volume_id (resource machine)))
          start (tt, all))
        h
    where
      at :
          (p : Result Labels × Glimpses c.State)
          → Ensures (Published (glimpse n c) d req.volume_id req.node_id start) p
          → AllStates Q p.1
          → (settle fail (λ l. pure (published l)) p.0 p.1).0 ≡ ok r
          → (labels : Labels) × (r ≡ published labels)
            × IsPublished c d req.volume_id req.node_id Q labels
      at (ok labels, g) how all_g h = (
        labels,
        ground (arith, h),
        Published-glimpse req.volume_id req.node_id labels g all_g how,
      )
      at (err e, g) how all_g h = absurd (cc h)

-- The answer to a request that has seen these states.
abbrev pub IsPublishedBy :
    (c : Cloud) → Driver → ControllerPublishRequest → List c.State → Response → Type 0
IsPublishedBy c d req l r =
    (labels : Labels) × (r ≡ published labels)
    × IsPublished c d req.volume_id req.node_id (λ y. Among y l) labels

-- A request to attach a volume that has its turn often enough is answered, whatever other requests
-- and other users of the API do between its turns, and with success only if this happened at turns
-- of its own: the API gave the volume whose publish context is the answer, and listed the machine of
-- the request's node; and the volume was attached to that machine, or the request attached it, and
-- the API found it attached. The node is the request's, or the one that its provider identity named.
pub run-IsPublished :
    (c : Cloud) (d : Driver) (i : ℕ) (req : ControllerPublishRequest) (rounds : ℕ)
    (s : System c.State) (events : List (Event c.State))
    → get_elem? s.tasks i ≡ some (new_task (publish_request req) rounds)
    → call_bound rounds (publish_request req) ≤ turns i events
    → (x : Result Response) × IsAnswered c d i (publish_request req) x (run c d s events)
      × OnSuccess (IsPublishedBy c d req (seen c d i s events)) x
unfolding start
run-IsPublished c d i req rounds s events at_i enough = (
  (serve (glimpse rounds c) d (publish_request req)
      (record { past = []; to_come = seen c d i s events })).0,
  run-IsAnswered c d i (publish_request req) rounds s events at_i enough,
  on_success (IsPublishedBy c d req (seen c d i s events)) _ (
      serve-IsPublished c d rounds (λ y. Among y (seen c d i s events)) (seen c d i s events)
        (All-Among (seen c d i s events)) req),
)
