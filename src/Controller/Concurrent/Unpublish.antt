-- ===== src/Controller/Concurrent/Unpublish.antt =====
-- What a request to detach a volume has seen when it succeeds beside other requests.
use csi_thalassa.Prelude.{ℕ, String, ◌≡◌, refl, ◌≤◌, true, List, [], Option, none, some, get_elem?}
use csi_thalassa.Prelude.Text.{equal_fold}
use csi_thalassa.Status.{Error, is_not_found}
use csi_thalassa.Exec.{Result, ok, err, settle, fail, pure}
use csi_thalassa.Exec.Keeps.{Keeps-after}
use csi_thalassa.Exec.Ensures.{Ensures, ensured, OnSuccess, on_success}
use csi_thalassa.Iaas.{Cloud, Volume, Machine}
use csi_thalassa.Driver.{Driver}
use csi_thalassa.Attachment.{
  find_machine, unpublish_node_id, machine_to_detach, resource, machine_filters, is_detached,
  volume_has_status, controller_unpublish_volume,
}
use csi_thalassa.Attachment.Named.{Named, Listed, unpublish_node_id-Named, machine_to_detach-Listed}
use csi_thalassa.Attachment.Detach.{
  Resolved, unpublish_node_id-Keeps, machine_to_detach-Keeps, Released, missing, idle, no_machine,
  not_attached, vanished, available, controller_unpublish_volume-Keeps,
  controller_unpublish_volume-Released,
}
use csi_thalassa.Controller.{Response, unpublish_request, empty, serve}
use csi_thalassa.Controller.Tree.Serve.{call_bound}
use csi_thalassa.Controller.Glimpse.{Glimpses, look, glimpse}
use csi_thalassa.Controller.Glimpse.Looks.{
  LastSeen, AllStates, look-ok, look-missing, look-Keeps, glimpse-ReadsKeep, poll_rounds-ok,
  poll_rounds-missing, volume_has_status-missing,
}
use csi_thalassa.Controller.Glimpse.Names.{NodeFrom, MachineFrom, Named-glimpse, Listed-glimpse}
use csi_thalassa.Controller.Glimpse.States.{Among, All-Among, LastSeen-All}
use csi_thalassa.Controller.Concurrent.{System, Event, new_task, run}
use csi_thalassa.Prelude.All.{All}
use csi_thalassa.Controller.Concurrent.Liveness.{turns, seen, IsAnswered, run-IsAnswered}

-- The API in this state has no such volume, or says that it is detached or available, that it has no
-- machine for the request's node, after it had none of that identity in one of the other states, or
-- that there is nothing to detach from the machine of the request's node.
pub data IsReleased (c : Cloud) (d : Driver) (id node_id : String) (Q : c.State → Type 0)
    (y : c.State) : Type 0 where
  no_volume :
      (e : Error)
      → (c.get_volume id y).0 ≡ err e
      → is_not_found e ≡ true
      → IsReleased c d id node_id Q y
  is_free :
      (vol : Option Volume)
      → (c.get_volume id y).0 ≡ ok vol
      → is_detached vol ≡ true
      → IsReleased c d id node_id Q y
  no_such_machine :
      (node : String) (e : Error) (z : c.State) (l : List Machine)
      → NodeFrom c Q node_id node
      → Q z
      → (c.get_machine node z).0 ≡ err e
      → is_not_found e ≡ true
      → (c.list_machines (machine_filters d) y).0 ≡ ok l
      → find_machine node l ≡ none
      → IsReleased c d id node_id Q y
  nothing_attached :
      (node machine : String) (e : Error)
      → NodeFrom c Q node_id node
      → MachineFrom c d Q node machine
      → (c.detach_volume id (resource machine) y).0 ≡ err e
      → is_not_found e ≡ true
      → IsReleased c d id node_id Q y
  is_available :
      (vol : Volume)
      → (c.get_volume id y).0 ≡ ok (some vol)
      → equal_fold vol.status "available" ≡ true
      → IsReleased c d id node_id Q y

module _ (c : Cloud) (d : Driver) (id node_id : String) (n : ℕ) (Q : c.State → Type 0)
    (start : Glimpses c.State) (all_start : AllStates Q start) where
  abbrev Resolves : String → Glimpses c.State → Type 0
  Resolves = Resolved (glimpse n c) d id node_id start

  Resolved-AllStates : (node : String) (g : Glimpses c.State) → Resolves node g → AllStates Q g
  Resolved-AllStates node g (vol, g1, found, named) =
      Keeps-after (AllStates Q) (unpublish_node_id (glimpse n c) d node_id)
        (unpublish_node_id-Keeps (glimpse n c) (AllStates Q) (glimpse-ReadsKeep n c Q) d node_id)
        (Keeps-after (AllStates Q) (look (c.get_volume id)) (look-Keeps Q (c.get_volume id))
          all_start found)
        named

  Resolved-NodeFrom :
      (node : String) (g : Glimpses c.State) → Resolves node g → NodeFrom c Q node_id node
  Resolved-NodeFrom node g (vol, g1, found, named) =
      Named-glimpse n c d Q node_id node g (Resolved-AllStates node g (vol, g1, found, named)) (
        ensured (Named (glimpse n c) d node_id) (unpublish_node_id (glimpse n c) d node_id g1) node
          g named (unpublish_node_id-Named (glimpse n c) d node_id g1))

  Resolved-MachineFrom :
      (node machine : String) (g g' : Glimpses c.State)
      → Resolves node g
      → machine_to_detach (glimpse n c) d node g ≡ (ok (some machine), g')
      → MachineFrom c d Q node machine
  Resolved-MachineFrom node machine g g' resolved chosen =
      Listed-glimpse n c d Q node machine g'
        (Keeps-after (AllStates Q) (machine_to_detach (glimpse n c) d node)
          (machine_to_detach-Keeps (glimpse n c) (AllStates Q) (glimpse-ReadsKeep n c Q) d node)
          (Resolved-AllStates node g resolved) chosen)
        (ensured
          (λ o s'. (machine : String) → o ≡ some machine → Listed (glimpse n c) d node machine s')
          (machine_to_detach (glimpse n c) d node g) (some machine) g' chosen
          (machine_to_detach-Listed (glimpse n c) d node g) machine refl)

  Missing-glimpse :
      (node : String) (e : Error) (g g' : Glimpses c.State)
      → Resolves node g
      → look (c.get_machine node) g ≡ (err e, g')
      → is_not_found e ≡ true
      → (z : c.State) × Q z × ((c.get_machine node z).0 ≡ err e)
  Missing-glimpse node e g g' resolved h lost =
      LastSeen-All Q (c.get_machine node) (err e) g'
        (look-missing (c.get_machine node) g g' e h lost)
        (Keeps-after (AllStates Q) (look (c.get_machine node)) (look-Keeps Q (c.get_machine node))
          (Resolved-AllStates node g resolved) h).0

  module _ (g : Glimpses c.State) (all : AllStates Q g) where
    abbrev IsReleasedSometime : Type 0
    IsReleasedSometime = (y : c.State) × Q y × IsReleased c d id node_id Q y

    at_last :
        {A : Type 0} (m : c.State → Result A × c.State) (r : Result A)
        → LastSeen m r g
        → ((y : c.State) → (m y).0 ≡ r → IsReleased c d id node_id Q y)
        → IsReleasedSometime
    at_last m r last f = let (y, q, h) = LastSeen-All Q m r g last all.0 in (y, q, f y h)

    Released-glimpse : Released (glimpse n c) d id node_id start g → IsReleasedSometime
    Released-glimpse (missing e s h lost) =
        at_last (c.get_volume id) (err e) (look-missing (c.get_volume id) s g e h lost)
          λ y h. no_volume e h lost
    Released-glimpse (idle vol s h free) =
        at_last (c.get_volume id) (ok vol) (look-ok (c.get_volume id) s g vol h)
          λ y h. is_free vol h free
    Released-glimpse (no_machine node e l s1 s2 resolved missed lost h none_found) =
        let (z, q, gone) = Missing-glimpse node e s1 s2 resolved missed lost in
        at_last (c.list_machines (machine_filters d)) (ok l)
          (look-ok (c.list_machines (machine_filters d)) s2 g l h)
          λ y h.
            no_such_machine node e z l (Resolved-NodeFrom node s1 resolved) q gone lost h none_found
    Released-glimpse (not_attached node machine e s1 s2 resolved chosen h lost) =
        at_last (c.detach_volume id (resource machine)) (err e)
          (look-missing (c.detach_volume id (resource machine)) s2 g e h lost)
          λ y h.
            nothing_attached node machine e (Resolved-NodeFrom node s1 resolved)
              (Resolved-MachineFrom node machine s1 s2 resolved chosen) h lost
    Released-glimpse (vanished e s h lost) =
        let (s0, h0) =
          poll_rounds-missing (volume_has_status (glimpse n c) "available" id) n s g e h lost in
        let (e', h', lost') =
          volume_has_status-missing (glimpse n c) "available" id s0 g e h0 lost in
        at_last (c.get_volume id) (err e') (look-missing (c.get_volume id) s0 g e' h' lost')
          λ y h. no_volume e' h lost'
    Released-glimpse (available (s0, vol, h, status)) =
        at_last (c.get_volume id) (ok (some vol)) (look-ok (c.get_volume id) s0 g (some vol) h)
          λ y h. is_available vol h status

module _ (c : Cloud) (d : Driver) (i : ℕ) (id node : String) (n : ℕ) (Q : c.State → Type 0)
    (l : List c.State) (all : All Q l) where
  start : Glimpses c.State
  start = record { past = []; to_come = l }

  serve-IsReleased :
      (r : Response)
      → (serve (glimpse n c) d (unpublish_request id node) start).0 ≡ ok r
      → (y : c.State) × Q y × IsReleased c d id node Q y
  unfolding serve start
  serve-IsReleased r h =
      at (controller_unpublish_volume (glimpse n c) d id node start)
        (controller_unpublish_volume-Released (glimpse n c) d id node start
          (λ m s s' h. poll_rounds-ok m n s s' h))
        (controller_unpublish_volume-Keeps (glimpse n c) (AllStates Q) (glimpse-ReadsKeep n c Q) d
          id node (λ machine. look-Keeps Q (c.detach_volume id (resource machine))) start (tt, all))
        h
    where
      at :
          (p : Result (Unit {0}) × Glimpses c.State)
          → Ensures (λ _. Released (glimpse n c) d id node start) p
          → AllStates Q p.1
          → (settle fail (λ _. pure empty) p.0 p.1).0 ≡ ok r
          → (y : c.State) × Q y × IsReleased c d id node Q y
      at (ok u, g) released all_g h =
          Released-glimpse c d id node n Q start (tt, all) g all_g released
      at (err e, g) released all_g h = absurd (cc h)

-- It was so in one of these states.
abbrev pub IsReleasedIn : (c : Cloud) → Driver → String → String → List c.State → Type 0
IsReleasedIn c d id node l = (y : c.State) × Among y l × IsReleased c d id node (λ z. Among z l) y

-- A request to detach a volume that has its turn often enough is answered, whatever other requests
-- and other users of the API do between its turns, and with success only if at one of its turns the
-- API had no such volume, said that it was detached or available, listed no machine that the node
-- names after it had none of that identity, or had nothing to detach from the node's machine. The
-- node is the request's, or the one that its provider identity named at one of the turns.
pub run-IsReleased :
    (c : Cloud) (d : Driver) (i : ℕ) (id node : String) (rounds : ℕ) (s : System c.State)
    (events : List (Event c.State))
    → get_elem? s.tasks i ≡ some (new_task (unpublish_request id node) rounds)
    → call_bound rounds (unpublish_request id node) ≤ turns i events
    → (x : Result Response) × IsAnswered c d i (unpublish_request id node) x (run c d s events)
      × OnSuccess (λ _. IsReleasedIn c d id node (seen c d i s events)) x
unfolding start
run-IsReleased c d i id node rounds s events at_i enough = (
  (serve (glimpse rounds c) d (unpublish_request id node)
      (record { past = []; to_come = seen c d i s events })).0,
  run-IsAnswered c d i (unpublish_request id node) rounds s events at_i enough,
  on_success (λ _. IsReleasedIn c d id node (seen c d i s events)) _
      (serve-IsReleased c d i id node rounds (λ y. Among y (seen c d i s events))
        (seen c d i s events) (All-Among (seen c d i s events))),
)
