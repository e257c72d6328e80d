-- ===== src/Server/Laws.antt =====
-- What starting a driver does, and what its goroutines then do.
use csi_thalassa.Prelude.{
  ◌≡◌, refl, ap, ◌∙◌, ◌⊎◌, inl, inr, String, true, false, not, List, none, some, arith, ◌==◌,
  eq_iff, if◌then◌else◌,
}
use csi_thalassa.Status.{Error, plain}
use csi_thalassa.Exec.{Result, ok, err, failed, handle, fail, lift, pure}
use csi_thalassa.Exec.Ensures.{Ensures, handle-Ensures, if-Ensures, ensured}
use csi_thalassa.Driver.{Driver}
use csi_thalassa.Config.{NewNodeDriverParams, new_node_driver}
use csi_thalassa.Server.{
  Url, Network, Started, grpc_addr, remove_socket, open_socket, start_controller, start_node,
}
use csi_thalassa.Server.Group.{Event, accept_fails, Servers, Stopper, servers, next, run, wait}
use csi_thalassa.Server.Group.Invariant.{run-ready, debug_server_waits, failure_returned}

module _ (n : Network) where
  -- The listener of a UNIX socket is open at the endpoint's address.
  abbrev Listens : String → String → n.State → Type 0
  Listens endpoint address s' =
      (u : Url) × ((n.parse endpoint ≡ ok u)
        × ((u.scheme ≡ "unix")
            × ((address ≡ grpc_addr u)
                × ((s : n.State) × (n.listen "unix" address s ≡ (ok tt, s'))))))

  listen-Listens :
      (endpoint : String) (u : Url) (s : n.State)
      → n.parse endpoint ≡ ok u
      → u.scheme ≡ "unix"
      → Ensures (Listens endpoint) (
          handle
            (n.listen u.scheme (grpc_addr u))
            (λ e. fail (plain "failed to listen: %v"))
            (λ _. pure (grpc_addr u))
            s)
  listen-Listens endpoint u s p x =
      handle-Ensures (Listens endpoint) (n.listen u.scheme (grpc_addr u)) _ _ s (λ e s' h. tt)
        (λ a s' h. (u, (p, (x, (refl, (s, ground (arith, h, x)))))))

  open_socket-Listens :
      (endpoint : String) (s : n.State) → Ensures (Listens endpoint) (open_socket n endpoint s)
  unfolding open_socket
  open_socket-Listens endpoint s =
      handle-Ensures (Listens endpoint) (lift (n.parse endpoint)) _ _ s (λ e s' h. tt)
        (λ u s' h.
          if-Ensures (Listens endpoint) (not (u.scheme == "unix")) _ _ s' (λ b. tt)
            (λ b.
              handle-Ensures (Listens endpoint) (remove_socket n (grpc_addr u)) fail _ s'
                (λ e s' r. tt)
                (λ a s'' r.
                  listen-Listens endpoint u s'' (ground (arith, h))
                    (ground (arith, eq_iff u.scheme "unix")))))

  -- The driver that runs: ready, with a debug server if an address for one is configured, and else
  -- the driver that it was; its socket listens.
  abbrev IsStarted : Driver → Started → n.State → Type 0
  IsStarted d started s' =
      Listens d.endpoint started.address s'
      × (started.driver ≡ record d {
        http_srv = if not (d.debug_addr == "") then true else d.http_srv;
        ready = true;
      })

  -- When the controller is started, a socket listens at the address of its endpoint, whose scheme
  -- is `unix`, and the driver is ready, has a debug server if an address for one is configured, and
  -- is otherwise the driver that it was.
  start_controller-Ensures :
      (d : Driver) (s : n.State) → Ensures (IsStarted d) (start_controller n d s)
  unfolding start_controller
  start_controller-Ensures d s =
      handle-Ensures (IsStarted d) (open_socket n d.endpoint) fail _ s (λ e s' h. tt)
        (λ a s' h. (
          ensured (Listens d.endpoint) (open_socket n d.endpoint s) a s' h
              (open_socket-Listens d.endpoint s),
          refl,
        ))

  remove_socket-ok :
      (address : String) (s : n.State) (r : Result (Unit {0})) (s' : n.State)
      → n.remove address s ≡ (r, s')
      → (r ≡ ok tt) ⊎ ((e : Error) × ((r ≡ err e) × (n.is_not_exist e ≡ true)))
      → remove_socket n address s ≡ (ok tt, s')
  unfolding remove_socket
  remove_socket-ok address s r s' h (inl o) = rw h (rw o refl)
  remove_socket-ok address s r s' h (inr (e, (o, x))) = rw h (rw o (rw x refl))

  -- A driver whose endpoint is a `unix` URL is started if its socket can be removed, or is not
  -- there, and its address can be listened at.
  start_controller-ok :
      (d : Driver) (u : Url) (s : n.State) (r : Result (Unit {0})) (s' s'' : n.State)
      → n.parse d.endpoint ≡ ok u
      → u.scheme ≡ "unix"
      → n.remove (grpc_addr u) s ≡ (r, s')
      → (r ≡ ok tt) ⊎ ((e : Error) × ((r ≡ err e) × (n.is_not_exist e ≡ true)))
      → n.listen "unix" (grpc_addr u) s' ≡ (ok tt, s'')
      → failed (start_controller n d s).0 ≡ false
  unfolding start_controller open_socket
  start_controller-ok d u s r s' s'' p x h o l =
      rw (p, x, remove_socket-ok (grpc_addr u) s r s' h o, l) refl

start_node-Ensures :
    (n : Network) (d : Driver) (s : n.State)
    → Ensures (λ started _. started.driver ≡ record d { ready = true }) (start_node n d s)
unfolding start_node
start_node-Ensures n d s =
    handle-Ensures (λ started _. started.driver ≡ record d { ready = true })
      (open_socket n d.endpoint) fail _ s (λ e s' h. tt) (λ a s' h. refl)

-- A controller that was started stays ready until its context is cancelled. With a debug address
-- its `Run` does not return before that, even if its gRPC server or its debug server has failed.
-- Where `Run` returns nil the context was cancelled, the driver is not ready any more, and its gRPC
-- server has stopped.
pub run_controller :
    (n : Network) (d : Driver) (s : n.State) (started : Started) (s' : n.State)
    → start_controller n d s ≡ (ok started, s')
    → (events : List Event) (t : Servers) → run events (servers started.driver) ≡ some t
    → (t.cancelled ≡ false → (t.ready ≡ true) × (not (d.debug_addr == "") ≡ true → wait t ≡ none))
      × (wait t ≡ some (ok tt)
          → (t.cancelled ≡ true) × ((t.ready ≡ false) × (t.stopper ≡ Stopper.stopped)))
run_controller n d s started s' h events t r =
    let (ready, ends) = run-ready started.driver events t (ap (λ (e : Driver). e.ready) made) r in
    (
      λ c. (
        ready c,
        λ b.
            debug_server_waits started.driver events t (ap (λ (e : Driver). e.ready) made)
              (ap (λ (e : Driver). e.http_srv) made ∙ rw b refl) r c,
      ),
      ends,
    )
  where
    made : started.driver ≡ record d {
      http_srv = if not (d.debug_addr == "") then true else d.http_srv;
      ready = true;
    }
    made =
        (ensured (IsStarted n d) (start_controller n d s) started s' h
          (start_controller-Ensures n d s)).1

-- The driver that NewNodeDriver makes has no debug server, whatever its debug address is: where the
-- listener of its gRPC server fails, `RunNode` returns with that error.
pub run_node :
    (n : Network) (p : NewNodeDriverParams) (s : n.State) (started : Started) (s' : n.State)
    → start_node n (new_node_driver p) s ≡ (ok started, s')
    → (events : List Event) (t u : Servers) (e : Error)
    → run events (servers started.driver) ≡ some t
    → next (accept_fails e) t ≡ some u
    → wait u ≡ some (err e)
unfolding new_node_driver
run_node n p s started s' h events t u e r f =
    failure_returned started.driver events t u e alone r f
  where
    made : started.driver ≡ record (new_node_driver p) { ready = true }
    made =
        ensured (λ started _. started.driver ≡ record (new_node_driver p) { ready = true })
          (start_node n (new_node_driver p) s) started s' h
          (start_node-Ensures n (new_node_driver p) s)

    alone : started.driver.http_srv ≡ false
    alone = ap (λ (e : Driver). e.http_srv) made
