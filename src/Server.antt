-- ===== src/Server.antt =====
-- What starts a driver: the first half of `Run` in driver/controller.go and of `RunNode` in
-- driver/nodedriver.go, up to the goroutines, which Server/Group.antt models.
pub mod Laws
pub mod Group
pub mod Health
use package.text.Mathlib.Text.{starts_with}
use csi_thalassa.Prelude.{
  ◌≡◌, refl, String, Bool, true, false, not, List, [], ◌∷◌, ◌==◌, ◌&&◌, ◌<>◌, if◌then◌else◌,
}
use csi_thalassa.Status.{Error, plain}
use csi_thalassa.Exec.{Result, ok, err, Exec, pure, fail, lift, handle, settle, ◌>>=◌, ◌>>◌}
use csi_thalassa.Driver.{Driver}
use csi_thalassa.Node.Path.{clean_path}

-- The fields of `url.URL` that the code reads.
pub record Url : Type 0 where
  pub scheme : String
  pub host : String
  pub path : String

-- The operating system and the parser of URLs: `url.Parse`, `os.Remove`, `os.IsNotExist` and
-- `net.Listen`.
pub record Network : Type 1 where
  pub State : Type 0
  pub parse : String → Result Url
  pub remove : (path : String) → Exec State (Unit {0})
  pub is_not_exist : Error → Bool
  pub listen : (network address : String) → Exec State (Unit {0})

-- `path.Join` of two elements, the first of which is not empty
abbrev join : String → String → String
join s t = clean_path (if t == "" then s else s <> "/" <> t)

unfoldable pub grpc_addr : Url → String
unfolding clean_path
grpc_addr u = if u.host == "" then u.path else join u.host u.path

a_socket :
    grpc_addr (record { scheme = "unix"; host = "tmp"; path = "/csi//csi.sock" })
    ≡ "tmp/csi/csi.sock"
unfolding grpc_addr
a_socket = refl

-- The services that are registered with the gRPC server.
pub data Service : Type 0 where
  identity_service controller_service node_service : Service

-- What a driver runs with: its socket, its services, and the driver with `httpSrv` and `ready` set.
pub record Started : Type 0 where
  pub address : String
  pub services : List Service
  pub driver : Driver

module _ (n : Network) where
  -- The socket of an old run is removed; that there is none is no failure.
  unfoldable pub remove_socket : String → Exec n.State (Unit {0})
  remove_socket address =
      handle (n.remove address)
        (λ e.
          if not (n.is_not_exist e)
          then fail (plain "failed to remove unix domain socket file %s, error: %s")
          else pure tt)
        pure

  -- From the endpoint to the listener.
  unfoldable pub open_socket : String → Exec n.State String
  unfolding grpc_addr remove_socket
  open_socket endpoint =
      handle (lift (n.parse endpoint)) (λ e. fail (plain "unable to parse address: %q"))
        λ u.
          if not (u.scheme == "unix")
          then fail (plain "currently only unix domain sockets are supported, have: %s")
          else remove_socket (grpc_addr u)
            >> handle (n.listen u.scheme (grpc_addr u)) (λ e. fail (plain "failed to listen: %v"))
                λ _. pure (grpc_addr u)

  -- `Run`, up to its goroutines
  unfoldable pub start_controller : Driver → Exec n.State Started
  unfolding open_socket
  start_controller d = open_socket d.endpoint >>= λ address. pure (record {
    address = address;
    services = identity_service ∷ controller_service ∷ [];
    driver = record d {
      http_srv = if not (d.debug_addr == "") then true else d.http_srv;
      ready = true;
    };
  })

  -- `RunNode`, up to its goroutines
  unfoldable pub start_node : Driver → Exec n.State Started
  unfolding open_socket
  start_node d = open_socket d.endpoint >>= λ address. pure (record {
    address = address;
    services = node_service ∷ identity_service ∷ [];
    driver = record d { ready = true };
  })
