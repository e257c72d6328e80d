-- ===== src/Tests/Server.antt =====
-- Runs of the servers and of the program, and the applications of their theorems.
use csi_thalassa.Prelude.{
  String, ◌≡◌, refl, ◌⊎◌, true, false, not, any, List, [], ◌∷◌, none, some, ◌==◌, if◌then◌else◌,
}
use csi_thalassa.Status.{Error, plain}
use csi_thalassa.Exec.{Result, ok, err}
use csi_thalassa.Exec.Keeps.{Keeps}
use csi_thalassa.Driver.{Driver}
use csi_thalassa.Config.{NewNodeDriverParams, new_node_driver}
use csi_thalassa.Server.{
  Network, Started, identity_service, controller_service, node_service, start_controller,
  start_node,
}
use csi_thalassa.Server.Laws.{run_controller, run_node}
use csi_thalassa.Server.Group.{
  waiting, working, ended, Stopper, asleep, stopped, Servers, Event, cancel, serve, accept_fails,
  serve_returns, lower_ready, stop_gracefully, drained, servers, next, run, wait,
  err_server_stopped,
}
use csi_thalassa.Server.Group.Invariant.{quiet_run}
use csi_thalassa.Server.Group.Liveness.{Inevitable, HasReturned, cancelled-Inevitable}
use csi_thalassa.CommandLine.{Viper, Program, plugin}
use csi_thalassa.CommandLine.Laws.{IsBare, plugin-Keeps}
use csi_thalassa.Tests.World.{driver}

-- There is no old socket, and every address can be listened at.
abbrev network : Network
network = record {
  State = List String;
  parse = λ endpoint. ok (record { scheme = "unix"; host = ""; path = "/csi.sock" });
  remove = λ path s. (err (plain "no such file or directory"), s);
  is_not_exist = λ e. true;
  listen = λ n address s. (ok tt, address ∷ s);
}

abbrev debugged : Driver
debugged = record driver { debug_addr = ":8080" }

abbrev started : Started
started = record {
  address = "/csi.sock";
  services = identity_service ∷ controller_service ∷ [];
  driver = record debugged { http_srv = true; ready = true };
}

starts : start_controller network debugged [] ≡ (ok started, "/csi.sock" ∷ [])
unfolding start_controller
starts = refl

abbrev accept_error : Error
accept_error = plain "accept unix: use of closed network connection"

-- The gRPC server of the controller has failed.
abbrev failed : Servers
failed = record {
  cancelled = false;
  ready = true;
  shutdown = waiting;
  http = working;
  serve = ended;
  stopper = asleep;
  first_error = some accept_error;
}

fails : run (serve ∷ accept_fails accept_error ∷ []) (servers started.driver) ≡ some failed
unfolding run servers
fails = refl

run_controller_example :
    (failed.cancelled ≡ false
      → (failed.ready ≡ true) × (not (debugged.debug_addr == "") ≡ true → wait failed ≡ none))
    × (wait failed ≡ some (ok tt)
        → (failed.cancelled ≡ true) × ((failed.ready ≡ false) × (failed.stopper ≡ stopped)))
run_controller_example =
    run_controller network debugged [] started ("/csi.sock" ∷ []) starts
      (serve ∷ accept_fails accept_error ∷ []) failed fails

cancelled-Inevitable_example : Inevitable HasReturned (record failed { cancelled = true })
cancelled-Inevitable_example = cancelled-Inevitable (record failed { cancelled = true }) refl

abbrev node_params : NewNodeDriverParams
node_params = record {
  csi_endpoint = "unix:///csi.sock";
  driver_name = "";
  debug_addr = ":8080";
  validate_attachment = false;
  volume_limit = 20;
  node_id = "node-1";
  region = "nl-1";
  vpc = "";
  project = "";
  cluster = "";
  custom_labels = "";
  custom_annotations = "";
}

abbrev node_started : Started
node_started = record {
  address = "/csi.sock";
  services = node_service ∷ identity_service ∷ [];
  driver = record (new_node_driver node_params) { ready = true };
}

node_starts :
    start_node network (new_node_driver node_params) [] ≡ (ok node_started, "/csi.sock" ∷ [])
unfolding start_node new_node_driver
node_starts = refl

abbrev serving : Servers
serving = record {
  cancelled = false;
  ready = true;
  shutdown = ended;
  http = ended;
  serve = working;
  stopper = asleep;
  first_error = none;
}

node_serves : run (serve ∷ []) (servers node_started.driver) ≡ some serving
unfolding run servers new_node_driver
node_serves = refl

node_fails :
    next (accept_fails accept_error) serving
    ≡ some (record serving { serve = ended; first_error = some accept_error })
unfolding next
node_fails = refl

run_node_example :
    wait (record serving { serve = ended; first_error = some accept_error })
    ≡ some (err accept_error)
run_node_example =
    run_node network node_params [] node_started ("/csi.sock" ∷ []) node_starts (serve ∷ []) serving
      (record serving { serve = ended; first_error = some accept_error }) accept_error node_serves
      node_fails

abbrev clean_exit : List Event
clean_exit = serve ∷ cancel ∷ lower_ready ∷ stop_gracefully ∷ drained ∷ serve_returns ∷ []

abbrev exited : Servers
exited = record {
  cancelled = true;
  ready = false;
  shutdown = ended;
  http = ended;
  serve = ended;
  stopper = stopped;
  first_error = none;
}

exits : run clean_exit (servers node_started.driver) ≡ some exited
unfolding run servers new_node_driver
exits = refl

returns : wait exited ≡ some (ok tt)
unfolding wait
returns = refl

-- The context is cancelled before the gRPC server serves.
an_early_stop :
    run (cancel ∷ lower_ready ∷ stop_gracefully ∷ serve ∷ []) (servers node_started.driver)
    ≡ some (record exited { stopper = Stopper.draining; first_error = some err_server_stopped })
unfolding run servers new_node_driver
an_early_stop = refl

quiet_run_example :
    (◌≡◌ {A = Result (Unit {0})} (ok tt) (ok tt))
    ⊎ (◌≡◌ {A = Result (Unit {0})} (ok tt) (err err_server_stopped))
quiet_run_example =
    quiet_run node_started.driver clean_exit exited (ok tt)
      (refl, (refl, (refl, (refl, (refl, (refl, tt)))))) exits returns

-- A program that writes down the Kubernetes configurations of the drivers that it runs.
abbrev program : Program
program = record {
  State = List String;
  version = "v1";
  new_client = λ options. ok tt;
  new_iaas = ok tt;
  run = λ d s. (ok tt, d.kube_config ∷ s);
  run_node = λ d s. (ok tt, d.kube_config ∷ s);
}

abbrev NoKubeConfig : List String → Type 0
NoKubeConfig s = any (λ k. not (k == "")) s ≡ false

bare-NoKubeConfig : (d : Driver) → IsBare d → Keeps NoKubeConfig (program.run d)
bare-NoKubeConfig d bare s k = rw bare.1.1 k

abbrev viper : Viper
viper = record {
  get_string = λ key.
      if key == "mode"
      then "controller"
      else if key == "kube-config"
      then "/etc/kubeconfig"
      else "";
  get_bool = λ key. false;
  get_uint = λ key. 20;
}

plugin-Keeps_example : Keeps NoKubeConfig (plugin program viper)
plugin-Keeps_example = plugin-Keeps program NoKubeConfig bare-NoKubeConfig bare-NoKubeConfig viper
