-- ===== src/Controller/Main.antt =====
-- main.go: the controller manager is made, set up and started. Logging is left out, and the flags are
-- arguments. An error ends the program with the exit code 1.
use resourcelimiter.Prelude.{String, ℕ, Bool, false}
use resourcelimiter.Controller.Exec.{Exec, handle, panic, pure, ◌>>=◌, ◌>>◌}
use resourcelimiter.Controller.Manager.{Runtime, Wiring, setup_with_manager}

-- `ctrl.Options`, as far as it is filled in.
pub record Options : Type 0 where
  pub metrics_bind_address : String
  pub port : ℕ
  pub health_probe_bind_address : String
  pub leader_election : Bool
  pub leader_election_id : String

-- The calls of controller-runtime and of the scheme.
pub record Library (R : Runtime) : Type 1 where
  pub State : Type 0
  pub Handle : Type 0
  pub add_client_go_to_scheme : Exec State (Unit {0})
  pub add_v1beta1_to_scheme : Exec State (Unit {0})
  pub add_v1beta2_to_scheme : Exec State (Unit {0})
  pub new_manager : Options → Exec State Handle
  pub complete : Handle → Wiring R → Exec State (Unit {0})
  pub add_healthz_check : Handle → String → Exec State (Unit {0})
  pub add_readyz_check : Handle → String → Exec State (Unit {0})
  pub start : Handle → Exec State (Unit {0})

pub record Flags : Type 0 where
  pub metrics_addr : String
  pub probe_addr : String
  pub enable_leader_election : Bool

abbrev pub default_flags : Flags
default_flags = record {
  metrics_addr = ":8080";
  probe_addr = ":8081";
  enable_leader_election = false;
}

module _ {R : Runtime} (L : Library R) where
  open L use {State}

  -- `utilruntime.Must`
  abbrev pub must : Exec State (Unit {0}) → Exec State (Unit {0})
  must m = handle m pure (λ e. panic)

  abbrev pub init : Exec State (Unit {0})
  init = do
    must L.add_client_go_to_scheme
    must L.add_v1beta1_to_scheme
    must L.add_v1beta2_to_scheme

  abbrev pub options_of : Flags → Options
  options_of flags = record {
    metrics_bind_address = flags.metrics_addr;
    port = 9443;
    health_probe_bind_address = flags.probe_addr;
    leader_election = flags.enable_leader_election;
    leader_election_id = "a35675f9.resourcelimiter.io";
  }

  unfoldable pub main : Flags → Exec State (Unit {0})
  main flags = do
    mgr ← L.new_manager (options_of flags)
    L.complete mgr (setup_with_manager R)
    L.add_healthz_check mgr "healthz"
    L.add_readyz_check mgr "readyz"
    L.start mgr
