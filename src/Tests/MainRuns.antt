-- ===== src/Tests/MainRuns.antt =====
-- main.go on a library that writes down what is asked of it.
use resourcelimiter.Prelude.{String, ◌≡◌, refl, List, [], ◌∷◌}
use resourcelimiter.Controller.Exec.{failure, error, Outcome, ok, fail, handle}
use resourcelimiter.Controller.Main.{Library, default_flags, main, init}
use resourcelimiter.Tests.Watching.{lists}

-- `complete` gives what the set-up of the controller is to give.
abbrev library : Outcome (Unit {0}) → Library lists
library set_up = record {
  State = List String;
  Handle = String;
  add_client_go_to_scheme = λ done. (ok tt, "client-go" ∷ done);
  add_v1beta1_to_scheme = λ done. (ok tt, "v1beta1" ∷ done);
  add_v1beta2_to_scheme = λ done. (ok tt, "v1beta2" ∷ done);
  new_manager = λ options done. (ok options.leader_election_id, "manager" ∷ done);
  complete = λ mgr wiring done. (set_up, "controller" ∷ done);
  add_healthz_check = λ mgr name done. (ok tt, name ∷ done);
  add_readyz_check = λ mgr name done. (ok tt, name ∷ done);
  start = λ mgr done. (ok tt, "start" ∷ done);
}

-- Everything is set up before the manager starts.
main_starts :
    main (library (ok tt)) default_flags []
    ≡ (ok tt, "start" ∷ "readyz" ∷ "healthz" ∷ "controller" ∷ "manager" ∷ [])
unfolding main handle
main_starts = refl

-- It does not start without its controller.
main_stops :
    main (library (fail (error (failure "no controller")))) default_flags []
    ≡ (fail (error (failure "no controller")), "controller" ∷ "manager" ∷ [])
unfolding main handle
main_stops = refl

init_registers : init (library (ok tt)) [] ≡ (ok tt, "v1beta2" ∷ "v1beta1" ∷ "client-go" ∷ [])
unfolding handle
init_registers = refl
