-- ===== src/Tests/Command.antt =====
-- Runs of the entry point on a manager that records its calls.
use hypershift_lite.Prelude.{String, ◌≡◌, refl, List, [], ◌∷◌}
use hypershift_lite.Prelude.Result.{Result, ok, err, message}
use hypershift_lite.Reconciler.Setup.{Manager}
use hypershift_lite.Command.{Execution, main, returned, exited}

-- The calls so far, the last one first; Build answers `built`.
abbrev logging : Result (Unit {0}) → Manager
logging built = record {
  State = List String;
  Config = Unit {0};
  Client = Unit {0};
  Recorder = String;
  get_config = λ s. (ok tt, "config" ∷ s);
  new_manager = λ c s. (ok tt, "manager" ∷ s);
  client_of = λ s. tt;
  config_of = λ s. tt;
  build = λ c s. (built, "build" ∷ s);
  get_event_recorder_for = λ name s. name;
  start = λ s. (ok tt, "start" ∷ s);
}

abbrev always : List String → Execution
always args = Execution.runs

main_starts :
    main (logging (ok tt)) always [] [] ≡ (returned, "start" ∷ "build" ∷ "manager" ∷ "config" ∷ [])
unfolding main
main_starts = refl

main_stops_unbuilt :
    main (logging (err (message "taken"))) always [] []
    ≡ (exited 1, "build" ∷ "manager" ∷ "config" ∷ [])
unfolding main
main_stops_unbuilt = refl
