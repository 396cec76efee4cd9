-- ===== src/Command.antt =====
-- cmd/hypershift-lite/main.go: the program's entry point. Cobra and the manager of controller-runtime
-- are parameters.
use hypershift_lite.Prelude.{ℕ, String, List}
use hypershift_lite.Prelude.Result.{Error, ok, err}
use hypershift_lite.Reconciler.Setup.{Manager, Fields, set_up_with_manager}
use hypershift_lite.Prelude.{none}

-- Go's main returns, or the program ends by os.Exit.
pub data Outcome : Type 0 where
  returned : Outcome
  exited : ℕ → Outcome

-- What cobra does with the arguments of a command: it calls Run, it prints a help text, or it returns
-- an error.
pub data Execution : Type 0 where
  runs helps : Execution
  refuses : Error → Execution

module _ (mgr : Manager) where
  -- The client is a part of the manager, which is there once it is made.
  abbrev reconciler_of : mgr.State → Fields mgr
  reconciler_of s = record {
    client = mgr.client_of s;
    config = mgr.config_of s;
    recorder = none;
    release_info_cache = none;
  }

  unfoldable pub started : mgr.State → Outcome × mgr.State
  started s =
      let (answer, s') = mgr.start s in
      elim answer [ ok _ ↦ (returned, s') | err _ ↦ (exited 1, s') ]

  unfoldable pub created : mgr.State → Outcome × mgr.State
  unfolding started set_up_with_manager
  created s =
      let ((answer, _), s') = set_up_with_manager mgr (reconciler_of s) s in
      elim answer [ ok _ ↦ started s' | err _ ↦ (exited 1, s') ]

  unfoldable pub run_hypershift_lite : mgr.State → Outcome × mgr.State
  unfolding created
  run_hypershift_lite s =
      let (config, s₁) = mgr.get_config s in
      elim config [
        | err _ ↦ (exited 1, s₁)
        | ok c ↦
            let (made, s₂) = mgr.new_manager c s₁ in
            elim made [ ok _ ↦ created s₂ | err _ ↦ (exited 1, s₂) ]
      ]

  -- main; `parse` stands for cobra.
  unfoldable pub main : (List String → Execution) → List String → mgr.State → Outcome × mgr.State
  unfolding run_hypershift_lite
  main parse args s = elim (parse args) [
    | runs ↦ run_hypershift_lite s
    | helps ↦ (returned, s)
    | refuses _ ↦ (exited 1, s)
  ]
