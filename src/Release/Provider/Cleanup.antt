-- ===== src/Release/Provider/Cleanup.antt =====
-- The look-up pod: it is deleted whatever became of it.
use hypershift_lite.Prelude.{ℕ, String, ◌≡◌, refl, [], ◌∷◌, Option, none, inl, inr}
use hypershift_lite.Prelude.Result.{Result, ok, err, Result-cases}
use hypershift_lite.Api.{Pod, Platform}
use hypershift_lite.Client.{Client}
use hypershift_lite.Release.Provider.{lookup_pod, lookup}
use hypershift_lite.Reconciler.Recorded.{Event, Record, recorded, created_pod, deleted_pod}

-- The last events of a look-up, for the answer to the creation of its pod.
abbrev pub last_event : String → Result Pod → Event
last_event ns (ok pod) = deleted_pod ns pod.metadata.name
last_event ns (err _) = created_pod ns

abbrev pub newest : Record → Option Event
newest [] = none
newest (e ∷ _) = Option.some e

module _ {Env : Type 0} (k : Client Env) (p : Platform) where
  -- Whatever a look-up returns, its last call is the Delete of the pod that it created, whatever comes
  -- of that call, or it is the creation of the pod if that failed.
  pub lookup-last_event :
      (polls : ℕ) (ns image secret : String) (s : k.State) (done : Record)
      → newest (lookup (recorded k) p polls ns image secret (s, done)).1.1
        ≡ Option.some (last_event ns (k.create_pod ns (lookup_pod image secret) s).0)
  unfolding lookup
  lookup-last_event polls ns image secret s done =
      elim (Result-cases (k.create_pod ns (lookup_pod image secret) s).0) [
        | inl (pod, made) ↦ rw (lookup, made) refl
        | inr (e, failed) ↦ rw (lookup, failed) refl
      ]
