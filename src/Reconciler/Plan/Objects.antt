-- ===== src/Reconciler/Plan/Objects.antt =====
-- The steps of a component: an object is fetched, and written under the name of the plan.
use hypershift_lite.Prelude.{String, ◌≡◌, refl, sym, ap, ◌∙◌, List, [], ◌∷◌}
use hypershift_lite.Prelude.Result.{Result, ok, err}
use hypershift_lite.Prelude.Action.{Action, ◌>>=◌}
use hypershift_lite.Client.{Client, Kind, Object, Fetch, found, not_found, failed}
use hypershift_lite.Reconciler.OwnerRefs.{metadata_of}
use hypershift_lite.Reconciler.World.{World, get_required, get_optional, apply, fetched_or}
use hypershift_lite.Reconciler.Recorded.{recorded}
use hypershift_lite.Reconciler.Plan.{Write, writes, Completes, Ended}
use hypershift_lite.Reconciler.Plan.Rules.{Completes-bind_of, Completes-none}
use hypershift_lite.Reconciler.Phases.Keeps.{IsNamed}

-- The object has this namespace and this name.
pub record At (kind : Kind) (ns name : String) (o : Object kind) : Type 0 where
  pub namespace : (metadata_of kind o).namespace ≡ ns
  pub object_name : (metadata_of kind o).name ≡ name

module _ {Env : Type 0} (k : Client Env) (named : IsNamed k) where
  fetched-At :
      (text : String) (kind : Kind) (ns name : String) (o o' : Object kind)
      → At kind ns name o
      → (answer : Fetch (Object kind))
      → ((a : Object kind)
          → answer ≡ found a
          → ((metadata_of kind a).namespace ≡ (metadata_of kind o).namespace)
            × ((metadata_of kind a).name ≡ (metadata_of kind o).name))
      → fetched_or (recorded k) text o answer ≡ ok o'
      → At kind ns name o'
  fetched-At text kind ns name o o' here (found a) same e =
      let this : a ≡ o' = cc in
      record {
        namespace =
            ap (λ b. (metadata_of kind b).namespace) (sym this)
            ∙ ((same a refl).0 ∙ here.namespace);
        object_name =
            ap (λ b. (metadata_of kind b).name) (sym this) ∙ ((same a refl).1 ∙ here.object_name);
      }
  fetched-At text kind ns name o o' here not_found same e =
      let this : o ≡ o' = cc in
      record {
        namespace = ap (λ b. (metadata_of kind b).namespace) (sym this) ∙ here.namespace;
        object_name = ap (λ b. (metadata_of kind b).name) (sym this) ∙ here.object_name;
      }
  fetched-At text kind ns name o o' here (failed x) same e = cc

  get_optional-At :
      (text : String) (kind : Kind) (ns name : String) (o : Object kind)
      → At kind ns name o
      → (w : World (recorded k)) (o' : Object kind)
      → (get_optional (recorded k) text kind o w).0 ≡ ok o'
      → At kind ns name o'
  unfolding get_optional
  get_optional-At text kind ns name o here w o' e =
      fetched-At text kind ns name o o' here
        (k.get kind (metadata_of kind o).namespace (metadata_of kind o).name w.api.0).0
        (λ a. named.names kind (metadata_of kind o).namespace (metadata_of kind o).name w.api.0 a) e

  get_optional-Completes :
      (text : String) (kind : Kind) (o : Object kind)
      → Completes k [] (get_optional (recorded k) text kind o)
  unfolding get_optional
  get_optional-Completes text kind o = Completes-none k _ (λ ws. record { at = λ w h. h })

  get_required-Completes :
      (text : String) (kind : Kind) (o : Object kind)
      → Completes k [] (get_required (recorded k) text kind o)
  unfolding get_required
  get_required-Completes text kind o = Completes-none k _ (λ ws. record { at = λ w h. h })

  -- A CreateOrUpdate is logged whether it fails or not.
  pub apply-Completes :
      (text : String) (kind : Kind) (ns name : String) (o : Object kind)
      (f : Env → Object kind → Result (Object kind))
      → At kind ns name o
      → Completes k ((kind, ns, name) ∷ []) (apply (recorded k) text kind o f)
  unfolding apply
  apply-Completes text kind ns name o f here = record { at = λ w. logged_once _ (writes w.api.1) }
    where
      logged_once :
          (r : Result (Unit {0})) (before : List Write)
          → Ended
              ((kind, ns, name) ∷ [])
              r
              before
              ((kind, (metadata_of kind o).namespace, (metadata_of kind o).name) ∷ before)
      logged_once (ok a) before = rw (here.namespace, here.object_name) refl
      logged_once (err e) before = record {
        made = (kind, ns, name) ∷ [];
        left = [];
        split = refl;
        done = rw (here.namespace, here.object_name) refl;
      }

  module _ {A : Type 0} (plan : List Write) where
    -- The object that comes back has the name and namespace of the one that was given.
    pub fetch_then :
        (text : String) (kind : Kind) (o : Object kind)
        (rest : Object kind → Action (World (recorded k)) A)
        → ((o' : Object kind)
            → At kind (metadata_of kind o).namespace (metadata_of kind o).name o'
            → Completes k plan (rest o'))
        → Completes k plan (get_optional (recorded k) text kind o >>= rest)
    fetch_then text kind o rest next =
        Completes-bind_of k [] plan
          (At kind (metadata_of kind o).namespace (metadata_of kind o).name)
          (get_optional (recorded k) text kind o) rest (get_optional-Completes text kind o)
          (λ w o' e.
            get_optional-At text kind _ _ o (record { namespace = refl; object_name = refl }) w o'
              e)
          next

    pub require_then :
        (text : String) (kind : Kind) (o : Object kind)
        (rest : Object kind → Action (World (recorded k)) A)
        → ((o' : Object kind) → Completes k plan (rest o'))
        → Completes k plan (get_required (recorded k) text kind o >>= rest)
    require_then text kind o rest next =
        Completes-bind_of k [] plan (λ _. Unit {0}) (get_required (recorded k) text kind o) rest
          (get_required-Completes text kind o) (λ w o' e. tt) (λ o' _. next o')

    pub write_then :
        (text : String) (kind : Kind) (ns name : String) (o : Object kind)
        (f : Env → Object kind → Result (Object kind)) (rest : Action (World (recorded k)) A)
        → (metadata_of kind o).namespace ≡ ns
        → (metadata_of kind o).name ≡ name
        → Completes k plan rest
        → Completes k ((kind, ns, name) ∷ plan) (apply (recorded k) text kind o f >>= λ _. rest)
    write_then text kind ns name o f rest same_ns same_name next =
        Completes-bind_of k ((kind, ns, name) ∷ []) plan (λ _. Unit {0})
          (apply (recorded k) text kind o f) (λ _. rest)
          (apply-Completes text kind ns name o f
            (record { namespace = same_ns; object_name = same_name }))
          (λ w o' e. tt) (λ _ _. next)

    -- The same, of an object that was fetched.
    pub write_fetched_then :
        (text : String) (kind : Kind) (ns name : String) (o : Object kind)
        (f : Env → Object kind → Result (Object kind)) (rest : Action (World (recorded k)) A)
        → At kind ns name o
        → Completes k plan rest
        → Completes k ((kind, ns, name) ∷ plan) (apply (recorded k) text kind o f >>= λ _. rest)
    write_fetched_then text kind ns name o f rest here next =
        write_then text kind ns name o f rest here.namespace here.object_name next

    -- One object of a component: it is fetched if it is there, and written.
    pub ensure_then :
        (text text' : String) (kind : Kind) (ns name : String) (o : Object kind)
        (f : Env → Object kind → Result (Object kind)) (rest : Action (World (recorded k)) A)
        → (metadata_of kind o).namespace ≡ ns
        → (metadata_of kind o).name ≡ name
        → Completes k plan rest
        → Completes k ((kind, ns, name) ∷ plan) (
            get_optional (recorded k) text kind o >>= λ o'.
            apply (recorded k) text' kind o' f >>= λ _. rest)
    ensure_then text text' kind ns name o f rest same_ns same_name next =
        Completes-bind_of k [] ((kind, ns, name) ∷ plan) (At kind ns name)
          (get_optional (recorded k) text kind o)
          (λ o'. apply (recorded k) text' kind o' f >>= λ _. rest)
          (get_optional-Completes text kind o)
          (λ w o' e.
            get_optional-At text kind ns name o
              (record { namespace = same_ns; object_name = same_name }) w o' e)
          (λ o' here'. write_fetched_then text' kind ns name o' f rest here' next)
