-- ===== src/Reconciler/Phases/Keeps.antt =====
-- Properties of the record that every call keeps, with a rule for each way in which the components
-- are written.
use hypershift_lite.Prelude.{String, ◌≡◌, refl, ◌∷◌}
use hypershift_lite.Prelude.Result.{Error, Result, ok, err}
use hypershift_lite.Prelude.Action.{Action, pure, raise, continue, ◌>>=◌}
use hypershift_lite.Client.{Client, Kind, Object, Fetch, found, not_found, failed}
use hypershift_lite.Reconciler.OwnerRefs.{metadata_of}
use hypershift_lite.Reconciler.World.{World, get_required, get_optional, apply, fetched_or}
use hypershift_lite.Reconciler.Recorded.{Record, recorded, applied, got}

-- What the code relies on: a Get gives the object of the name and namespace that it was asked for.
pub record IsNamed {Env : Type 0} (k : Client Env) : Type 0 where
  pub names :
      (kind : Kind) (ns name : String) (s : k.State) (o : Object kind)
      → (k.get kind ns name s).0 ≡ found o
      → ((metadata_of kind o).namespace ≡ ns) × ((metadata_of kind o).name ≡ name)

-- An action keeps `P` of the record, whether it returns or fails.
pub record Keeps {Env : Type 0} (k : Client Env) {A : Type 0} (P : Record → Type 0)
    (m : Action (World (recorded k)) A) : Type 0 where
  pub at : (w : World (recorded k)) → P w.api.1 → P (m w).1.api.1

-- `P` lets an object be written.
pub record Free (P : Record → Type 0) (kind : Kind) (o : Object kind) : Type 0 where
  pub at :
      (t : Record)
      → P t
      → P (applied kind (metadata_of kind o).namespace (metadata_of kind o).name ∷ t)

-- `P` does not look at Get calls.
pub record Blind (P : Record → Type 0) : Type 0 where
  pub at : (t : Record) (kind : Kind) (ns name : String) → P t → P (got kind ns name ∷ t)

module _ {Env : Type 0} (k : Client Env) {A : Type 0} {P : Record → Type 0} where
  pub Keeps-pure : (a : A) → Keeps k P (pure a)
  unfolding pure
  Keeps-pure a = record { at = λ w h. h }

  pub Keeps-raise : (e : Error) → Keeps k {A = A} P (raise e)
  unfolding raise
  Keeps-raise e = record { at = λ w h. h }

module _ {Env : Type 0} (k : Client Env) {A B : Type 0} {P : Record → Type 0} where
  Keeps-continue :
      (r : Result A) (f : A → Action (World (recorded k)) B) (w : World (recorded k))
      → ((a : A) → r ≡ ok a → Keeps k P (f a))
      → P w.api.1
      → P (continue r f w).1.api.1
  Keeps-continue (ok a) f w kf h = (kf a refl).at w h
  Keeps-continue (err e) f w kf h = h

  -- The rest may use what the first action can return.
  pub Keeps-bind_of :
      (Q : A → Type 0) (m : Action (World (recorded k)) A) (f : A → Action (World (recorded k)) B)
      → Keeps k P m
      → ((w : World (recorded k)) (a : A) → (m w).0 ≡ ok a → Q a)
      → ((a : A) → Q a → Keeps k P (f a))
      → Keeps k P (m >>= f)
  unfolding ◌>>=◌
  Keeps-bind_of Q m f km q kf = record {
    at = λ w h. let (r, w') = m w in Keeps-continue r f w' (λ a e. kf a (q w a e)) (km.at w h);
  }

  pub Keeps-bind :
      (m : Action (World (recorded k)) A) (f : A → Action (World (recorded k)) B)
      → Keeps k P m
      → ((a : A) → Keeps k P (f a))
      → Keeps k P (m >>= f)
  Keeps-bind m f km kf = Keeps-bind_of (λ _. Unit {0}) m f km (λ _ _ _. tt) (λ a _. kf a)

ok_inj : {A : Type 0} (a b : A) → ok a ≡ ok b → a ≡ b
ok_inj a b e = cc

module _ {Env : Type 0} (k : Client Env) (named : IsNamed k) {P : Record → Type 0} where
  open named use {names}

  get_optional-Keeps :
      Blind P
      → (text : String) (kind : Kind) (o : Object kind)
      → Keeps k P (get_optional (recorded k) text kind o)
  unfolding get_optional
  get_optional-Keeps blind text kind o = record {
    at = λ w h. blind.at w.api.1 kind (metadata_of kind o).namespace (metadata_of kind o).name h;
  }

  get_required-Keeps :
      Blind P
      → (text : String) (kind : Kind) (o : Object kind)
      → Keeps k P (get_required (recorded k) text kind o)
  unfolding get_required
  get_required-Keeps blind text kind o = record {
    at = λ w h. blind.at w.api.1 kind (metadata_of kind o).namespace (metadata_of kind o).name h;
  }

  pub apply-Keeps :
      (text : String) (kind : Kind) (o : Object kind) (f : Env → Object kind → Result (Object kind))
      → Free P kind o
      → Keeps k P (apply (recorded k) text kind o f)
  unfolding apply
  apply-Keeps text kind o f free = record { at = λ w h. free.at w.api.1 h }

  Free-fetched :
      (text : String) (kind : Kind) (o o' : Object kind)
      → Free P kind o
      → (answer : Fetch (Object kind))
      → ((a : Object kind)
          → answer ≡ found a
          → ((metadata_of kind a).namespace ≡ (metadata_of kind o).namespace)
            × ((metadata_of kind a).name ≡ (metadata_of kind o).name))
      → fetched_or (recorded k) text o answer ≡ ok o'
      → Free P kind o'
  Free-fetched text kind o o' free (found a) same e =
      rw (← ok_inj a o' e)
        (record { at = λ t h. rw ((same a refl).0, (same a refl).1) (free.at t h) })
  Free-fetched text kind o o' free not_found same e = rw (← ok_inj o o' e) free
  Free-fetched text kind o o' free (failed x) same e = cc

  -- The object that an optional Get returns may be written if the one it was given may.
  get_optional-Free :
      (text : String) (kind : Kind) (o : Object kind)
      → Free P kind o
      → (w : World (recorded k)) (o' : Object kind)
      → (get_optional (recorded k) text kind o w).0 ≡ ok o'
      → Free P kind o'
  unfolding get_optional
  get_optional-Free text kind o free w o' e =
      Free-fetched text kind o o' free
        (k.get kind (metadata_of kind o).namespace (metadata_of kind o).name w.api.0).0
        (λ a. names kind (metadata_of kind o).namespace (metadata_of kind o).name w.api.0 a) e

  -- The two rules by which a component goes on.
  pub get_optional_then :
      {A : Type 0}
      → Blind P
      → (text : String) (kind : Kind) (o : Object kind)
        (rest : Object kind → Action (World (recorded k)) A)
      → Free P kind o
      → ((o' : Object kind) → Free P kind o' → Keeps k P (rest o'))
      → Keeps k P (get_optional (recorded k) text kind o >>= rest)
  get_optional_then blind text kind o rest free next =
      Keeps-bind_of k (Free P kind) (get_optional (recorded k) text kind o) rest
        (get_optional-Keeps blind text kind o) (λ w o' e. get_optional-Free text kind o free w o' e)
        next

  pub apply_then :
      {A : Type 0} (text : String) (kind : Kind) (o : Object kind)
      (f : Env → Object kind → Result (Object kind)) (rest : Action (World (recorded k)) A)
      → Free P kind o
      → Keeps k P rest
      → Keeps k P (apply (recorded k) text kind o f >>= λ _. rest)
  apply_then text kind o f rest free next =
      Keeps-bind k (apply (recorded k) text kind o f) (λ _. rest) (apply-Keeps text kind o f free)
        (λ _. next)

  pub get_required_then :
      {A : Type 0}
      → Blind P
      → (text : String) (kind : Kind) (o : Object kind)
        (rest : Object kind → Action (World (recorded k)) A)
      → ((o' : Object kind) → Keeps k P (rest o'))
      → Keeps k P (get_required (recorded k) text kind o >>= rest)
  get_required_then blind text kind o rest next =
      Keeps-bind k (get_required (recorded k) text kind o) rest
        (get_required-Keeps blind text kind o) next

  -- One object of a component: it is fetched if it is there, and written.
  pub ensure_then :
      {A : Type 0}
      → Blind P
      → (text text' : String) (kind : Kind) (o : Object kind)
        (f : Env → Object kind → Result (Object kind)) (rest : Action (World (recorded k)) A)
      → Free P kind o
      → Keeps k P rest
      → Keeps k P (
          get_optional (recorded k) text kind o >>= λ o'.
          apply (recorded k) text' kind o' f >>= λ _. rest)
  ensure_then blind text text' kind o f rest free next =
      get_optional_then blind text kind o (λ o'. apply (recorded k) text' kind o' f >>= λ _. rest)
        free (λ o' free'. apply_then text' kind o' f rest free' next)
