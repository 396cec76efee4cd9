-- ===== src/Reconciler/Plan/Reconciled.antt =====
-- Every run of `Reconcile` of pkg/controllers/kubeservice/reconciler.go follows the plan.
use mathlib.Core.Path.{subst}
use hypershift_lite.Prelude.{ℕ, String, ◌≡◌, refl, List, [], ◌∷◌, ◌++◌, inl, inr, Bool-cases}
use hypershift_lite.Prelude.Result.{Error, Result, ok, err}
use hypershift_lite.Prelude.Action.{Action, pure, raise, continue, ◌>>=◌}
use hypershift_lite.Api.{Platform, KubernetesService, etcd_available, kube_api_server_available}
use hypershift_lite.Api.{is_zero}
use hypershift_lite.Certs.{Crypto}
use hypershift_lite.Client.{Client, Kind, Fetch, found, not_found, failed}
use hypershift_lite.Pki.{root_ca_secret}
use hypershift_lite.Release.Images.{ReleaseImage}
use hypershift_lite.Reconciler.World.{World, get_release_image}
use hypershift_lite.Reconciler.Recorded.{Event, Record, recorded, applied, status_updated}
use hypershift_lite.Reconciler.Recorded.{made_client, created_pod, deleted_pod, got_pod, read_logs}
use hypershift_lite.Reconciler.Recorded.{got, got_service, deleted_cluster, listed_pods}
use hypershift_lite.Reconciler.Components.{
  reconcile_etcd, reconcile_kube_api_server, reconcile_kube_controller_manager,
}
use hypershift_lite.Reconciler.Phases.{condition_is_true, Phase, Outcome, done, after, stop, go_on}
use hypershift_lite.Reconciler.Phases.{ks_phase, apply_root_ca}
use hypershift_lite.Reconciler.Phases.{write_kube_api_server, write_components, and_then, begin}
use hypershift_lite.Reconciler.Phases.{reconcile_service_phases, reconcile}
use hypershift_lite.Reconciler.Phases.Keeps.{IsNamed}
use hypershift_lite.Reconciler.Phases.Quiet.{IsQuiet, IsLookup, Looked, begun, one, same}
use hypershift_lite.Reconciler.Phases.Quiet as Quiet
use hypershift_lite.Reconciler.Phases.Still.{Still, image-Keeps, etcd_phase-Keeps, kas_phase-Keeps}
use hypershift_lite.Reconciler.Phases.Still.{kcm_phase-Keeps, call-Keeps}
use hypershift_lite.Reconciler.Plan.{Write, writes, Completes, Follows, Begun, Ended, root_ca_plan}
use hypershift_lite.Reconciler.Plan.{etcd_plan, kas_plan, kcm_plan, plan}
use hypershift_lite.Reconciler.Plan.Rules.{
  Completes-none, Follows-bind, Follows-pure, Begun-none, Begun-longer,
}
use hypershift_lite.Reconciler.Plan.Objects.{apply-Completes}
use hypershift_lite.Reconciler.Plan.Followed.{etcd-Completes, kas-Completes, kcm-Completes}

writes-Still : (ws : List Write) → Still (λ r. writes r ≡ ws)
writes-Still ws = record { at = step }
  where
    step : (e : Event) (r : Record) → IsQuiet e → writes r ≡ ws → writes (e ∷ r) ≡ ws
    step (got _ _ _) r q h = h
    step (got_service _ _) r q h = h
    step (status_updated _) r q h = h
    step (deleted_cluster _ _) r q h = h
    step (listed_pods _ _) r q h = h
    step (applied _ _ _) r q h = absurd q
    step made_client r q h = h
    step (created_pod _) r q h = h
    step (deleted_pod _ _) r q h = h
    step (got_pod _ _) r q h = h
    step (read_logs _ _) r q h = h

IsLookup-IsQuiet : (e : Event) → IsLookup e → IsQuiet e
IsLookup-IsQuiet (got _ _ _) q = tt
IsLookup-IsQuiet (got_service _ _) q = tt
IsLookup-IsQuiet (status_updated _) q = tt
IsLookup-IsQuiet (deleted_cluster _ _) q = tt
IsLookup-IsQuiet (listed_pods _ _) q = tt
IsLookup-IsQuiet (applied _ _ _) q = q
IsLookup-IsQuiet made_client q = tt
IsLookup-IsQuiet (created_pod _) q = tt
IsLookup-IsQuiet (deleted_pod _ _) q = tt
IsLookup-IsQuiet (got_pod _ _) q = tt
IsLookup-IsQuiet (read_logs _ _) q = tt

writes-Looked : (ws : List Write) (q r : Record) → Looked q r → writes q ≡ ws → writes r ≡ ws
writes-Looked ws q r begun h = h
writes-Looked ws q r (Quiet.after {r = s} e looked rest) h =
    (writes-Still ws).at e s (IsLookup-IsQuiet e looked) (writes-Looked ws q s rest h)

module _ (p : Platform) (c : Crypto) (k : Client c.Env) (named : IsNamed k)
    (ks : KubernetesService) where
  root_ca-Completes :
      Completes k (root_ca_plan ks.metadata.namespace) (apply_root_ca p c (recorded k) ks)
  unfolding apply_root_ca root_ca_secret
  root_ca-Completes =
      apply-Completes k named "failed to reconcile root CA" Kind.secret ks.metadata.namespace
        "root-ca" (root_ca_secret ks.metadata.namespace) _
        (record { namespace = refl; object_name = refl })

  kas-Follows :
      (image : ReleaseImage)
      → Follows k
          (kas_plan ks.metadata.namespace ++ kcm_plan ks.metadata.namespace)
          (write_kube_api_server p c (recorded k) ks image)
  unfolding write_kube_api_server
  kas-Follows image =
      Follows-bind k (kas_plan ks.metadata.namespace) (kcm_plan ks.metadata.namespace) _ _
        (kas-Completes p c k named ks image)
        λ _. elim (Bool-cases (condition_is_true ks kube_api_server_available)) [
          | inl up ↦ rw up (
              Follows-bind k (kcm_plan ks.metadata.namespace) [] _ _
                (kcm-Completes p c k named ks image) (λ _. Follows-pure k [] done))
          | inr down ↦ rw down (Follows-pure k (kcm_plan ks.metadata.namespace) done)
        ]

  components-Follows :
      (polls : ℕ) (ns : String)
      → Follows k (plan ks.metadata.namespace) (write_components p c (recorded k) polls ns ks)
  unfolding write_components
  components-Follows polls ns =
      let left = kas_plan ks.metadata.namespace ++ kcm_plan ks.metadata.namespace in
      Follows-bind k (root_ca_plan ks.metadata.namespace) (etcd_plan ks.metadata.namespace ++ left)
        _ _ root_ca-Completes
        λ _.
          Follows-bind k (etcd_plan ks.metadata.namespace) left _ _ (etcd-Completes p c k named ks)
            λ _. elim (Bool-cases (condition_is_true ks etcd_available)) [
              | inl up ↦ rw up (
                  Follows-bind k [] left
                    (get_release_image (recorded k) p polls ns ks.spec.release_image
                      ks.spec.pull_secret)
                    _
                    (Completes-none k _ (λ ws.
                      image-Keeps k p (writes-Looked ws) polls ns ks.spec.release_image
                        ks.spec.pull_secret))
                    (λ image. kas-Follows image))
              | inr down ↦ rw down (Follows-pure k left (after 10))
            ]

-- The plan of some namespace is followed.
record FollowsSome {Env : Type 0} (k : Client Env) {A : Type 0} (m : Action (World (recorded k)) A)
    : Type 0 where
  at :
      (w : World (recorded k))
      → (ns : String) × Begun (plan ns) (writes w.api.1) (writes (m w).1.api.1)

module _ {Env : Type 0} (k : Client Env) {A B : Type 0} where
  FollowsSome-continue :
      (r : Result A) (f : A → Action (World (recorded k)) B) (w : World (recorded k))
      (before : List Write)
      → Ended [] r before (writes w.api.1)
      → ((a : A) → FollowsSome k (f a))
      → (ns : String) × Begun (plan ns) before (writes (continue r f w).1.api.1)
  FollowsSome-continue (ok a) f w before h next =
      let (ns, b) = (next a).at w in
      (ns, subst (λ ws. Begun (plan ns) ws (writes (f a w).1.api.1)) h b)
  FollowsSome-continue (err e) f w before h next = ("", Begun-longer [] (plan "") before _ h)

  FollowsSome-bind :
      (m : Action (World (recorded k)) A) (f : A → Action (World (recorded k)) B)
      → Completes k [] m
      → ((a : A) → FollowsSome k (f a))
      → FollowsSome k (m >>= f)
  unfolding ◌>>=◌
  FollowsSome-bind m f first next = record {
    at = λ w. FollowsSome-continue (m w).0 f (m w).1 (writes w.api.1) (first.at w) next;
  }

module _ {Env : Type 0} (k : Client Env) {A : Type 0} where
  FollowsSome-pure : (a : A) → FollowsSome k (pure a)
  unfolding pure
  FollowsSome-pure a = record { at = λ w. ("", Begun-none (plan "") (writes w.api.1)) }

  FollowsSome-raise : (e : Error) → FollowsSome k {A = A} (raise e)
  unfolding raise
  FollowsSome-raise e = record { at = λ w. ("", Begun-none (plan "") (writes w.api.1)) }

module _ (p : Platform) (c : Crypto) (k : Client c.Env) (named : IsNamed k) where
  ks_phase-Completes : (ks : KubernetesService) → Completes k [] (ks_phase p c (recorded k) ks)
  unfolding ks_phase
  ks_phase-Completes ks =
      Completes-none k _
        (λ ws. call-Keeps p c k (writes-Still ws) _ (λ s. one (status_updated _) tt same))

  components-FollowsSome :
      (polls : ℕ) (ns : String) (ks : KubernetesService)
      → FollowsSome k (write_components p c (recorded k) polls ns ks)
  components-FollowsSome polls ns ks = record {
    at = λ w. (ks.metadata.namespace, (components-Follows p c k named ks polls ns).at w);
  }

  and_then-FollowsSome :
      (phase : Phase) (next : KubernetesService → Action (World (recorded k)) Outcome)
      → ((ks : KubernetesService) → FollowsSome k (next ks))
      → FollowsSome k (and_then p c (recorded k) phase next)
  and_then-FollowsSome (stop outcome) next follow = FollowsSome-pure k outcome
  and_then-FollowsSome (go_on ks) next follow = follow ks

  phases-FollowsSome :
      (polls : ℕ) (ns : String) (ks : KubernetesService)
      → FollowsSome k (reconcile_service_phases p c (recorded k) polls ns ks)
  unfolding reconcile_service_phases
  phases-FollowsSome polls ns ks =
      FollowsSome-bind k _ _
        (Completes-none k _ (λ ws. etcd_phase-Keeps p c k (writes-Still ws) ns ks))
        λ etcd. and_then-FollowsSome etcd _ λ ks₁.
          FollowsSome-bind k _ _
            (Completes-none k _ (λ ws. kas_phase-Keeps p c k (writes-Still ws) ns ks₁))
            λ kas. and_then-FollowsSome kas _ λ ks₂.
              FollowsSome-bind k _ _
                (Completes-none k _ (λ ws. kcm_phase-Keeps p c k (writes-Still ws) ns ks₂))
                λ kcm. and_then-FollowsSome kcm _ λ ks₃.
                  FollowsSome-bind k _ _ (ks_phase-Completes ks₃) (components-FollowsSome polls ns)

  begin-FollowsSome :
      (polls : ℕ) (ns : String) (answer : Fetch KubernetesService)
      → FollowsSome k (begin p c (recorded k) polls ns answer)
  begin-FollowsSome polls ns (failed e) = FollowsSome-raise k e
  begin-FollowsSome polls ns not_found = FollowsSome-pure k done
  begin-FollowsSome polls ns (found ks) =
      elim (Bool-cases (is_zero ks.metadata.deletion_timestamp)) [
        | inl live ↦ rw live (phases-FollowsSome polls ns ks)
        | inr gone ↦ rw gone (FollowsSome-pure k done)
      ]

  -- Every run of Reconcile, whatever the server answers and whether the run fails, adds to the
  -- writes of the record an initial segment of the plan: the root CA, then the objects of etcd, of
  -- the API server and of the controller manager in a fixed order, each once and all in one
  -- namespace. This is provided that a Get gives an object of the name that it was asked for.
  pub reconcile-plan :
      (polls : ℕ) (ns name : String) (w : World (recorded k))
      → (namespace : String) × Begun
          (plan namespace)
          (writes w.api.1)
          (writes (reconcile p c (recorded k) polls ns name w).1.api.1)
  unfolding reconcile
  reconcile-plan polls ns name w =
      (begin-FollowsSome polls ns ((recorded k).get_kube_service ns name w.api).0).at _

  -- A run of reconcileEtcd that succeeds writes all objects of etcd in the order of the plan, and
  -- one that fails writes an initial segment of them; and so for reconcileKubeAPIServer and
  -- reconcileKubeControllerManager with their objects. This is provided that a Get gives an object
  -- of the name that it was asked for.
  pub components-Completes :
      (ks : KubernetesService) (image : ReleaseImage)
      → Completes k (etcd_plan ks.metadata.namespace) (reconcile_etcd p c (recorded k) ks)
        × Completes k
            (kas_plan ks.metadata.namespace)
            (reconcile_kube_api_server p c (recorded k) ks image)
        × Completes k
            (kcm_plan ks.metadata.namespace)
            (reconcile_kube_controller_manager p c (recorded k) ks image)
  components-Completes ks image = (
    etcd-Completes p c k named ks,
    kas-Completes p c k named ks image,
    kcm-Completes p c k named ks image,
  )
