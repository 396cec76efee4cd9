-- ===== src/Reconciler/Phases.antt =====
-- `Reconcile` of reconciler.go: the status phases, which read the state of the components into the
-- conditions, and the phases that write the components.
pub mod Keeps
pub mod Quiet
pub mod Still
pub mod Safety
pub mod Order
pub mod Availability
pub mod Reports
use hypershift_lite.Prelude.{ℕ, String, Bool, true, false, Option, none, some, ◌&&◌, if◌then◌else◌}
use hypershift_lite.Prelude.{◌<>◌}
use hypershift_lite.Prelude.Result.{Error, Result, ok, err, wrap}
use hypershift_lite.Prelude.Action.{Action, pure, raise, ◌>>=◌, ◌>>◌}
use hypershift_lite.Api.{Platform, KubernetesService, EtcdCluster, Deployment, ConditionStatus}
use hypershift_lite.Api.{KubernetesServiceCondition, is_true, is_zero, available, etcd_available}
use hypershift_lite.Api.{kube_api_server_available, kube_controller_manager_available}
use hypershift_lite.Certs.{Crypto}
use hypershift_lite.Client.{Client, Kind, Object, Fetch, found, not_found, failed}
use hypershift_lite.Pki.{root_ca_secret, reconcile_root_ca}
use hypershift_lite.Ks.{get_condition_by_type, with_condition}
use hypershift_lite.Etcd.Manifests as Etcd
use hypershift_lite.Etcd.Status.{reconcile_etcd_cluster_status}
use hypershift_lite.Kas.Manifests as Kas
use hypershift_lite.Kas.Status.{reconcile_kube_api_server_deployment_status}
use hypershift_lite.Kcm.Manifests as Kcm
use hypershift_lite.Kcm.Status.{reconcile_kube_controller_manager_deployment_status}
use hypershift_lite.Release.Images.{ReleaseImage}
use hypershift_lite.Reconciler.OwnerRefs.{ensure_ks_owner_ref}
use hypershift_lite.Reconciler.World.{World, call, apply, get_release_image}
use hypershift_lite.Reconciler.Components.{reconcile_etcd, reconcile_kube_api_server}
use hypershift_lite.Reconciler.Components.{reconcile_kube_controller_manager}

-- ctrl.Result: `done` is the empty one, and `after` asks to be called again after some seconds.
pub data Outcome : Type 0 where
  done : Outcome
  after : ℕ → Outcome

-- A status phase ends the call, or it goes on with the service that it has changed.
pub data Phase : Type 0 where
  stop : Outcome → Phase
  go_on : KubernetesService → Phase

abbrev status_is_true : Option KubernetesServiceCondition → Bool
status_is_true none = false
status_is_true (some condition) = is_true condition.status

-- `c := ks.GetConditionByType(…); c != nil && c.Status == corev1.ConditionTrue`
unfoldable pub condition_is_true : KubernetesService → String → Bool
unfolding get_condition_by_type
condition_is_true ks t = status_is_true (get_condition_by_type ks.status.conditions t)

-- The service with its `Available` condition set by the other three.
unfoldable pub report_available : ℕ → KubernetesService → KubernetesService
unfolding condition_is_true with_condition
report_available now ks =
    if condition_is_true ks etcd_available
      && (condition_is_true ks kube_api_server_available
          && condition_is_true ks kube_controller_manager_available)
    then with_condition now available ConditionStatus.true_status "Running"
        "Kubernetes service is up and running" ks
    else with_condition now available ConditionStatus.false_status "NotAvailable"
        "Kubernetes service is not yet available" ks

-- What a Get in a status phase leads to: an error, the end of the call while the object is being
-- deleted, or the status routine with the object if there is one.
pub data Observed (A : Type 0) : Type 0 where
  broken : Error → Observed A
  deleting : Observed A
  observed : Option A → Observed A

abbrev pub observe : {A : Type 0} → String → (A → Option ℕ) → Fetch A → Observed A
observe text deleted_at (failed e) = broken (wrap text e)
observe text deleted_at not_found = observed none
observe text deleted_at (found o) = if is_zero (deleted_at o) then observed (some o) else deleting

module _ (p : Platform) (c : Crypto) (k : Client c.Env) where
  -- The routine of a phase on what was observed; the phase goes on with the service it returns.
  abbrev pub phase_of :
      {A : Type 0}
      → Observed A
      → (Option A → Action (World k) KubernetesService)
      → Action (World k) Phase
  phase_of (broken e) routine = raise e
  phase_of deleting routine = pure (stop (after 5))
  phase_of (observed o) routine = do ks ← routine o; pure (go_on ks)

  abbrev pub fetch_text : String → String → String → String
  fetch_text what ns name = "failed to fetch " <> what <> " " <> ns <> "/" <> name

  -- A Get that cannot fail by itself: what it found is looked at later.
  unfoldable pub look : (kind : Kind) → String → String → Action (World k) (Fetch (Object kind))
  look kind ns name w =
      let (answer, s) = k.get kind ns name w.api in (ok answer, record w { api = s })

  unfoldable pub etcd_phase : String → KubernetesService → Action (World k) Phase
  unfolding look reconcile_etcd_cluster_status call Etcd.cluster
  etcd_phase ns ks = do
    let m = (Etcd.cluster ns).metadata
    answer ← look Kind.etcd_cluster m.namespace m.name
    phase_of
        (observe (fetch_text "etcd cluster" m.namespace m.name)
          (λ cluster. cluster.metadata.deletion_timestamp) answer)
        (λ cluster. call k (reconcile_etcd_cluster_status k ks cluster))

  -- The error of the API server's status routine is logged and dropped.
  unfoldable pub keep_going :
      (KubernetesService × Option Error) → Action (World k) KubernetesService
  keep_going (ks, _) = pure ks

  unfoldable pub kas_phase : String → KubernetesService → Action (World k) Phase
  unfolding look reconcile_kube_api_server_deployment_status call keep_going Kas.deployment
  kas_phase ns ks = do
    let m = (Kas.deployment ns).metadata
    answer ← look Kind.deployment m.namespace m.name
    phase_of
        (observe (fetch_text "kas deployment" m.namespace m.name)
          (λ deployment. deployment.metadata.deletion_timestamp) answer)
        (λ deployment. do
          reported ← call k (λ s.
              let (r, s') = reconcile_kube_api_server_deployment_status k ks deployment s in
              (ok r, s'))
          keep_going reported)

  unfoldable pub kcm_phase : String → KubernetesService → Action (World k) Phase
  unfolding look reconcile_kube_controller_manager_deployment_status call Kcm.deployment
  kcm_phase ns ks = do
    let m = (Kcm.deployment ns).metadata
    answer ← look Kind.deployment m.namespace m.name
    phase_of
        (observe (fetch_text "kcm deployment" m.namespace m.name)
          (λ deployment. deployment.metadata.deletion_timestamp) answer)
        (λ deployment. call k (reconcile_kube_controller_manager_deployment_status k ks deployment))

  -- The service's own status.
  unfoldable pub ks_phase : KubernetesService → Action (World k) KubernetesService
  unfolding call report_available
  ks_phase ks = call k (λ s. k.update_status (report_available (k.now s) ks) s)

  unfoldable pub apply_root_ca : KubernetesService → Action (World k) (Unit {0})
  unfolding apply root_ca_secret reconcile_root_ca
  apply_root_ca ks =
      apply k "failed to reconcile root CA" Kind.secret (root_ca_secret ks.metadata.namespace)
        (λ e o. reconcile_root_ca c e (ensure_ks_owner_ref p Kind.secret ks o))

  -- The phases that write, from the service as the status phases left it.
  unfoldable pub write_kube_api_server : KubernetesService → ReleaseImage → Action (World k) Outcome
  unfolding condition_is_true reconcile_kube_api_server reconcile_kube_controller_manager
  write_kube_api_server ks release_image = do
    reconcile_kube_api_server p c k ks release_image
    if condition_is_true ks kube_api_server_available
        then (do reconcile_kube_controller_manager p c k ks release_image; pure done)
        else pure done

  unfoldable pub write_components : ℕ → String → KubernetesService → Action (World k) Outcome
  unfolding apply_root_ca reconcile_etcd get_release_image write_kube_api_server condition_is_true
  write_components polls ns ks = do
    apply_root_ca ks
    reconcile_etcd p c k ks
    if condition_is_true ks etcd_available
        then (do
          release_image ← get_release_image k p polls ns ks.spec.release_image ks.spec.pull_secret
          write_kube_api_server ks release_image)
        else pure (after 10)

  abbrev pub and_then :
      Phase → (KubernetesService → Action (World k) Outcome) → Action (World k) Outcome
  and_then (stop outcome) next = pure outcome
  and_then (go_on ks) next = next ks

  -- `Reconcile` after the service was fetched.
  unfoldable pub reconcile_service_phases :
      ℕ → String → KubernetesService → Action (World k) Outcome
  unfolding etcd_phase kas_phase kcm_phase ks_phase write_components
  reconcile_service_phases polls ns ks = do
    etcd ← etcd_phase ns ks
    and_then etcd (λ ks₁. do
      kas ← kas_phase ns ks₁
      and_then kas (λ ks₂. do
        kcm ← kcm_phase ns ks₂
        and_then kcm (λ ks₃. do ks₄ ← ks_phase ks₃; write_components polls ns ks₄)))

  abbrev pub begin : ℕ → String → Fetch KubernetesService → Action (World k) Outcome
  begin polls ns (failed e) = raise e
  begin polls ns not_found = pure done
  begin polls ns (found ks) =
      if is_zero ks.metadata.deletion_timestamp
      then reconcile_service_phases polls ns ks
      else pure done

  -- `Reconcile`. `polls` is the number of polls of a lookup pod that follow the first one.
  unfoldable pub reconcile : ℕ → String → String → Action (World k) Outcome
  unfolding reconcile_service_phases call
  reconcile polls ns name w =
      let (answer, s) = k.get_kube_service ns name w.api in
      begin polls ns answer (record w { api = s })
