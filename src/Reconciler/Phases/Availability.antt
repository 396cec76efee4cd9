-- ===== src/Reconciler/Phases/Availability.antt =====
-- The `Available` condition of `Reconcile`.
use hypershift_lite.Prelude.{ℕ, String, ◌≡◌, refl, Option, none, some, ◌&&◌, Bool-cases, inl, inr}
use hypershift_lite.Prelude.{ap, eq_refl}
use hypershift_lite.Api.{ConditionStatus, KubernetesServiceCondition, is_true}
use hypershift_lite.Api.{KubernetesService, available, etcd_available}
use hypershift_lite.Api.{kube_api_server_available, kube_controller_manager_available}
use hypershift_lite.Ks.{get_condition_by_type, updated_condition, with_condition}
use hypershift_lite.Ks.Laws as Ks
use hypershift_lite.Reconciler.Phases.{report_available, condition_is_true}

is_true_updated :
    (now : ℕ) (t : String) (status : ConditionStatus) (reason text : String)
    (old : Option KubernetesServiceCondition)
    → (updated_condition now t status reason text old).status ≡ status
unfolding updated_condition
is_true_updated now t status reason text none = refl
is_true_updated now t status reason text (some v) = refl

-- A condition that was set is true if it was set to true.
pub condition_is_true-with_condition :
    (now : ℕ) (t : String) (status : ConditionStatus) (reason text : String)
    (ks : KubernetesService)
    → condition_is_true (with_condition now t status reason text ks) t ≡ is_true status
unfolding with_condition condition_is_true
condition_is_true-with_condition now t status reason text ks =
    rw
      (
        condition_is_true,
        Ks.get-set_updated now t status reason text ks.status.conditions t,
        eq_refl t,
      )
      (ap is_true
        (is_true_updated now t status reason text (get_condition_by_type ks.status.conditions t)))

-- The `Available` condition is reported as true exactly while the conditions of etcd, the API server
-- and the controller manager are.
pub report_available-condition :
    (now : ℕ) (ks : KubernetesService)
    → condition_is_true (report_available now ks) available ≡ (
        condition_is_true ks etcd_available
        && (condition_is_true ks kube_api_server_available
            && condition_is_true ks kube_controller_manager_available))
unfolding report_available
report_available-condition now ks =
    elim (Bool-cases (
      condition_is_true ks etcd_available
      && (condition_is_true ks kube_api_server_available
          && condition_is_true ks kube_controller_manager_available))) [
            | inl up ↦
                rw (report_available, up)
                  (condition_is_true-with_condition now available ConditionStatus.true_status
                    "Running" "Kubernetes service is up and running" ks)
            | inr down ↦
                rw (report_available, down)
                  (condition_is_true-with_condition now available ConditionStatus.false_status
                    "NotAvailable" "Kubernetes service is not yet available" ks)
          ]
