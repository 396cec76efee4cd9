-- ===== src/Reconciler/Phases/Reports.antt =====
-- The conditions that report the two deployments.
use mathlib.Core.Path.{subst}
use hypershift_lite.Prelude.{
  ℕ, String, ◌<◌, ◌≡◌, ◌≢◌, ◌∙◌, refl, sym, ap, true, List, [], ◌∷◌, some, Bool-cases, Option-cases,
  inl, inr, ◌==◌, eq_refl, eq_iff, arith, ltb,
}
use hypershift_lite.Api.{
  KubernetesService, Deployment, DeploymentCondition, ConditionStatus, kube_api_server_available,
  kube_controller_manager_available, is_true,
}
use hypershift_lite.Ks.{deployment_condition, deployment_condition_by_type}
use hypershift_lite.Kas.Status as Kas
use hypershift_lite.Kas.Status.{deployment_is_available, is_available}
use hypershift_lite.Kcm.Status as Kcm
use hypershift_lite.Prelude.{and_true}
use hypershift_lite.Reconciler.Phases.{condition_is_true}
use hypershift_lite.Reconciler.Phases.Availability.{condition_is_true-with_condition}

-- The first condition of a type among those of a deployment.
pub data IsFirst (t : String) (c : DeploymentCondition) : List DeploymentCondition → Type 0 where
  here : {rest : List DeploymentCondition} → c.type ≡ t → IsFirst t c (c ∷ rest)
  there :
      {other : DeploymentCondition} {rest : List DeploymentCondition}
      → other.type ≢ t
      → IsFirst t c rest
      → IsFirst t c (other ∷ rest)

-- The first condition `Available` of a deployment is true, and a replica is available.
pub record IsUp (d : Deployment) : Type 0 where
  pub condition : DeploymentCondition
  pub is_first : IsFirst "Available" condition d.status.conditions
  pub is_true : condition.status ≡ ConditionStatus.true_status
  pub replicas : 0 < d.status.available_replicas

first_found :
    (t : String) (c : DeploymentCondition) (cs : List DeploymentCondition)
    → IsFirst t c cs
    → deployment_condition cs t ≡ some c
first_found t c [] h = elim h [ ]
first_found t c (_ ∷ rest) (here e) = rw (e, eq_refl t) refl
first_found t c (other ∷ rest) (there ne later) = elim (Bool-cases (other.type == t)) [
  | inl same ↦ absurd (ne ((eq_iff other.type t).0 same))
  | inr e ↦ rw (e) (first_found t c rest later)
]

found-IsFirst :
    (t : String) (c : DeploymentCondition) (cs : List DeploymentCondition)
    → deployment_condition cs t ≡ some c
    → IsFirst t c cs
found-IsFirst t c [] h = cc
found-IsFirst t c (other ∷ rest) h = elim (Bool-cases (other.type == t)) [
  | inl same ↦
      let e : some other ≡ some c = rw (same) at h in
      let it : other ≡ c = cc in
      subst (λ x. IsFirst t c (x ∷ rest)) (sym it)
        (here (ap (λ (x : DeploymentCondition). x.type) (sym it) ∙ (eq_iff other.type t).0 same))
  | inr e ↦
      there (λ same. cc (rw ((eq_iff other.type t).1 same) at e))
        (found-IsFirst t c rest (rw (e) at h))
]

is_true_sound : (s : ConditionStatus) → is_true s ≡ true → s ≡ ConditionStatus.true_status
is_true_sound ConditionStatus.true_status h = refl
is_true_sound ConditionStatus.false_status h = cc
is_true_sound ConditionStatus.unknown h = cc

available-IsUp : (d : Deployment) → deployment_is_available d ≡ true → IsUp d
unfolding deployment_is_available deployment_condition_by_type
available-IsUp d h =
    let (ready, replicas) =
      and_true (is_available (deployment_condition d.status.conditions "Available"))
        (ltb 0 d.status.available_replicas) h in
    elim (Option-cases (deployment_condition d.status.conditions "Available")) [
      | inl e ↦ cc (rw (e) at ready)
      | inr (c, e) ↦ record {
        condition = c;
        is_first = found-IsFirst "Available" c d.status.conditions e;
        is_true = is_true_sound c.status (rw (e) at ready);
        replicas = ground (arith, replicas);
      }
    ]

IsUp-available : (d : Deployment) → IsUp d → deployment_is_available d ≡ true
unfolding deployment_is_available deployment_condition_by_type
IsUp-available d h =
    rw (first_found "Available" h.condition d.status.conditions h.is_first, h.is_true)
      (ground (arith, h.replicas))

reports_of :
    (ks : KubernetesService) (t : String) (d : Deployment)
    → condition_is_true ks t ≡ deployment_is_available d
    → (condition_is_true ks t ≡ true → IsUp d) × (IsUp d → condition_is_true ks t ≡ true)
reports_of ks t d e = (λ h. available-IsUp d (sym e ∙ h), λ up. e ∙ IsUp-available d up)

kas_reported :
    (now : ℕ) (d : Deployment) (ks : KubernetesService)
    → condition_is_true (Kas.report now d ks) kube_api_server_available ≡ deployment_is_available d
unfolding Kas.report
kas_reported now d ks = elim (Bool-cases (deployment_is_available d)) [
  | inl up ↦
      rw (Kas.report, up)
        (condition_is_true-with_condition now kube_api_server_available ConditionStatus.true_status
          _ _ ks)
  | inr down ↦
      rw (Kas.report, down)
        (condition_is_true-with_condition now kube_api_server_available ConditionStatus.false_status
          _ _ ks)
]

kcm_reported :
    (now : ℕ) (d : Deployment) (ks : KubernetesService)
    → condition_is_true (Kcm.report now d ks) kube_controller_manager_available
      ≡ deployment_is_available d
unfolding Kcm.report
kcm_reported now d ks = elim (Bool-cases (deployment_is_available d)) [
  | inl up ↦
      rw (Kcm.report, up)
        (condition_is_true-with_condition now kube_controller_manager_available
          ConditionStatus.true_status _ _ ks)
  | inr down ↦
      rw (Kcm.report, down)
        (condition_is_true-with_condition now kube_controller_manager_available
          ConditionStatus.false_status _ _ ks)
]

-- The condition of the API server is reported as true exactly if the first condition `Available` of
-- its deployment is true and at least one replica is available, and the condition of the
-- controller manager likewise.
pub report-condition :
    (now : ℕ) (d : Deployment) (ks : KubernetesService)
    → let kas = condition_is_true (Kas.report now d ks) kube_api_server_available in
      let kcm = condition_is_true (Kcm.report now d ks) kube_controller_manager_available in
      ((kas ≡ true → IsUp d) × (IsUp d → kas ≡ true))
      × ((kcm ≡ true → IsUp d) × (IsUp d → kcm ≡ true))
report-condition now d ks = (
  reports_of (Kas.report now d ks) kube_api_server_available d (kas_reported now d ks),
  reports_of (Kcm.report now d ks) kube_controller_manager_available d (kcm_reported now d ks),
)
