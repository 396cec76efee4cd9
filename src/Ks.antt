-- ===== src/Ks.antt =====
-- pkg/controllers/kubeservice/ks/status.go: the conditions of a KubernetesService. A pointer into
-- the slice is read as the first condition of its type; a write through it changes that one.
pub mod Laws
use hypershift_lite.Prelude.{
  ℕ, String, Bool, true, false, List, [], ◌∷◌, ◌++◌, Option, none, some, ◌==◌, if◌then◌else◌,
}
use hypershift_lite.Api.{ConditionStatus, KubernetesServiceCondition, Deployment}
use hypershift_lite.Api.{DeploymentCondition, KubernetesService}

abbrev pub Conditions : Type 0
Conditions = List KubernetesServiceCondition

unfoldable pub get_condition_by_type : Conditions → String → Option KubernetesServiceCondition
get_condition_by_type [] t = none
get_condition_by_type (v ∷ rest) t = if v.type == t then some v else get_condition_by_type rest t

-- A write through the pointer that `get_condition_by_type` returns.
unfoldable pub write_condition : Conditions → String → KubernetesServiceCondition → Conditions
write_condition [] t c = []
write_condition (v ∷ rest) t c = if v.type == t then c ∷ rest else v ∷ write_condition rest t c

-- `existingCondition.Status != status`
unfoldable pub same_status : ConditionStatus → ConditionStatus → Bool
same_status ConditionStatus.true_status ConditionStatus.true_status = true
same_status ConditionStatus.false_status ConditionStatus.false_status = true
same_status ConditionStatus.unknown ConditionStatus.unknown = true
same_status _ _ = false

module _ (now : ℕ) (t : String) (status : ConditionStatus) (reason message : String) where
  -- The fields of an existing condition after the call, or of a new one.
  unfoldable pub updated_condition : Option KubernetesServiceCondition → KubernetesServiceCondition
  unfolding same_status
  updated_condition none = record {
    type = t;
    status = status;
    last_transition_time = now;
    reason = reason;
    message = message;
  }
  updated_condition (some existing) = record existing {
    last_transition_time =
        if same_status existing.status status then existing.last_transition_time else now;
    status = status;
    reason = reason;
    message = message;
  }

  unfoldable pub set_condition_by_type : Conditions → Conditions
  unfolding get_condition_by_type write_condition updated_condition
  set_condition_by_type conditions = elim (get_condition_by_type conditions t) [
    | none ↦ conditions ++ (updated_condition none ∷ [])
    | some existing ↦ write_condition conditions t (updated_condition (some existing))
  ]

abbrev pub deployment_condition : List DeploymentCondition → String → Option DeploymentCondition
deployment_condition [] t = none
deployment_condition (c ∷ rest) t = if c.type == t then some c else deployment_condition rest t

unfoldable pub deployment_condition_by_type : Deployment → String → Option DeploymentCondition
deployment_condition_by_type deployment t = deployment_condition deployment.status.conditions t

-- `kubeSvc` with a condition set, as every status routine sets it.
unfoldable pub with_condition :
    ℕ → String → ConditionStatus → String → String → KubernetesService → KubernetesService
unfolding set_condition_by_type
with_condition now t status reason text ks = record ks {
  status = record {
    conditions = set_condition_by_type now t status reason text ks.status.conditions;
  };
}
