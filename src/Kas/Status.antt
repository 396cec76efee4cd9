-- ===== src/Kas/Status.antt =====
-- pkg/controllers/kubeservice/kas/status.go: the condition that reports the API server.
use hypershift_lite.Prelude.{ℕ, Bool, false, Option, none, some, ◌&&◌, ltb, if◌then◌else◌}
use hypershift_lite.Prelude.Result.{Error, ok, err}
use hypershift_lite.Api.{KubernetesService, Deployment, DeploymentCondition, ConditionStatus}
use hypershift_lite.Api.{is_true, kube_api_server_available}
use hypershift_lite.Client.{Client}
use hypershift_lite.Ks.{with_condition, deployment_condition_by_type}

abbrev pub is_available : Option DeploymentCondition → Bool
is_available none = false
is_available (some condition) = is_true condition.status

-- Whether a deployment counts as available.
unfoldable pub deployment_is_available : Deployment → Bool
unfolding deployment_condition_by_type
deployment_is_available deployment =
    is_available (deployment_condition_by_type deployment "Available")
    && ltb 0 deployment.status.available_replicas

-- The service with the condition that the deployment calls for.
unfoldable pub report : ℕ → Deployment → KubernetesService → KubernetesService
unfolding deployment_is_available with_condition
report now deployment ks =
    if deployment_is_available deployment
    then with_condition now kube_api_server_available ConditionStatus.true_status "KASRunning"
        "Kube APIServer is running and available" ks
    else with_condition now kube_api_server_available ConditionStatus.false_status "KASScalingUp"
        "Kube APIServer is not yet ready" ks

module _ {Env : Type 0} (k : Client Env) where
  open k use {State}

  -- The service stays changed in memory when its update fails, and the caller goes on with it.
  unfoldable pub reconcile_kube_api_server_deployment_status :
      KubernetesService → Option Deployment → State → (KubernetesService × Option Error) × State
  unfolding report
  reconcile_kube_api_server_deployment_status ks none s = ((ks, none), s)
  reconcile_kube_api_server_deployment_status ks (some deployment) s =
      let reported = report (k.now s) deployment ks in
      let (updated, s') = k.update_status reported s in
      elim updated [ ok ks' ↦ ((ks', none), s') | err e ↦ ((reported, some e), s') ]
