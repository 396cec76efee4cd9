-- ===== src/Kcm/Status.antt =====
-- pkg/controllers/kubeservice/kcm/status.go: the condition that reports the controller
-- manager.
use hypershift_lite.Prelude.{ℕ, Option, none, some, if◌then◌else◌}
use hypershift_lite.Prelude.Result.{ok}
use hypershift_lite.Api.{KubernetesService, Deployment, ConditionStatus}
use hypershift_lite.Api.{kube_controller_manager_available}
use hypershift_lite.Prelude.Action.{Action}
use hypershift_lite.Client.{Client}
use hypershift_lite.Kas.Status.{deployment_is_available}
use hypershift_lite.Ks.{with_condition}

-- The service with the condition that the deployment calls for.
unfoldable pub report : ℕ → Deployment → KubernetesService → KubernetesService
unfolding deployment_is_available with_condition
report now deployment ks =
    if deployment_is_available deployment
    then with_condition now kube_controller_manager_available ConditionStatus.true_status
        "KCMRunning" "Kube controller manager is running and available" ks
    else with_condition now kube_controller_manager_available ConditionStatus.false_status
        "KCMScalingUp" "Kube controller manager is not yet ready" ks

module _ {Env : Type 0} (k : Client Env) where
  open k use {State}

  unfoldable pub reconcile_kube_controller_manager_deployment_status :
      KubernetesService → Option Deployment → Action State KubernetesService
  unfolding report
  reconcile_kube_controller_manager_deployment_status ks none s = (ok ks, s)
  reconcile_kube_controller_manager_deployment_status ks (some deployment) s =
      k.update_status (report (k.now s) deployment ks) s
