-- ===== src/Reconciler/Mounts.antt =====
-- The arguments in the pod of the controller manager.
use hypershift_lite.Prelude.{ℕ, String, ◌<>◌, ◌≡◌, refl, List, [], ◌∷◌, ◌++◌, get_elem?, some}
use hypershift_lite.Api.{Deployment, Container, Platform, PodSpec}
use hypershift_lite.Kcm.Deployment.{reconcile_deployment, kcm_args}

-- The arguments of a pod's containers.
abbrev pub flags : PodSpec → List String
flags pod = concat pod.containers
  where
    concat : List Container → List String
    concat [] = []
    concat (c ∷ rest) = c.args ++ concat rest

-- The arguments of the controller manager's container give the pod CIDR of the call as the range of
-- services, and its service CIDR as the range of pods.
pub controller_manager-cidrs :
    (p : Platform) (d : Deployment) (pod_cidr service_cidr kube : String) (replicas : ℕ)
    → let args =
        flags (reconcile_deployment p d pod_cidr service_cidr kube replicas).spec.template in
      (get_elem? args 6 ≡ some ("--cluster-cidr=" <> service_cidr))
      × (get_elem? args 24 ≡ some ("--service-cluster-ip-range=" <> pod_cidr))
unfolding reconcile_deployment kcm_args
controller_manager-cidrs p d pod_cidr service_cidr kube replicas = (refl, refl)
