-- ===== src/Client.antt =====
-- The client of controller-runtime as the controllers use it: a parameter. `State` is the cluster
-- with whatever else acts on it, and any call may change it.
use hypershift_lite.Prelude.{ℕ, String, List, Bool}
use hypershift_lite.Prelude.Result.{Error, Result}
use hypershift_lite.Api.{Secret, ConfigMap, Service, ServiceAccount, Role, RoleBinding, Deployment}
use hypershift_lite.Api.{EtcdCluster, KubernetesService, Pod}

pub data Kind : Type 0 where
  secret config_map service service_account role role_binding deployment etcd_cluster : Kind

abbrev pub Object : Kind → Type 0
Object Kind.secret = Secret
Object Kind.config_map = ConfigMap
Object Kind.service = Service
Object Kind.service_account = ServiceAccount
Object Kind.role = Role
Object Kind.role_binding = RoleBinding
Object Kind.deployment = Deployment
Object Kind.etcd_cluster = EtcdCluster

-- What a Get gives: `not_found` is the error for which apierrors.IsNotFound holds.
pub data Fetch (A : Type 0) : Type 0 where
  found : A → Fetch A
  not_found : Fetch A
  failed : Error → Fetch A

pub record Client (Env : Type 0) : Type 1 where
  pub State : Type 0
  -- time.Now
  pub now : State → ℕ
  -- Get of a namespace and a name
  pub get : (k : Kind) → String → String → State → Fetch (Object k) × State
  pub get_kube_service : String → String → State → Fetch KubernetesService × State
  -- Status().Update, which overwrites its argument with the server's answer
  pub update_status : KubernetesService → State → Result KubernetesService × State
  pub delete_cluster : EtcdCluster → State → Result (Unit {0}) × State
  -- List of the pods with a label, in every namespace
  pub list_pods : String → String → State → Result (List Pod) × State
  -- controllerutil.CreateOrUpdate: it fetches the object, or starts from the one that is given if
  -- there is none, runs the function on it and writes the result
  pub create_or_update :
      (k : Kind)
      → Object k
      → (Env → Object k → Result (Object k))
      → State
      → Result (Unit {0}) × State
  -- kubernetes.NewForConfig
  pub new_kube_client : State → Result (Unit {0}) × State
  -- Pods(namespace).Create, Delete, Get and the reading of the logs. Delete is also told whether the
  -- context of the call is done.
  pub create_pod : String → Pod → State → Result Pod × State
  pub delete_pod : Bool → String → String → State → Result (Unit {0}) × State
  pub get_pod : String → String → State → Result Pod × State
  pub pod_logs : String → String → State → Result (List ℕ) × State
