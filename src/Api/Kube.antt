-- ===== src/Api/Kube.antt =====
-- pkg/api/v1alpha1: the KubernetesService resource.
use hypershift_lite.Prelude.{ℕ, String, List}
use hypershift_lite.Api.Meta.{ObjectMeta}
use hypershift_lite.Api.Pods.{ConditionStatus}

-- The constants of `ConditionType`, which is a string.
abbrev pub available : String
available = "Available"

abbrev pub etcd_available : String
etcd_available = "EtcdAvailable"

abbrev pub kube_api_server_available : String
kube_api_server_available = "KubeAPIServerAvailable"

abbrev pub kube_controller_manager_available : String
kube_controller_manager_available = "KubeControllerManagerAvailable"

pub record KubernetesServiceCondition : Type 0 where
  pub type : String
  pub status : ConditionStatus
  pub last_transition_time : ℕ
  pub reason : String
  pub message : String

pub record KubernetesServiceSpec : Type 0 where
  pub release_image : String
  pub pull_secret : String

pub record KubernetesServiceStatus : Type 0 where
  pub conditions : List KubernetesServiceCondition

pub record KubernetesService : Type 0 where
  pub metadata : ObjectMeta
  pub spec : KubernetesServiceSpec
  pub status : KubernetesServiceStatus

-- GroupVersion.String() of groupversion_info.go
abbrev pub group_version : String
group_version = "hypershiftlite.openshift.io/v1alpha1"
