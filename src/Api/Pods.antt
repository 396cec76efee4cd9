-- ===== src/Api/Pods.antt =====
-- Pod templates, deployments and pods.
use hypershift_lite.Prelude.{ℕ, String, Bool, List, [], Option, none}
use hypershift_lite.Prelude.Dict.{Dict}
use hypershift_lite.Api.Meta.{ObjectMeta}

pub data ConditionStatus : Type 0 where
  true_status false_status unknown : ConditionStatus

abbrev pub is_true : ConditionStatus → Bool
is_true ConditionStatus.true_status = Bool.true
is_true _ = Bool.false

-- An environment variable with a value, or with a field of the pod.
pub data EnvVar : Type 0 where
  value field_ref : String → String → EnvVar

pub record VolumeMount : Type 0 where
  pub name : String
  pub mount_path : String

-- What a volume shows: nothing at first, a secret, or a config map.
pub data VolumeSource : Type 0 where
  empty_dir : VolumeSource
  secret config_map : String → VolumeSource

pub record Volume : Type 0 where
  pub name : String
  pub source : VolumeSource

-- An HTTPS probe: corev1.Probe with an HTTPGet handler of scheme HTTPS.
pub record Probe : Type 0 where
  pub initial_delay_seconds : ℕ
  pub timeout_seconds : ℕ
  pub path : String
  pub port : ℕ

pub record Container : Type 0 where
  pub name : String
  pub image : String
  pub command : List String
  pub args : List String
  pub working_dir : String
  pub env : List EnvVar
  pub liveness : Option Probe
  pub readiness : Option Probe
  pub volume_mounts : List VolumeMount

-- The zero value of corev1.Container, but for its name and image.
abbrev pub container : String → String → Container
container name image = record {
  name = name;
  image = image;
  command = [];
  args = [];
  working_dir = "";
  env = [];
  liveness = none;
  readiness = none;
  volume_mounts = [];
}

pub data RestartPolicy : Type 0 where
  unset never : RestartPolicy

pub record PodSpec : Type 0 where
  pub restart_policy : RestartPolicy
  pub service_account_name : String
  pub automount_token : Option Bool
  pub image_pull_secrets : List String
  pub init_containers : List Container
  pub containers : List Container
  pub volumes : List Volume

abbrev pub pod_spec : PodSpec
pod_spec = record {
  restart_policy = RestartPolicy.unset;
  service_account_name = "";
  automount_token = none;
  image_pull_secrets = [];
  init_containers = [];
  containers = [];
  volumes = [];
}

pub record RollingUpdate : Type 0 where
  pub max_surge : ℕ
  pub max_unavailable : ℕ

pub record DeploymentSpec : Type 0 where
  pub replicas : Option ℕ
  pub match_labels : Option (Dict String)
  pub rolling_update : Option RollingUpdate
  pub template_labels : Option (Dict String)
  pub template : PodSpec

pub record DeploymentCondition : Type 0 where
  pub type : String
  pub status : ConditionStatus

pub record DeploymentStatus : Type 0 where
  pub conditions : List DeploymentCondition
  pub available_replicas : ℕ

pub record Deployment : Type 0 where
  pub metadata : ObjectMeta
  pub spec : DeploymentSpec
  pub status : DeploymentStatus

pub data PodPhase : Type 0 where
  pending running succeeded failed unknown : PodPhase

-- A pod of a list, with whether each container has terminated.
pub record Pod : Type 0 where
  pub metadata : ObjectMeta
  pub spec : PodSpec
  pub phase : PodPhase
  pub terminated : List Bool
