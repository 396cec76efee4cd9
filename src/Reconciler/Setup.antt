-- ===== src/Reconciler/Setup.antt =====
-- `SetupWithManager` of pkg/controllers/kubeservice/reconciler.go. The manager of controller-runtime
-- is a parameter.
use hypershift_lite.Prelude.{ℕ, String, List, [], ◌∷◌, Option, some}
use hypershift_lite.Prelude.Dict.{Dict}
use hypershift_lite.Prelude.Result.{Result, ok, err, wrap}
use hypershift_lite.Release.Images.{ReleaseImage}

pub data Resource : Type 0 where
  kubernetes_service etcd_cluster deployment : Resource

-- A Watches call whose handler is EnqueueRequestForOwner.
pub record Watch : Type 0 where
  pub source : Resource
  pub owner_type : Resource

-- What the builder is given. The delays of the rate limiter are in nanoseconds.
pub record Controller : Type 0 where
  pub resource : Resource
  pub base_delay : ℕ
  pub max_delay : ℕ
  pub watches : List Watch

-- `State` is the manager with the cluster behind it.
pub record Manager : Type 1 where
  pub State : Type 0
  pub Config : Type 0
  pub Client : Type 0
  pub Recorder : Type 0
  -- ctrl.GetConfigOrDie, which ends the program on an error
  pub get_config : State → Result Config × State
  -- ctrl.NewManager with the scheme
  pub new_manager : Config → State → Result (Unit {0}) × State
  pub client_of : State → Client
  pub config_of : State → Config
  -- Build of a controller
  pub build : Controller → State → Result (Unit {0}) × State
  pub get_event_recorder_for : String → State → Recorder
  -- Start, which returns when the process is to end
  pub start : State → Result (Unit {0}) × State

module _ (mgr : Manager) where
  -- The fields of the reconciler: its recorder and its cache are nil until it is set up.
  pub record Fields : Type 0 where
    pub client : mgr.Client
    pub config : mgr.Config
    pub recorder : Option mgr.Recorder
    pub release_info_cache : Option (Dict ReleaseImage)

abbrev pub second : ℕ
second = 1000000000

abbrev pub kube_service_controller : Controller
kube_service_controller = record {
  resource = Resource.kubernetes_service;
  base_delay = second;
  max_delay = 10000000000;
  watches =
      record { source = Resource.etcd_cluster; owner_type = Resource.kubernetes_service }
      ∷ record { source = Resource.deployment; owner_type = Resource.kubernetes_service }
      ∷ [];
}

module _ (mgr : Manager) where
  -- The result, and the reconciler afterwards.
  unfoldable pub set_up_with_manager :
      Fields mgr → mgr.State → (Result (Unit {0}) × Fields mgr) × mgr.State
  set_up_with_manager r s =
      let (built, s') = mgr.build kube_service_controller s in
      elim built [
        | err e ↦ ((err (wrap "failed setting up with a controller manager" e), r), s')
        | ok _ ↦ (
          (
            ok tt,
            record r {
              recorder = some (mgr.get_event_recorder_for "kube-apiserver-controller" s');
              release_info_cache = some [];
            },
          ),
          s',
        )
      ]
