-- ===== src/Api/Externals.antt =====
-- The pure functions of the Go standard library and of third-party libraries that the controllers
-- call. They are parameters: no body is given, and a theorem names what it needs of them.
use hypershift_lite.Prelude.{ℕ, String, Option}
use hypershift_lite.Prelude.Result.{Result}
use hypershift_lite.Api.Objects.{Bytes}
use hypershift_lite.Api.Images.{ImageStream, Semver, Text}
use hypershift_lite.Api.Config.{KubeApiServerConfig, KubeControllerManagerConfig, KubeConfig}

pub record Platform : Type 0 where
  -- path.Join of two elements
  pub path_join : String → String → String
  -- `%d`
  pub decimal : ℕ → String
  -- the network address of net.ParseCIDR
  pub parse_cidr : String → Result Bytes
  -- net.ParseIP
  pub parse_ip : String → Bytes
  -- the group of schema.ParseGroupVersion; `none` is its error
  pub parse_group : String → Option String
  -- json.Marshal
  pub marshal_api_server : KubeApiServerConfig → Result String
  pub marshal_controller_manager : KubeControllerManagerConfig → Result String
  -- clientcmd.Write
  pub write_kubeconfig : KubeConfig → Result Bytes
  -- json.Unmarshal
  pub parse_image_stream : Bytes → Result ImageStream
  -- semver.Parse and semver.Version.String
  pub parse_semver : Text → Result Semver
  pub semver_string : Semver → Text
  -- kcpv1.GroupVersion.String() and the API groups of client packages
  pub kcp_group_version : String
  pub etcd_group : String
  pub core_group : String
  pub apps_group : String
  pub rbac_group : String
