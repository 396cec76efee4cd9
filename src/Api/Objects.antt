-- ===== src/Api/Objects.antt =====
-- Secrets, config maps, services, service accounts and RBAC objects.
use hypershift_lite.Prelude.{ℕ, String, List, Option}
use hypershift_lite.Prelude.Dict.{Dict}
use hypershift_lite.Api.Meta.{ObjectMeta}

abbrev pub Bytes : Type 0
Bytes = List ℕ

-- corev1.SecretType; `unset` is the empty string of a new secret.
pub data SecretType : Type 0 where
  unset opaque tls : SecretType

pub record Secret : Type 0 where
  pub metadata : ObjectMeta
  pub type : SecretType
  pub values : Option (Dict Bytes)

pub record ConfigMap : Type 0 where
  pub metadata : ObjectMeta
  pub values : Option (Dict String)

pub record ServicePort : Type 0 where
  pub name : String
  pub port : ℕ
  pub target_port : ℕ

pub data ServiceType : Type 0 where
  unset cluster_ip other : ServiceType

pub record ServiceSpec : Type 0 where
  pub ports : List ServicePort
  pub selector : Option (Dict String)
  pub type : ServiceType

pub record Service : Type 0 where
  pub metadata : ObjectMeta
  pub spec : ServiceSpec

pub record ServiceAccount : Type 0 where
  pub metadata : ObjectMeta

pub record PolicyRule : Type 0 where
  pub api_groups : List String
  pub resources : List String
  pub verbs : List String

pub record Role : Type 0 where
  pub metadata : ObjectMeta
  pub rules : List PolicyRule

pub record RoleRef : Type 0 where
  pub api_group : String
  pub kind : String
  pub name : String

pub record Subject : Type 0 where
  pub kind : String
  pub api_group : String
  pub name : String
  pub namespace : String

pub record RoleBinding : Type 0 where
  pub metadata : ObjectMeta
  pub role_ref : RoleRef
  pub subjects : List Subject
