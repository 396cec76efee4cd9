-- ===== src/Api/Etcd.antt =====
-- The types of the etcd operator's API (thirdparty/etcd/v1beta2), with the fields that the
-- controllers use.
use hypershift_lite.Prelude.{ℕ, String, List, Option}
use hypershift_lite.Api.Meta.{ObjectMeta}
use hypershift_lite.Api.Pods.{ConditionStatus}

pub record MemberSecret : Type 0 where
  pub peer_secret : String
  pub server_secret : String

pub record StaticTls : Type 0 where
  pub member : Option MemberSecret
  pub operator_secret : String

pub record ClusterSpec : Type 0 where
  pub size : ℕ
  pub version : String
  pub tls : Option StaticTls

pub record ClusterCondition : Type 0 where
  pub type : String
  pub status : ConditionStatus

pub record EtcdCluster : Type 0 where
  pub metadata : ObjectMeta
  pub spec : ClusterSpec
  pub conditions : List ClusterCondition
  pub ready : List String
