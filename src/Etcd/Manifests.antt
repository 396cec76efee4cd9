-- ===== src/Etcd/Manifests.antt =====
-- pkg/controllers/kubeservice/etcd/manifests.go: the names of the objects.
use hypershift_lite.Prelude.{String, [], none}
use hypershift_lite.Api.{Secret, ServiceAccount, Role, RoleBinding, Deployment, EtcdCluster, named}
use hypershift_lite.Api.{pod_spec}
use hypershift_lite.Pki.{named_secret}

unfoldable pub client_secret : String → Secret
client_secret ns = named_secret "etcd-client-tls" ns

unfoldable pub server_secret : String → Secret
server_secret ns = named_secret "etcd-server-tls" ns

unfoldable pub peer_secret : String → Secret
peer_secret ns = named_secret "etcd-peer-tls" ns

unfoldable pub operator_service_account : String → ServiceAccount
operator_service_account ns = record { metadata = named "etcd-operator" ns }

unfoldable pub operator_role : String → Role
operator_role ns = record { metadata = named "etcd-operator" ns; rules = [] }

unfoldable pub operator_role_binding : String → RoleBinding
operator_role_binding ns = record {
  metadata = named "etcd-operator" ns;
  role_ref = record { api_group = ""; kind = ""; name = "" };
  subjects = [];
}

-- The zero appsv1.Deployment with a name and a namespace.
abbrev pub named_deployment : String → String → Deployment
named_deployment name ns = record {
  metadata = named name ns;
  spec = record {
    replicas = none;
    match_labels = none;
    rolling_update = none;
    template_labels = none;
    template = pod_spec;
  };
  status = record { conditions = []; available_replicas = 0 };
}

unfoldable pub operator_deployment : String → Deployment
operator_deployment ns = named_deployment "etcd-operator" ns

unfoldable pub cluster : String → EtcdCluster
cluster ns = record {
  metadata = named "etcd" ns;
  spec = record { size = 0; version = ""; tls = none };
  conditions = [];
  ready = [];
}
