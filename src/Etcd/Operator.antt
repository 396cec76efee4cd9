-- ===== src/Etcd/Operator.antt =====
-- The etcd operator and the cluster resource of pkg/controllers/kubeservice/etcd/reconcile.go. These
-- functions return no error.
use hypershift_lite.Prelude.{ℕ, String, [], ◌∷◌, none, some}
use hypershift_lite.Prelude.Dict.{Dict}
use hypershift_lite.Api.{Role, RoleBinding, Deployment, EtcdCluster, Platform, EnvVar, container}
use hypershift_lite.Api.{pod_spec}
use hypershift_lite.Etcd.Manifests.{operator_service_account, peer_secret, server_secret}
use hypershift_lite.Etcd.Manifests.{client_secret}

abbrev operator_labels : Dict String
operator_labels = ("name", "etcd-operator") ∷ []

module _ (p : Platform) where
  unfoldable pub reconcile_operator_role : Role → Role
  reconcile_operator_role role = record role {
    rules =
        record {
          api_groups = p.etcd_group ∷ [];
          resources = "etcdclusters" ∷ "etcdbackups" ∷ "etcdrestores" ∷ [];
          verbs = "*" ∷ [];
        }
        ∷ record {
          api_groups = p.core_group ∷ [];
          resources = "pods" ∷ "services" ∷ "endpoints" ∷ "persistentvolumeclaims" ∷ "events" ∷ [];
          verbs = "*" ∷ [];
        }
        ∷ record {
          api_groups = p.apps_group ∷ [];
          resources = "deployments" ∷ [];
          verbs = "*" ∷ [];
        }
        ∷ record { api_groups = p.core_group ∷ []; resources = "secrets" ∷ []; verbs = "get" ∷ [] }
        ∷ [];
  }

  unfoldable pub reconcile_operator_role_binding : RoleBinding → RoleBinding
  unfolding operator_service_account
  reconcile_operator_role_binding role_binding =
      let service_account = operator_service_account role_binding.metadata.namespace in
      record role_binding {
        role_ref = record { api_group = p.rbac_group; kind = "Role"; name = "etcd-operator" };
        subjects =
            record {
              kind = "ServiceAccount";
              api_group = p.core_group;
              name = service_account.metadata.name;
              namespace = service_account.metadata.namespace;
            }
            ∷ [];
      }

unfoldable pub reconcile_operator_deployment : String → Deployment → Deployment
unfolding operator_service_account
reconcile_operator_deployment operator_image deployment =
    let service_account = operator_service_account deployment.metadata.namespace in
    record deployment {
      spec = record {
        replicas = some 1;
        match_labels = some operator_labels;
        rolling_update = none;
        template_labels = some operator_labels;
        template = record pod_spec {
          service_account_name = service_account.metadata.name;
          containers =
              record (container "etcd-operator" operator_image) {
                command = "etcd-operator" ∷ [];
                args = "-create-crd=false" ∷ [];
                env =
                    EnvVar.field_ref "MY_POD_NAMESPACE" "metadata.namespace"
                    ∷ EnvVar.field_ref "MY_POD_NAME" "metadata.name"
                    ∷ [];
              }
              ∷ [];
        };
      };
    }

unfoldable pub reconcile_cluster : ℕ → String → EtcdCluster → EtcdCluster
unfolding peer_secret server_secret client_secret
reconcile_cluster size version cluster =
    let ns = cluster.metadata.namespace in
    record cluster {
      spec = record {
        size = size;
        version = version;
        tls = some (record {
          member = some (record {
            peer_secret = (peer_secret ns).metadata.name;
            server_secret = (server_secret ns).metadata.name;
          });
          operator_secret = (client_secret ns).metadata.name;
        });
      };
    }
