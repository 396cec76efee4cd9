-- ===== src/Kcm/Deployment.antt =====
-- pkg/controllers/kubeservice/kcm/deployment.go: the deployment of the controller manager.
use hypershift_lite.Prelude.{ℕ, String, ◌<>◌, false, List, [], ◌∷◌, ◌++◌, some, map}
use hypershift_lite.Api.{Deployment, Volume, VolumeSource, VolumeMount, Platform}
use hypershift_lite.Api.{pod_spec, container}
use hypershift_lite.Prelude.Dict.{Dict}
use hypershift_lite.Pki.{root_ca_secret, ca_signer_cert_map_key}
use hypershift_lite.Kas.Kubeconfig.{kubeconfig_key}
use hypershift_lite.Kas.Config.{default_feature_gates}
use hypershift_lite.Kas.Secrets.{service_signer_private_key}
use hypershift_lite.Kas.Manifests.{service_kubeconfig_secret, service_account_signing_key_secret}
use hypershift_lite.Kas.Manifests.{to_int32}
use hypershift_lite.Kcm.Manifests.{config, cluster_signer_secret, signer_secret_cert_key}
use hypershift_lite.Kcm.Manifests.{signer_secret_key_key, kube_controller_manager_config_key}

abbrev pub kube_controller_manager_container : String
kube_controller_manager_container = "kube-controller-manager"

abbrev pub kcm_config_volume : String
kcm_config_volume = "kcm-config"

abbrev pub root_ca_volume : String
root_ca_volume = "root-ca"

abbrev pub work_logs_volume : String
work_logs_volume = "logs"

abbrev pub kubeconfig_volume : String
kubeconfig_volume = "kubeconfig"

abbrev pub cert_dir_volume : String
cert_dir_volume = "certs"

abbrev pub cluster_signer_volume : String
cluster_signer_volume = "cluster-signer"

abbrev pub service_signer_volume : String
service_signer_volume = "service-signer"

abbrev pub kcm_config_mount_path : String
kcm_config_mount_path = "/etc/kubernetes/config"

abbrev pub kcm_root_ca_mount_path : String
kcm_root_ca_mount_path = "/etc/kubernetes/certs/root-ca"

abbrev pub kcm_work_logs_mount_path : String
kcm_work_logs_mount_path = "/var/log/kube-controller-manager"

abbrev pub kcm_kubeconfig_mount_path : String
kcm_kubeconfig_mount_path = "/etc/kubernetes/secrets/svc-kubeconfig"

abbrev pub kcm_cert_dir_mount_path : String
kcm_cert_dir_mount_path = "/var/run/kubernetes"

abbrev pub kcm_cluster_signer_mount_path : String
kcm_cluster_signer_mount_path = "/etc/kubernetes/certs/cluster-signer"

abbrev pub kcm_service_signer_mount_path : String
kcm_service_signer_mount_path = "/etc/kubernetes/certs/service-signer"

abbrev kcm_labels : Dict String
kcm_labels = ("app", "kube-controller-manager") ∷ []

unfoldable pub kcm_volumes : String → List Volume
unfolding config root_ca_secret service_kubeconfig_secret cluster_signer_secret
    service_account_signing_key_secret
kcm_volumes ns =
    record { name = kcm_config_volume; source = VolumeSource.config_map (config ns).metadata.name }
    ∷ record {
      name = root_ca_volume;
      source = VolumeSource.secret (root_ca_secret ns).metadata.name;
    }
    ∷ record { name = work_logs_volume; source = VolumeSource.empty_dir }
    ∷ record {
      name = kubeconfig_volume;
      source = VolumeSource.secret (service_kubeconfig_secret ns).metadata.name;
    }
    ∷ record {
      name = cluster_signer_volume;
      source = VolumeSource.secret (cluster_signer_secret ns).metadata.name;
    }
    ∷ record { name = cert_dir_volume; source = VolumeSource.empty_dir }
    ∷ record {
      name = service_signer_volume;
      source = VolumeSource.secret (service_account_signing_key_secret ns).metadata.name;
    }
    ∷ []

abbrev kcm_mounts : List VolumeMount
kcm_mounts =
    record { name = kcm_config_volume; mount_path = kcm_config_mount_path }
    ∷ record { name = root_ca_volume; mount_path = kcm_root_ca_mount_path }
    ∷ record { name = work_logs_volume; mount_path = kcm_work_logs_mount_path }
    ∷ record { name = kubeconfig_volume; mount_path = kcm_kubeconfig_mount_path }
    ∷ record { name = cluster_signer_volume; mount_path = kcm_cluster_signer_mount_path }
    ∷ record { name = cert_dir_volume; mount_path = kcm_cert_dir_mount_path }
    ∷ record { name = service_signer_volume; mount_path = kcm_service_signer_mount_path }
    ∷ []

module _ (p : Platform) where
  -- The parameters are a service CIDR and a pod CIDR, in this order.
  unfoldable pub kcm_args : String → String → List String
  kcm_args service_cidr pod_cidr =
      let kube_config_path = p.path_join kcm_kubeconfig_mount_path kubeconfig_key in
      (("--openshift-config="
          <> p.path_join kcm_config_mount_path kube_controller_manager_config_key)
        ∷ ("--kubeconfig=" <> kube_config_path)
        ∷ ("--authentication-kubeconfig=" <> kube_config_path)
        ∷ ("--authorization-kubeconfig=" <> kube_config_path)
        ∷ "--allocate-node-cidrs=true"
        ∷ ("--cert-dir=" <> kcm_cert_dir_mount_path)
        ∷ ("--cluster-cidr=" <> pod_cidr)
        ∷ ("--cluster-signing-cert-file="
            <> p.path_join kcm_cluster_signer_mount_path signer_secret_cert_key)
        ∷ ("--cluster-signing-key-file="
            <> p.path_join kcm_cluster_signer_mount_path signer_secret_key_key)
        ∷ "--configure-cloud-routes=false"
        ∷ "--controllers=*"
        ∷ "--controllers=-ttl"
        ∷ "--controllers=-bootstrapsigner"
        ∷ "--controllers=-tokencleaner"
        ∷ "--enable-dynamic-provisioning=true"
        ∷ "--kube-api-burst=300"
        ∷ "--kube-api-qps=150"
        ∷ "--leader-elect-resource-lock=configmaps"
        ∷ "--leader-elect=true"
        ∷ "--leader-elect-retry-period=3s"
        ∷ "--port=0"
        ∷ ("--root-ca-file=" <> p.path_join kcm_root_ca_mount_path ca_signer_cert_map_key)
        ∷ "--secure-port=10257"
        ∷ ("--service-account-private-key-file="
            <> p.path_join kcm_service_signer_mount_path service_signer_private_key)
        ∷ ("--service-cluster-ip-range=" <> service_cidr)
        ∷ "--use-service-account-credentials=true"
        ∷ "--experimental-cluster-signing-duration=26280h"
        ∷ [])
      ++ map (λ f. "--feature-gates=" <> f) default_feature_gates

  -- The call gives kcmArgs the pod CIDR first.
  unfoldable pub reconcile_deployment : Deployment → String → String → String → ℕ → Deployment
  unfolding kcm_volumes kcm_args
  reconcile_deployment deployment pod_cidr service_cidr hyper_kube_image replica_count =
      record deployment {
        spec = record {
          replicas = some (to_int32 replica_count);
          match_labels = some kcm_labels;
          rolling_update = some (record { max_surge = 3; max_unavailable = 1 });
          template_labels = some kcm_labels;
          template = record pod_spec {
            automount_token = some false;
            containers =
                record (container kube_controller_manager_container hyper_kube_image) {
                  command = "hyperkube" ∷ "kube-controller-manager" ∷ [];
                  args = kcm_args pod_cidr service_cidr;
                  volume_mounts = kcm_mounts;
                }
                ∷ [];
            volumes = kcm_volumes deployment.metadata.namespace;
          };
        };
      }
