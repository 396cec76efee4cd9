-- ===== src/Kas/Deployment.antt =====
-- pkg/controllers/kubeservice/kas/deployment.go: the deployment of the API server.
use hypershift_lite.Prelude.{ℕ, String, ◌<>◌, false, List, [], ◌∷◌, some}
use hypershift_lite.Api.{Deployment, Container, Volume, VolumeSource, EnvVar, Platform, pod_spec}
use hypershift_lite.Api.{VolumeMount, container}
use hypershift_lite.Pki.{root_ca_secret}
use hypershift_lite.Etcd.Manifests.{client_secret}
use hypershift_lite.Kas.Kubeconfig.{kubeconfig_key}
use hypershift_lite.Kas.Config.{kube_api_server_config_key}
use hypershift_lite.Kas.Manifests.{localhost_kubeconfig_secret, config, audit_config}
use hypershift_lite.Kas.Manifests.{server_cert_secret, aggregator_cert_secret, oauth_metadata}
use hypershift_lite.Kas.Manifests.{service_account_signing_key_secret, kas_labels, to_int32}
use hypershift_lite.Kas.Volumes.{
  init_bootstrap_container, apply_bootstrap_manifests_container, kube_api_server_container,
}
use hypershift_lite.Kas.Volumes.{
  bootstrap_manifests_volume, localhost_kubeconfig_volume, work_logs_volume,
}
use hypershift_lite.Kas.Volumes.{kas_config_volume, audit_config_volume, root_ca_volume}
use hypershift_lite.Kas.Volumes.{
  server_cert_volume, aggregator_cert_volume, service_account_key_volume,
}
use hypershift_lite.Kas.Volumes.{
  etcd_client_cert_volume, oauth_metadata_volume, init_work_mount_path,
}
use hypershift_lite.Kas.Volumes.{
  apply_work_mount_path, apply_kubeconfig_mount_path, kas_work_logs_mount_path,
}
use hypershift_lite.Kas.Volumes.{
  kas_config_mount_path, kas_audit_config_mount_path, kas_root_ca_mount_path,
}
use hypershift_lite.Kas.Volumes.{
  kas_server_cert_mount_path, kas_aggregator_cert_mount_path, kas_etcd_client_cert_mount_path,
}
use hypershift_lite.Kas.Volumes.{kas_service_account_key_mount_path, kas_oauth_metadata_mount_path}

unfoldable pub invoke_mco_render_script : String → String
invoke_mco_render_script work_dir =
    "#!/bin/sh\n" <> "cd /tmp\n" <> "mkdir input output\n"
    <> "/usr/bin/cluster-config-operator render \\\n" <> "   --config-output-file config \\\n"
    <> "   --asset-input-dir /tmp/input \\\n" <> "   --asset-output-dir /tmp/output\n"
    <> "cp /tmp/output/manifests/* " <> work_dir <> "\n"

unfoldable pub apply_bootstrap_manifests_script : String → String
apply_bootstrap_manifests_script work_dir =
    "#!/bin/sh\n" <> "while true; do\n" <> "  if oc apply -f " <> work_dir <> "; then\n"
    <> "    echo \"Bootstrap manifests applied successfully.\"\n" <> "    break\n" <> "  fi\n"
    <> "  sleep 1\n" <> "done\n" <> "while true; do\n" <> "  sleep 1000\n" <> "done\n"

unfoldable pub kas_volumes : String → List Volume
unfolding localhost_kubeconfig_secret config audit_config root_ca_secret server_cert_secret
    aggregator_cert_secret service_account_signing_key_secret client_secret oauth_metadata
kas_volumes ns =
    record { name = bootstrap_manifests_volume; source = VolumeSource.empty_dir }
    ∷ record {
      name = localhost_kubeconfig_volume;
      source = VolumeSource.secret (localhost_kubeconfig_secret ns).metadata.name;
    }
    ∷ record { name = work_logs_volume; source = VolumeSource.empty_dir }
    ∷ record {
      name = kas_config_volume;
      source = VolumeSource.config_map (config ns).metadata.name;
    }
    ∷ record {
      name = audit_config_volume;
      source = VolumeSource.config_map (audit_config ns).metadata.name;
    }
    ∷ record {
      name = root_ca_volume;
      source = VolumeSource.secret (root_ca_secret ns).metadata.name;
    }
    ∷ record {
      name = server_cert_volume;
      source = VolumeSource.secret (server_cert_secret ns).metadata.name;
    }
    ∷ record {
      name = aggregator_cert_volume;
      source = VolumeSource.secret (aggregator_cert_secret ns).metadata.name;
    }
    ∷ record {
      name = service_account_key_volume;
      source = VolumeSource.secret (service_account_signing_key_secret ns).metadata.name;
    }
    ∷ record {
      name = etcd_client_cert_volume;
      source = VolumeSource.secret (client_secret ns).metadata.name;
    }
    ∷ record {
      name = oauth_metadata_volume;
      source = VolumeSource.config_map (oauth_metadata ns).metadata.name;
    }
    ∷ []

abbrev kas_mounts : List VolumeMount
kas_mounts =
    record { name = work_logs_volume; mount_path = kas_work_logs_mount_path }
    ∷ record { name = kas_config_volume; mount_path = kas_config_mount_path }
    ∷ record { name = audit_config_volume; mount_path = kas_audit_config_mount_path }
    ∷ record { name = root_ca_volume; mount_path = kas_root_ca_mount_path }
    ∷ record { name = server_cert_volume; mount_path = kas_server_cert_mount_path }
    ∷ record { name = aggregator_cert_volume; mount_path = kas_aggregator_cert_mount_path }
    ∷ record { name = etcd_client_cert_volume; mount_path = kas_etcd_client_cert_mount_path }
    ∷ record { name = service_account_key_volume; mount_path = kas_service_account_key_mount_path }
    ∷ record { name = oauth_metadata_volume; mount_path = kas_oauth_metadata_mount_path }
    ∷ []

-- The init container renders the manifests.
unfoldable pub init_container : String → Container
unfolding invoke_mco_render_script
init_container config_operator_image =
    record (container init_bootstrap_container config_operator_image) {
      command = "/bin/bash" ∷ [];
      args = "-c" ∷ invoke_mco_render_script init_work_mount_path ∷ [];
      volume_mounts =
          record { name = bootstrap_manifests_volume; mount_path = init_work_mount_path } ∷ [];
    }

module _ (p : Platform) where
  -- The side car applies them.
  unfoldable pub apply_container : String → Container
  unfolding apply_bootstrap_manifests_script
  apply_container cli_image = record (container apply_bootstrap_manifests_container cli_image) {
    command = "/bin/bash" ∷ [];
    args = "-c" ∷ apply_bootstrap_manifests_script apply_work_mount_path ∷ [];
    env = EnvVar.value "KUBECONFIG" (p.path_join apply_kubeconfig_mount_path kubeconfig_key) ∷ [];
    volume_mounts =
        record { name = bootstrap_manifests_volume; mount_path = apply_work_mount_path }
        ∷ record { name = localhost_kubeconfig_volume; mount_path = apply_kubeconfig_mount_path }
        ∷ [];
  }

  unfoldable pub api_server_container : String → ℕ → Container
  api_server_container hyper_kube_image port =
      record (container kube_api_server_container hyper_kube_image) {
        command = "hyperkube" ∷ [];
        args =
            "kube-apiserver"
            ∷ ("--openshift-config="
                <> p.path_join kas_config_mount_path kube_api_server_config_key)
            ∷ "-v5"
            ∷ [];
        working_dir = kas_work_logs_mount_path;
        liveness = some (record {
          initial_delay_seconds = 45;
          timeout_seconds = 10;
          path = "/livez";
          port = to_int32 port;
        });
        readiness = some (record {
          initial_delay_seconds = 10;
          timeout_seconds = 10;
          path = "/healthz";
          port = to_int32 port;
        });
        volume_mounts = kas_mounts;
      }

  unfoldable pub reconcile_kube_api_server_deployment :
      Deployment → String → String → String → ℕ → ℕ → Deployment
  unfolding kas_volumes init_container apply_container api_server_container
  reconcile_kube_api_server_deployment deployment config_operator_image cli_image hyper_kube_image
        internal_api_server_port replica_count =
      record deployment {
        spec = record {
          replicas = some (to_int32 replica_count);
          match_labels = some kas_labels;
          rolling_update = some (record { max_surge = 3; max_unavailable = 1 });
          template_labels = some kas_labels;
          template = record pod_spec {
            automount_token = some false;
            init_containers = init_container config_operator_image ∷ [];
            containers =
                apply_container cli_image
                ∷ api_server_container hyper_kube_image internal_api_server_port
                ∷ [];
            volumes = kas_volumes deployment.metadata.namespace;
          };
        };
      }
