-- ===== src/Kas/Volumes.antt =====
-- The names of the containers and volumes and the mount paths of
-- pkg/controllers/kubeservice/kas/deployment.go.
use hypershift_lite.Prelude.{String}

abbrev pub init_bootstrap_container : String
init_bootstrap_container = "init-bootstrap"

abbrev pub apply_bootstrap_manifests_container : String
apply_bootstrap_manifests_container = "apply-bootstrap"

abbrev pub kube_api_server_container : String
kube_api_server_container = "kube-apiserver"

abbrev pub bootstrap_manifests_volume : String
bootstrap_manifests_volume = "bootstrap-manifests"

abbrev pub localhost_kubeconfig_volume : String
localhost_kubeconfig_volume = "localhost-kubeconfig"

abbrev pub work_logs_volume : String
work_logs_volume = "logs"

abbrev pub kas_config_volume : String
kas_config_volume = "kas-config"

abbrev pub audit_config_volume : String
audit_config_volume = "audit-config"

abbrev pub root_ca_volume : String
root_ca_volume = "root-ca"

abbrev pub server_cert_volume : String
server_cert_volume = "server-crt"

abbrev pub aggregator_cert_volume : String
aggregator_cert_volume = "aggregator-crt"

abbrev pub service_account_key_volume : String
service_account_key_volume = "svcacct-key"

abbrev pub etcd_client_cert_volume : String
etcd_client_cert_volume = "etcd-client-crt"

abbrev pub oauth_metadata_volume : String
oauth_metadata_volume = "oauth-metadata"

abbrev pub init_work_mount_path : String
init_work_mount_path = "/work"

abbrev pub apply_work_mount_path : String
apply_work_mount_path = "/work"

abbrev pub apply_kubeconfig_mount_path : String
apply_kubeconfig_mount_path = "/var/secrets/localhost-kubeconfig"

abbrev pub kas_work_logs_mount_path : String
kas_work_logs_mount_path = "/var/log/kube-apiserver"

abbrev pub kas_config_mount_path : String
kas_config_mount_path = "/etc/kubernetes/config"

abbrev pub kas_audit_config_mount_path : String
kas_audit_config_mount_path = "/etc/kubernetes/audit"

abbrev pub kas_root_ca_mount_path : String
kas_root_ca_mount_path = "/etc/kubernetes/certs/root-ca"

abbrev pub kas_server_cert_mount_path : String
kas_server_cert_mount_path = "/etc/kubernetes/certs/server"

abbrev pub kas_aggregator_cert_mount_path : String
kas_aggregator_cert_mount_path = "/etc/kubernetes/certs/aggregator"

abbrev pub kas_etcd_client_cert_mount_path : String
kas_etcd_client_cert_mount_path = "/etc/kubernetes/certs/etcd"

abbrev pub kas_service_account_key_mount_path : String
kas_service_account_key_mount_path = "/etc/kubernetes/secrets/svcacct-key"

abbrev pub kas_oauth_metadata_mount_path : String
kas_oauth_metadata_mount_path = "/etc/kubernetes/oauth"
