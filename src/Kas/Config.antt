-- ===== src/Kas/Config.antt =====
-- pkg/controllers/kubeservice/kas/config.go: the configuration of the API server.
use hypershift_lite.Prelude.{ℕ, String, ◌<>◌, List, [], ◌∷◌, some, ◌++◌}
use hypershift_lite.Prelude.Dict.{Dict, insert, entries}
use hypershift_lite.Prelude.Result.{Result, ok, context, ◌>>=◌}
use hypershift_lite.Api.{ConfigMap, Platform, KubeApiServerConfig, AdmissionObject}
use hypershift_lite.Pki.{ca_signer_cert_map_key}
use hypershift_lite.Etcd.Manifests.{cluster}
use hypershift_lite.Etcd.Secrets.{client_ca_key, client_crt_key, client_key_key}
use hypershift_lite.Kas.Manifests.{audit_policy_config_map_key}
use hypershift_lite.Kas.Secrets.{tls_cert_key, tls_private_key_key, service_signer_private_key}
use hypershift_lite.Kas.Secrets.{service_signer_public_key}
use hypershift_lite.Kas.Volumes.{kas_work_logs_mount_path, kas_audit_config_mount_path}
use hypershift_lite.Kas.Volumes.{kas_root_ca_mount_path, kas_etcd_client_cert_mount_path}
use hypershift_lite.Kas.Volumes.{kas_aggregator_cert_mount_path, kas_service_account_key_mount_path}
use hypershift_lite.Kas.Volumes.{kas_server_cert_mount_path, kas_oauth_metadata_mount_path}

abbrev pub kube_api_server_config_key : String
kube_api_server_config_key = "config.json"

abbrev pub oauth_metadata_config_key : String
oauth_metadata_config_key = "oauthMetadata.json"

abbrev audit_log_file : String
audit_log_file = "audit.log"

abbrev default_etcd_port : ℕ
default_etcd_port = 2379

abbrev pub oauth_metadata_text : String
oauth_metadata_text =
    "{\n" <> "\"issuer\": \"https://oauth-openshift\",\n"
    <> "\"authorization_endpoint\": \"https://oauth-openshift/oauth/authorize\",\n"
    <> "\"token_endpoint\": \"https://oauth-openshift/oauth/token\",\n"
    <> "  \"scopes_supported\": [\n" <> "    \"user:check-access\",\n" <> "    \"user:full\",\n"
    <> "    \"user:info\",\n" <> "    \"user:list-projects\",\n"
    <> "    \"user:list-scoped-projects\"\n" <> "  ],\n" <> "  \"response_types_supported\": [\n"
    <> "    \"code\",\n" <> "    \"token\"\n" <> "  ],\n" <> "  \"grant_types_supported\": [\n"
    <> "    \"authorization_code\",\n" <> "    \"implicit\"\n" <> "  ],\n"
    <> "  \"code_challenge_methods_supported\": [\n" <> "    \"plain\",\n" <> "    \"S256\"\n"
    <> "  ]\n" <> "}\n"

abbrev pub default_feature_gates : List String
default_feature_gates =
    "APIPriorityAndFairness=true" ∷ "RotateKubeletServerCertificate=true"
    ∷ "SupportPodPidsLimit=true" ∷ "NodeDisruptionExclusion=true" ∷ "ServiceNodeExclusion=true"
    ∷ "DownwardAPIHugePages=true" ∷ "LegacyNodeRoleBehavior=false" ∷ []

abbrev admission_plugins : List String
admission_plugins =
    "CertificateApproval" ∷ "CertificateSigning" ∷ "CertificateSubjectRestriction"
    ∷ "DefaultIngressClass" ∷ "DefaultStorageClass" ∷ "DefaultTolerationSeconds" ∷ "LimitRanger"
    ∷ "MutatingAdmissionWebhook" ∷ "NamespaceLifecycle" ∷ "NodeRestriction"
    ∷ "OwnerReferencesPermissionEnforcement" ∷ "PersistentVolumeClaimResize"
    ∷ "PersistentVolumeLabel" ∷ "PodNodeSelector" ∷ "PodTolerationRestriction" ∷ "Priority"
    ∷ "ResourceQuota" ∷ "RuntimeClass" ∷ "ServiceAccount" ∷ "StorageObjectInUseProtection"
    ∷ "TaintNodesByCondition" ∷ "ValidatingAdmissionWebhook"
    ∷ "authorization.openshift.io/RestrictSubjectBindings"
    ∷ "authorization.openshift.io/ValidateRoleBindingRestriction"
    ∷ "config.openshift.io/DenyDeleteClusterConfiguration" ∷ "config.openshift.io/ValidateAPIServer"
    ∷ "config.openshift.io/ValidateAuthentication" ∷ "config.openshift.io/ValidateConsole"
    ∷ "config.openshift.io/ValidateFeatureGate" ∷ "config.openshift.io/ValidateImage"
    ∷ "config.openshift.io/ValidateOAuth" ∷ "config.openshift.io/ValidateProject"
    ∷ "config.openshift.io/ValidateScheduler" ∷ "image.openshift.io/ImagePolicy"
    ∷ "network.openshift.io/ExternalIPRanger" ∷ "network.openshift.io/RestrictedEndpointsAdmission"
    ∷ "quota.openshift.io/ClusterResourceQuota" ∷ "quota.openshift.io/ValidateClusterResourceQuota"
    ∷ "route.openshift.io/IngressAdmission" ∷ "scheduling.openshift.io/OriginPodNodeEnvironment"
    ∷ "security.openshift.io/DefaultSecurityContextConstraints"
    ∷ "security.openshift.io/SCCExecRestrictions"
    ∷ "security.openshift.io/SecurityContextConstraint"
    ∷ "security.openshift.io/ValidateSecurityContextConstraints" ∷ []

abbrev cipher_suites : List String
cipher_suites =
    "TLS_ECDHE_ECDSA_WITH_AES_128_GCM_SHA256" ∷ "TLS_ECDHE_RSA_WITH_AES_128_GCM_SHA256"
    ∷ "TLS_ECDHE_ECDSA_WITH_AES_256_GCM_SHA384" ∷ "TLS_ECDHE_RSA_WITH_AES_256_GCM_SHA384"
    ∷ "TLS_ECDHE_ECDSA_WITH_CHACHA20_POLY1305_SHA256"
    ∷ "TLS_ECDHE_RSA_WITH_CHACHA20_POLY1305_SHA256" ∷ []

pub record ConfigParams : Type 0 where
  pub internal_api_server_port : ℕ
  pub namespace : String
  pub service_cidr : String

abbrev external_ip_ranger_config : AdmissionObject
external_ip_ranger_config = record {
  api_version = "network.openshift.io/v1";
  kind = "ExternalIPRangerAdmissionConfig";
  list_name = "externalIPNetworkCIDRs";
  items = [];
}

abbrev restricted_endpoints_admission : String → AdmissionObject
restricted_endpoints_admission service_cidr = record {
  api_version = "network.openshift.io/v1";
  kind = "RestrictedEndpointsAdmissionConfig";
  list_name = "restrictedCIDRs";
  items = service_cidr ∷ [];
}

module _ (p : Platform) where
  -- The entries of APIServerArguments, in the order of the source.
  abbrev arguments_to_etcd : ConfigParams → Dict (List String)
  arguments_to_etcd params =
      ("advertise-address", "172.20.0.1" ∷ [])
      ∷ ("allow-privileged", "true" ∷ [])
      ∷ ("anonymous-auth", "true" ∷ [])
      ∷ ("api-audiences", "https://kubernetes.default.svc" ∷ [])
      ∷ ("audit-log-format", "json" ∷ [])
      ∷ ("audit-log-maxbackup", "10" ∷ [])
      ∷ ("audit-log-maxsize", "100" ∷ [])
      ∷ ("audit-log-path", p.path_join kas_work_logs_mount_path audit_log_file ∷ [])
      ∷ (
        "audit-policy-file",
        p.path_join kas_audit_config_mount_path audit_policy_config_map_key ∷ [],
      )
      ∷ ("authorization-mode", "Scope" ∷ "SystemMasters" ∷ "RBAC" ∷ "Node" ∷ [])
      ∷ ("client-ca-file", p.path_join kas_root_ca_mount_path ca_signer_cert_map_key ∷ [])
      ∷ ("enable-admission-plugins", admission_plugins)
      ∷ ("enable-aggregator-routing", "true" ∷ [])
      ∷ ("enable-logs-handler", "false" ∷ [])
      ∷ ("enable-swagger-ui", "true" ∷ [])
      ∷ ("endpoint-reconciler-type", "lease" ∷ [])
      ∷ ("etcd-cafile", p.path_join kas_etcd_client_cert_mount_path client_ca_key ∷ [])
      ∷ ("etcd-certfile", p.path_join kas_etcd_client_cert_mount_path client_crt_key ∷ [])
      ∷ ("etcd-keyfile", p.path_join kas_etcd_client_cert_mount_path client_key_key ∷ [])
      ∷ ("etcd-prefix", "kubernetes.io" ∷ [])
      ∷ (
        "etcd-servers",
        ("https://"
              <> (cluster params.namespace).metadata.name
              <> "-client:"
              <> p.decimal default_etcd_port)
            ∷ [],
      )
      ∷ ("event-ttl", "3h" ∷ [])
      ∷ ("feature-gates", default_feature_gates)
      ∷ ("goaway-chance", "0" ∷ [])
      ∷ []

  abbrev arguments_from_event : ConfigParams → Dict (List String)
  arguments_from_event params =
      ("http2-max-streams-per-connection", "2000" ∷ [])
      ∷ ("insecure-port", "0" ∷ [])
      ∷ ("kubernetes-service-node-port", "0" ∷ [])
      ∷ ("max-mutating-requests-inflight", "1000" ∷ [])
      ∷ ("max-requests-inflight", "3000" ∷ [])
      ∷ ("min-request-timeout", "3600" ∷ [])
      ∷ ("proxy-client-cert-file", p.path_join kas_aggregator_cert_mount_path tls_cert_key ∷ [])
      ∷ (
        "proxy-client-key-file",
        p.path_join kas_aggregator_cert_mount_path tls_private_key_key ∷ [],
      )
      ∷ (
        "requestheader-allowed-names",
        "kube-apiserver-proxy" ∷ "system:kube-apiserver-proxy" ∷ "system:openshift-aggregator" ∷ [],
      )
      ∷ (
        "requestheader-client-ca-file",
        p.path_join kas_root_ca_mount_path ca_signer_cert_map_key ∷ [],
      )
      ∷ ("requestheader-extra-headers-prefix", "X-Remote-Extra-" ∷ [])
      ∷ ("requestheader-group-headers", "X-Remote-Group" ∷ [])
      ∷ ("requestheader-username-headers", "X-Remote-User" ∷ [])
      ∷ ("runtime-config", "flowcontrol.apiserver.k8s.io/v1alpha1=true" ∷ [])
      ∷ ("service-account-issuer", "https://kubernetes.default.svc" ∷ [])
      ∷ ("service-account-lookup", "true" ∷ [])
      ∷ (
        "service-account-signing-key-file",
        p.path_join kas_service_account_key_mount_path service_signer_private_key ∷ [],
      )
      ∷ ("service-node-port-range", "30000-32767" ∷ [])
      ∷ ("shutdown-delay-duration", "70s" ∷ [])
      ∷ ("storage-backend", "etcd3" ∷ [])
      ∷ ("storage-media-type", "application/vnd.kubernetes.protobuf" ∷ [])
      ∷ ("tls-cert-file", p.path_join kas_server_cert_mount_path tls_cert_key ∷ [])
      ∷ ("tls-private-key-file", p.path_join kas_server_cert_mount_path tls_private_key_key ∷ [])
      ∷ []

  unfoldable pub api_server_arguments : ConfigParams → Dict (List String)
  unfolding cluster
  api_server_arguments params = arguments_to_etcd params ++ arguments_from_event params

  unfoldable pub api_server_config : ConfigParams → KubeApiServerConfig
  unfolding api_server_arguments
  api_server_config params = record {
    kind = "KubeAPIServerConfig";
    api_version = p.kcp_group_version;
    api_server_arguments = api_server_arguments params;
    plugin_config =
        (
          "network.openshift.io/ExternalIPRanger",
          record { location = ""; configuration = external_ip_ranger_config },
        )
        ∷ (
          "network.openshift.io/RestrictedEndpointsAdmission",
          record {
            location = "";
            configuration = restricted_endpoints_admission params.service_cidr;
          },
        )
        ∷ [];
    serving_info = record {
      bind_address = "0.0.0.0:" <> p.decimal params.internal_api_server_port;
      bind_network = "tcp4";
      cipher_suites = cipher_suites;
      min_tls_version = "VersionTLS12";
    };
    cors_allowed_origins = "//127\\.0\\.0\\.1(:|$)" ∷ "//localhost(:|$)" ∷ [];
    oauth_metadata_file = p.path_join kas_oauth_metadata_mount_path oauth_metadata_config_key;
    console_public_url = "https://console-openshift-console";
    internal_registry_hostname = "image-registry.openshift-image-registry.svc:5000";
    default_node_selector = "";
    service_account_public_key_files =
        p.path_join kas_service_account_key_mount_path service_signer_public_key ∷ [];
    services_subnet = params.service_cidr;
  }

  unfoldable pub generate_config : ConfigParams → Result String
  unfolding api_server_config
  generate_config params = p.marshal_api_server (api_server_config params)

  unfoldable pub reconcile_config : ConfigMap → String → ℕ → Result ConfigMap
  unfolding generate_config insert
  reconcile_config config service_cidr internal_api_server_port = do
    serialized_config ← context "failed to create apiserver config" (
        generate_config (record {
          internal_api_server_port = internal_api_server_port;
          namespace = config.metadata.namespace;
          service_cidr = service_cidr;
        }))
    let values = insert kube_api_server_config_key serialized_config (entries config.values)
    ok (record config { values = some values })

unfoldable pub reconcile_oauth_metadata : ConfigMap → ConfigMap
unfolding insert
reconcile_oauth_metadata cfg = record cfg {
  values = some (insert oauth_metadata_config_key oauth_metadata_text (entries cfg.values));
}
