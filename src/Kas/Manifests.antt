-- ===== src/Kas/Manifests.antt =====
-- pkg/controllers/kubeservice/kas/manifests.go, service.go and auditcfg.go: the names of the
-- objects, and the service and the audit configuration.
use hypershift_lite.Prelude.{ℕ, ◌<>◌, ◌%◌, ◌^◌, String, List, [], ◌∷◌, none, some}
use hypershift_lite.Prelude.Dict.{Dict, insert, entries}
use hypershift_lite.Api.{Secret, ConfigMap, Service, ServicePort, ServiceType, Deployment, named}
use hypershift_lite.Pki.{named_secret}
use hypershift_lite.Etcd.Manifests.{named_deployment}

unfoldable pub server_cert_secret : String → Secret
server_cert_secret ns = named_secret "kas-server-crt" ns

unfoldable pub aggregator_cert_secret : String → Secret
aggregator_cert_secret ns = named_secret "kas-aggregator-crt" ns

unfoldable pub service_account_signing_key_secret : String → Secret
service_account_signing_key_secret ns = named_secret "kas-sa-key" ns

unfoldable pub localhost_kubeconfig_secret : String → Secret
localhost_kubeconfig_secret ns = named_secret "localhost-kubeconfig" ns

unfoldable pub service_kubeconfig_secret : String → Secret
service_kubeconfig_secret ns = named_secret "kubeconfig" ns

unfoldable pub deployment : String → Deployment
deployment ns = named_deployment "kube-apiserver" ns

-- A config map with no more than a name and a namespace.
abbrev pub named_config_map : String → String → ConfigMap
named_config_map name ns = record { metadata = named name ns; values = none }

unfoldable pub audit_config : String → ConfigMap
audit_config ns = named_config_map "kas-audit-config" ns

unfoldable pub config : String → ConfigMap
config ns = named_config_map "kas-config" ns

unfoldable pub service : String → Service
service ns = record {
  metadata = named "kube-apiserver" ns;
  spec = record { ports = []; selector = none; type = ServiceType.unset };
}

unfoldable pub oauth_metadata : String → ConfigMap
oauth_metadata ns = named_config_map "oauth-metadata" ns

abbrev pub kas_labels : Dict String
kas_labels = ("app", "kube-apiserver") ∷ []

-- `int32(n)` of a number that is not negative, as the bits of the result.
abbrev pub to_int32 : ℕ → ℕ
to_int32 n = n % 2 ^ 32

-- The first port is overwritten and keeps its other fields; without one, a port is made.
abbrev first_port : ℕ → ℕ → List ServicePort → List ServicePort
first_port internal_port external_port [] =
    record { name = ""; port = to_int32 external_port; target_port = to_int32 internal_port } ∷ []
first_port internal_port external_port (port ∷ rest) =
    record port { port = to_int32 external_port; target_port = to_int32 internal_port } ∷ rest

unfoldable pub reconcile_service : Service → ℕ → ℕ → Service
reconcile_service svc internal_port external_port = record svc {
  spec = record svc.spec {
    ports = first_port internal_port external_port svc.spec.ports;
    selector = some kas_labels;
    type = ServiceType.cluster_ip;
  };
}

abbrev pub audit_policy_config_map_key : String
audit_policy_config_map_key = "policy.yaml"

abbrev pub default_audit_config : String
default_audit_config =
    "\n" <> "apiVersion: audit.k8s.io/v1beta1\n" <> "kind: Policy\n" <> "omitStages:\n"
    <> "- RequestReceived\n" <> "rules:\n" <> "- level: None\n" <> "  resources:\n"
    <> "  - group: ''\n" <> "    resources:\n" <> "    - events\n" <> "- level: None\n"
    <> "  resources:\n" <> "  - group: oauth.openshift.io\n" <> "    resources:\n"
    <> "    - oauthaccesstokens\n" <> "    - oauthauthorizetokens\n" <> "- level: None\n"
    <> "  nonResourceURLs:\n" <> "  - \"/api*\"\n" <> "  - \"/version\"\n" <> "  - \"/healthz\"\n"
    <> "  - \"/readyz\"\n" <> "  userGroups:\n" <> "  - system:authenticated\n"
    <> "  - system:unauthenticated\n" <> "- level: Metadata\n" <> "  omitStages:\n"
    <> "  - RequestReceived\n"

unfoldable pub reconcile_audit_config : ConfigMap → ConfigMap
unfolding insert
reconcile_audit_config audit_cfg_map = record audit_cfg_map {
  values =
      some (insert audit_policy_config_map_key default_audit_config (entries audit_cfg_map.values));
}
