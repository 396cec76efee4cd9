-- ===== src/Kcm/Manifests.antt =====
-- pkg/controllers/kubeservice/kcm: manifests.go, certs.go and config.go.
use hypershift_lite.Prelude.{String, true, List, [], ◌∷◌, some, if◌then◌else◌}
use hypershift_lite.Prelude.Dict.{insert, entries}
use hypershift_lite.Prelude.Result.{Result, ok, context, ◌>>=◌, ◌>>◌}
use hypershift_lite.Api.{Secret, SecretType, ConfigMap, Deployment, Platform}
use hypershift_lite.Api.{KubeControllerManagerConfig}
use hypershift_lite.Certs.{Crypto, CertCfg, key_encipherment, digital_signature, cert_sign}
use hypershift_lite.Certs.{server_auth, client_auth, validity_ten_years}
use hypershift_lite.Pki.{named_secret, require_ca, signed_secret_up_to_date, sign_certificate}
use hypershift_lite.Pki.{annotate_with_ca}
use hypershift_lite.Etcd.Manifests.{named_deployment}
use hypershift_lite.Kas.Manifests.{named_config_map}

unfoldable pub cluster_signer_secret : String → Secret
cluster_signer_secret ns = named_secret "cluster-signer" ns

unfoldable pub config : String → ConfigMap
config ns = named_config_map "kcm-config" ns

unfoldable pub deployment : String → Deployment
deployment ns = named_deployment "kube-controller-manager" ns

abbrev pub signer_secret_cert_key : String
signer_secret_cert_key = "ca.crt"

abbrev pub signer_secret_key_key : String
signer_secret_key_key = "ca.key"

unfoldable pub signer_cfg : CertCfg
signer_cfg = record {
  dns_names = [];
  ext_key_usages = server_auth ∷ client_auth ∷ [];
  ip_addresses = [];
  key_usages = key_encipherment ∷ digital_signature ∷ cert_sign ∷ [];
  subject = record {
    common_name = "cluster-signer";
    organization = "openshift" ∷ [];
    organizational_unit = [];
  };
  validity = validity_ten_years;
  is_ca = true;
}

module _ (c : Crypto) where
  open c use {Env}

  unfoldable pub reconcile_cluster_signer_secret : Env → Secret → Secret → Result Secret
  unfolding signer_cfg
  reconcile_cluster_signer_secret e secret ca = do
    require_ca ca
    let typed : Secret = record secret { type = SecretType.opaque }
    let expected_keys : List String = signer_secret_cert_key ∷ signer_secret_key_key ∷ []
    if signed_secret_up_to_date c typed ca expected_keys then ok typed else do
      (crt, key, _) ← context "failed to sign secret" (sign_certificate c e signer_cfg ca)
      let values = insert signer_secret_cert_key crt (entries typed.values)
      let values' = insert signer_secret_key_key key values
      ok (annotate_with_ca c (record typed { values = some values' }) ca)

abbrev pub kube_controller_manager_config_key : String
kube_controller_manager_config_key = "config.json"

module _ (p : Platform) where
  unfoldable pub generate_config : Result String
  generate_config =
      let config : KubeControllerManagerConfig = record {
        kind = "KubeControllerManagerConfig";
        api_version = p.kcp_group_version;
        extended_arguments = [];
        cert_file = "";
      } in
      p.marshal_controller_manager config

  unfoldable pub reconcile_config : ConfigMap → Result ConfigMap
  unfolding generate_config insert
  reconcile_config cfg = do
    serialized_config ← context "failed to create apiserver config" generate_config
    let values = insert kube_controller_manager_config_key serialized_config (entries cfg.values)
    ok (record cfg { values = some values })
