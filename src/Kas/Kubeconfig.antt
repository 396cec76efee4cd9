-- ===== src/Kas/Kubeconfig.antt =====
-- pkg/controllers/kubeservice/kas/kubeconfig.go: the administrator's kubeconfig secrets.
use hypershift_lite.Prelude.{ℕ, String, ◌<>◌, false, [], ◌∷◌, some, if◌then◌else◌}
use hypershift_lite.Prelude.Dict.{insert, entries}
use hypershift_lite.Prelude.Result.{Result, ok, context, ◌>>=◌, ◌>>◌}
use hypershift_lite.Api.{Secret, SecretType, Bytes, Platform, KubeConfig}
use hypershift_lite.Certs.{Crypto, CertCfg, key_encipherment, digital_signature, client_auth}
use hypershift_lite.Certs.{validity_one_year}
use hypershift_lite.Pki.{require_ca, signed_secret_up_to_date, sign_certificate, annotate_with_ca}
use hypershift_lite.Kas.Manifests.{service}

abbrev pub kubeconfig_key : String
kubeconfig_key = "kubeconfig"

unfoldable pub admin_cfg : CertCfg
admin_cfg = record {
  dns_names = [];
  ext_key_usages = client_auth ∷ [];
  ip_addresses = [];
  key_usages = key_encipherment ∷ digital_signature ∷ [];
  subject = record {
    common_name = "system:admin";
    organization = "system:masters" ∷ [];
    organizational_unit = [];
  };
  validity = validity_one_year;
  is_ca = false;
}

module _ (p : Platform) (c : Crypto) where
  open c use {Env}

  unfoldable pub generate_kube_config : String → Bytes → Bytes → Bytes → Result Bytes
  generate_kube_config url crt_bytes key_bytes ca_bytes =
      let kube_cfg : KubeConfig = record {
        kind = "Config";
        api_version = "v1";
        clusters = ("cluster", record { server = url; certificate_authority_data = ca_bytes }) ∷ [];
        auth_infos =
            ("admin", record { client_certificate_data = crt_bytes; client_key_data = key_bytes })
            ∷ [];
        contexts =
            ("admin", record { cluster = "cluster"; auth_info = "admin"; namespace = "default" })
            ∷ [];
        current_context = "admin";
      } in
      p.write_kubeconfig kube_cfg

  unfoldable pub reconcile_system_admin_kubeconfig : Env → Secret → Secret → String → Result Secret
  unfolding generate_kube_config admin_cfg
  reconcile_system_admin_kubeconfig e secret ca url = do
    require_ca ca
    let typed : Secret = record secret { type = SecretType.opaque }
    if signed_secret_up_to_date c typed ca (kubeconfig_key ∷ []) then ok typed else do
      (crt, key, ca_crt) ←
          context "failed to create signed cert for kubeconfig" (sign_certificate c e admin_cfg ca)
      kube_cfg_bytes ←
          context "failed to generate kubeconfig" (generate_kube_config url crt key ca_crt)
      let values = insert kubeconfig_key kube_cfg_bytes (entries typed.values)
      ok (annotate_with_ca c (record typed { values = some values }) ca)

  unfoldable pub reconcile_service_kubeconfig_secret : Env → Secret → Secret → ℕ → Result Secret
  unfolding reconcile_system_admin_kubeconfig service
  reconcile_service_kubeconfig_secret e secret ca port =
      let svc_url =
        "https://" <> (service secret.metadata.namespace).metadata.name <> ":" <> p.decimal port in
      reconcile_system_admin_kubeconfig e secret ca svc_url

  unfoldable pub reconcile_localhost_kubeconfig_secret : Env → Secret → Secret → ℕ → Result Secret
  unfolding reconcile_system_admin_kubeconfig
  reconcile_localhost_kubeconfig_secret e secret ca port =
      reconcile_system_admin_kubeconfig e secret ca ("https://localhost:" <> p.decimal port)
