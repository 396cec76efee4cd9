-- ===== src/Kas/Secrets.antt =====
-- The certificate and key secrets of pkg/controllers/kubeservice/kas/certs.go.
use hypershift_lite.Prelude.{String, ◌<>◌, false, List, [], ◌∷◌, some, if◌then◌else◌}
use hypershift_lite.Prelude.Dict.{insert, entries}
use hypershift_lite.Prelude.Result.{Result, ok, context, ◌>>=◌, ◌>>◌}
use hypershift_lite.Api.{Secret, SecretType, Bytes, Platform}
use hypershift_lite.Certs.{Crypto, CertCfg, key_encipherment, digital_signature, client_auth}
use hypershift_lite.Certs.{server_auth, validity_one_year, private_key, private_key_to_pem}
use hypershift_lite.Certs.{public_key_to_pem}
use hypershift_lite.Pki.{require_ca, signed_secret_up_to_date, sign_certificate, annotate_with_ca}
use hypershift_lite.Pki.{secret_up_to_date}
use hypershift_lite.Kas.Manifests.{service}
use hypershift_lite.Kas.Ips.{first_ip}

-- corev1.TLSCertKey and corev1.TLSPrivateKeyKey
abbrev pub tls_cert_key : String
tls_cert_key = "tls.crt"

abbrev pub tls_private_key_key : String
tls_private_key_key = "tls.key"

abbrev pub service_signer_private_key : String
service_signer_private_key = "service-account.key"

abbrev pub service_signer_public_key : String
service_signer_public_key = "service-account.pub"

unfoldable pub aggregator_cfg : CertCfg
aggregator_cfg = record {
  dns_names = [];
  ext_key_usages = server_auth ∷ client_auth ∷ [];
  ip_addresses = [];
  key_usages = key_encipherment ∷ digital_signature ∷ [];
  subject = record {
    common_name = "system:openshift-aggregator";
    organization = "kubernetes" ∷ [];
    organizational_unit = [];
  };
  validity = validity_one_year;
  is_ca = false;
}

module _ (p : Platform) (c : Crypto) where
  open c use {Env}

  -- The configuration of the API server's certificate, for a namespace and a network address.
  unfoldable pub server_cert_cfg : String → Bytes → CertCfg
  unfolding service first_ip
  server_cert_cfg ns network =
      let svc = service ns in
      let service_name = svc.metadata.name in
      let service_namespace = svc.metadata.namespace in
      record {
        dns_names =
            "localhost"
            ∷ "kubernetes"
            ∷ "kubernetes.default.svc"
            ∷ "kubernetes.default.svc.cluster.local"
            ∷ service_name
            ∷ (service_name <> "." <> service_namespace <> ".svc")
            ∷ (service_name <> "." <> service_namespace <> ".svc.cluster.local")
            ∷ [];
        ext_key_usages = server_auth ∷ [];
        ip_addresses = p.parse_ip "127.0.0.1" ∷ first_ip network ∷ [];
        key_usages = key_encipherment ∷ digital_signature ∷ [];
        subject = record {
          common_name = "kubernetes";
          organization = "kubernetes" ∷ [];
          organizational_unit = [];
        };
        validity = validity_one_year;
        is_ca = false;
      }

  unfoldable pub reconcile_server_cert_secret : Env → Secret → Secret → String → Result Secret
  unfolding server_cert_cfg
  reconcile_server_cert_secret e secret ca service_cidr = do
    require_ca ca
    let typed : Secret = record secret { type = SecretType.tls }
    let expected_keys : List String = tls_cert_key ∷ tls_private_key_key ∷ []
    if signed_secret_up_to_date c typed ca expected_keys then ok typed else do
      network ← context "cannot parse service CIDR" (p.parse_cidr service_cidr)
      let cfg = server_cert_cfg secret.metadata.namespace network
      (crt, key, _) ← context "failed to sign secret" (sign_certificate c e cfg ca)
      let values = insert tls_private_key_key key (insert tls_cert_key crt (entries typed.values))
      ok (annotate_with_ca c (record typed { values = some values }) ca)

module _ (c : Crypto) where
  open c use {Env}

  unfoldable pub reconcile_aggregator_cert_secret : Env → Secret → Secret → Result Secret
  unfolding aggregator_cfg
  reconcile_aggregator_cert_secret e secret ca = do
    require_ca ca
    let typed : Secret = record secret { type = SecretType.tls }
    let expected_keys : List String = tls_cert_key ∷ tls_private_key_key ∷ []
    if signed_secret_up_to_date c typed ca expected_keys then ok typed else do
      (crt, key, _) ← context "failed to sign secret" (sign_certificate c e aggregator_cfg ca)
      let values = insert tls_private_key_key key (insert tls_cert_key crt (entries typed.values))
      ok (annotate_with_ca c (record typed { values = some values }) ca)

  unfoldable pub reconcile_service_account_signing_key_secret : Env → Secret → Result Secret
  unfolding secret_up_to_date private_key private_key_to_pem public_key_to_pem insert
  reconcile_service_account_signing_key_secret e secret =
      let typed : Secret = record secret { type = SecretType.opaque } in
      let expected_keys : List String =
        service_signer_private_key ∷ service_signer_public_key ∷ [] in
      if secret_up_to_date typed expected_keys then ok typed else do
        key ← context "failed generating a private key" (private_key c e)
        public_key_bytes ←
            context "failed to generate public key from private key"
              (public_key_to_pem c (c.public key))
        let values =
            insert service_signer_private_key (private_key_to_pem c key) (entries typed.values)
        ok (record typed {
          values = some (insert service_signer_public_key public_key_bytes values);
        })
