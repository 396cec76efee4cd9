-- ===== src/Pki.antt =====
-- pkg/controllers/kubeservice/pki: the root CA secret and what the signed secrets share. A function
-- that fails returns no secret: CreateOrUpdate drops the one that the failed call worked on.
pub mod Laws
pub mod RootCa
use hypershift_lite.Prelude.{
  ℕ, String, ◌<>◌, Bool, true, false, List, [], ◌∷◌, ◌++◌, Option, none, some,
}
use hypershift_lite.Prelude.{◌==◌, ◌&&◌, all, if◌then◌else◌}
use hypershift_lite.Prelude.Dict.{Dict, lookup, insert, entries, has}
use hypershift_lite.Prelude.Result.{Result, ok, err, message, context, ◌>>=◌}
use hypershift_lite.Api.{Secret, SecretType, ObjectMeta, Bytes, named}
use hypershift_lite.Certs.{
  Crypto, CertCfg, Certificate, key_encipherment, digital_signature, cert_sign,
}
use hypershift_lite.Certs.{validity_ten_years, generate_self_signed_certificate}
use hypershift_lite.Certs.{generate_signed_certificate, private_key_to_pem, cert_to_pem}
use hypershift_lite.Certs.{pem_to_private_key, pem_to_certificate}

abbrev pub ca_signer_cert_map_key : String
ca_signer_cert_map_key = "ca.crt"

abbrev pub ca_signer_key_map_key : String
ca_signer_key_map_key = "ca.key"

abbrev pub ca_hash_annotation : String
ca_hash_annotation = "hypershiftlite.openshift.io/ca-hash"

-- A secret with no more than a name and a namespace.
abbrev pub named_secret : String → String → Secret
named_secret name ns = record { metadata = named name ns; type = SecretType.unset; values = none }

unfoldable pub root_ca_secret : String → Secret
root_ca_secret control_plane_namespace = named_secret "root-ca" control_plane_namespace

unfoldable pub has_keys : Secret → List String → Bool
unfolding lookup
has_keys secret = all (λ key. has key (entries secret.values))

unfoldable pub valid_ca : Secret → Bool
unfolding has_keys
valid_ca secret = has_keys secret (ca_signer_cert_map_key ∷ ca_signer_key_map_key ∷ [])

unfoldable pub secret_up_to_date : Secret → List String → Bool
unfolding has_keys
secret_up_to_date secret keys = has_keys secret keys

-- `secret.Data[key]`: a missing key reads as no bytes.
unfoldable pub value_of : String → Secret → Bytes
unfolding lookup
value_of key secret = elim (lookup key (entries secret.values)) [ none ↦ [] | some bytes ↦ bytes ]

module _ (c : Crypto) where
  open c use {Env, PrivateKey}

  unfoldable pub compute_ca_hash : Secret → String
  unfolding value_of
  compute_ca_hash ca =
      c.md5_hex (value_of ca_signer_cert_map_key ca ++ value_of ca_signer_key_map_key ca)

  unfoldable pub annotate_with_ca : Secret → Secret → Secret
  unfolding compute_ca_hash insert
  annotate_with_ca secret ca = record secret {
    metadata = record secret.metadata {
      annotations =
          some
            (insert ca_hash_annotation (compute_ca_hash ca) (entries secret.metadata.annotations));
    };
  }

  unfoldable pub has_ca_hash : Secret → Secret → Bool
  unfolding compute_ca_hash lookup
  has_ca_hash secret ca = elim (lookup ca_hash_annotation (entries secret.metadata.annotations)) [
    | none ↦ false
    | some actual_hash ↦ compute_ca_hash ca == actual_hash
  ]

  unfoldable pub signed_secret_up_to_date : Secret → Secret → List String → Bool
  unfolding secret_up_to_date has_ca_hash
  signed_secret_up_to_date secret ca keys = secret_up_to_date secret keys && has_ca_hash secret ca

  unfoldable pub decode_ca : Secret → Result (Certificate × PrivateKey)
  unfolding value_of pem_to_certificate pem_to_private_key
  decode_ca ca = do
    crt ← pem_to_certificate c (value_of ca_signer_cert_map_key ca)
    key ← pem_to_private_key c (value_of ca_signer_key_map_key ca)
    ok (crt, key)

  -- The certificate, its key and the CA's certificate, as PEM.
  unfoldable pub sign_certificate : Env → CertCfg → Secret → Result (Bytes × Bytes × Bytes)
  unfolding decode_ca generate_signed_certificate cert_to_pem private_key_to_pem
  sign_certificate e cfg ca = do
    (ca_cert, ca_key) ← context "failed to decode CA secret" (decode_ca ca)
    (key, crt) ←
        context "failed to generate etcd client secret"
          (generate_signed_certificate c e ca_key ca_cert cfg)
    ok (cert_to_pem c crt, private_key_to_pem c key, cert_to_pem c ca_cert)

  abbrev pub root_ca_cfg : CertCfg
  root_ca_cfg = record {
    dns_names = [];
    ext_key_usages = [];
    ip_addresses = [];
    key_usages = key_encipherment ∷ digital_signature ∷ cert_sign ∷ [];
    subject = record {
      common_name = "root-ca";
      organization = [];
      organizational_unit = "openshift" ∷ [];
    };
    validity = validity_ten_years;
    is_ca = true;
  }

  -- The test names the key twice and the certificate never.
  unfoldable pub reconcile_root_ca : Env → Secret → Result Secret
  unfolding has_keys generate_self_signed_certificate cert_to_pem private_key_to_pem insert
  reconcile_root_ca e secret =
      let typed : Secret = record secret { type = SecretType.opaque } in
      if has_keys typed (ca_signer_key_map_key ∷ ca_signer_key_map_key ∷ []) then ok typed else do
        (key, crt) ←
            context "failed to generate root CA" (generate_self_signed_certificate c e root_ca_cfg)
        ok (record typed {
          values = some (
              insert ca_signer_key_map_key (private_key_to_pem c key)
                (insert ca_signer_cert_map_key (cert_to_pem c crt) (entries typed.values)));
        })

-- `if !pki.ValidCA(ca) { return fmt.Errorf("Invalid CA signer secret %s", ca.Name) }`
unfoldable pub require_ca : Secret → Result (Unit {0})
unfolding valid_ca
require_ca ca =
    if valid_ca ca then ok tt else err (message ("Invalid CA signer secret " <> ca.metadata.name))
