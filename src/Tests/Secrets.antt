-- ===== src/Tests/Secrets.antt =====
-- The theorems on certificate secrets at concrete arguments.
use hypershift_lite.Prelude.{◌≡◌, refl, [], ◌∷◌, some, false}
use hypershift_lite.Prelude.Result.{ok, ◌>>=◌}
use hypershift_lite.Api.{named, Secret, SecretType}
use hypershift_lite.Tests.Fixtures.{platform, crypto, ca_secret, empty_secret, certificate}
use hypershift_lite.Prelude.Dict.{lookup}
use hypershift_lite.Certs.{generate_self_signed_certificate}
use hypershift_lite.Pki.{
  valid_ca, require_ca, signed_secret_up_to_date, annotate_with_ca, sign_certificate,
  reconcile_root_ca, decode_ca, root_ca_cfg,
}
use hypershift_lite.Etcd.Secrets.{reconcile_client_secret}
use hypershift_lite.Reconciler.Certificates.{etcd_client, reconcile_certificate, signed, again}
use hypershift_lite.Pki.Laws.{IsSigned}
use hypershift_lite.Pki.RootCa.{reconcile_root_ca-valid_ca, decode_ca-reconcile_root_ca}

-- The secret that the first call makes from an empty one.
abbrev made_secret : Secret
made_secret = record {
  metadata = record (named "a" "ns") {
    annotations = some (("hypershiftlite.openshift.io/ca-hash", "00") ∷ []);
  };
  type = SecretType.opaque;
  values = some (
      ("etcd-client.crt", 1 ∷ [])
      ∷ ("etcd-client.key", 7 ∷ [])
      ∷ ("etcd-client-ca.crt", 1 ∷ [])
      ∷ []);
}

first_call :
    reconcile_certificate platform crypto etcd_client tt "172.30.0.0/16" empty_secret ca_secret
    ≡ ok made_secret
unfolding reconcile_client_secret require_ca signed_secret_up_to_date sign_certificate
    annotate_with_ca
first_call = refl

signed_example :
    IsSigned crypto ca_secret SecretType.opaque
      ("etcd-client.crt" ∷ "etcd-client.key" ∷ "etcd-client-ca.crt" ∷ [])
      made_secret
signed_example =
    signed platform crypto etcd_client tt "172.30.0.0/16" empty_secret ca_secret first_call

again_example :
    reconcile_certificate platform crypto etcd_client tt "172.30.0.0/16" made_secret ca_secret
    ≡ ok made_secret
again_example =
    again platform crypto etcd_client tt tt "172.30.0.0/16" empty_secret ca_secret first_call

-- A secret with a key and no certificate.
abbrev key_only : Secret
key_only = record ca_secret { values = some (("ca.key", 7 ∷ []) ∷ []) }

unrepaired : reconcile_root_ca crypto tt key_only ≡ ok key_only
unfolding reconcile_root_ca
unrepaired = refl

reconcile_root_ca-valid_ca_example : valid_ca key_only ≡ false
unfolding lookup
reconcile_root_ca-valid_ca_example = reconcile_root_ca-valid_ca crypto tt key_only unrepaired

generated :
    generate_self_signed_certificate crypto tt (root_ca_cfg crypto) ≡ ok (7, certificate (1 ∷ []))
unfolding generate_self_signed_certificate
generated = refl

decode_ca-reconcile_root_ca_example :
    (reconcile_root_ca crypto tt empty_secret >>= decode_ca crypto) ≡ ok (certificate (1 ∷ []), 7)
unfolding lookup
decode_ca-reconcile_root_ca_example =
    decode_ca-reconcile_root_ca crypto tt empty_secret 7 (certificate (1 ∷ []))
      (λ label bytes. refl) refl refl refl generated
