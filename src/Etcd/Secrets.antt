-- ===== src/Etcd/Secrets.antt =====
-- The certificate secrets of pkg/controllers/kubeservice/etcd/reconcile.go.
use hypershift_lite.Prelude.{String, false, ◌<>◌, List, [], ◌∷◌, some, if◌then◌else◌}
use hypershift_lite.Prelude.Dict.{insert, entries}
use hypershift_lite.Prelude.Result.{Result, ok, context, ◌>>=◌, ◌>>◌}
use hypershift_lite.Api.{Secret, SecretType}
use hypershift_lite.Certs.{Crypto, CertCfg, key_encipherment, digital_signature, server_auth}
use hypershift_lite.Certs.{client_auth, validity_one_year}
use hypershift_lite.Pki.{require_ca, signed_secret_up_to_date, sign_certificate, annotate_with_ca}

abbrev pub client_crt_key : String
client_crt_key = "etcd-client.crt"

abbrev pub client_key_key : String
client_key_key = "etcd-client.key"

abbrev pub client_ca_key : String
client_ca_key = "etcd-client-ca.crt"

abbrev pub server_crt_key : String
server_crt_key = "server.crt"

abbrev pub server_key_key : String
server_key_key = "server.key"

abbrev pub server_ca_key : String
server_ca_key = "server-ca.crt"

abbrev pub peer_crt_key : String
peer_crt_key = "peer.crt"

abbrev pub peer_key_key : String
peer_key_key = "peer.key"

abbrev pub peer_ca_key : String
peer_ca_key = "peer-ca.crt"

unfoldable pub client_cfg : CertCfg
client_cfg = record {
  dns_names = [];
  ext_key_usages = client_auth ∷ [];
  ip_addresses = [];
  key_usages = key_encipherment ∷ digital_signature ∷ [];
  subject = record {
    common_name = "etcd-client";
    organization = "kubernetes" ∷ [];
    organizational_unit = [];
  };
  validity = validity_one_year;
  is_ca = false;
}

-- The configuration of the server's certificate in a namespace.
unfoldable pub server_cfg : String → CertCfg
server_cfg namespace = record {
  dns_names =
      ("*.etcd." <> namespace <> ".svc")
      ∷ ("etcd-client." <> namespace <> ".svc")
      ∷ ("*.etcd." <> namespace <> ".svc.cluster.local")
      ∷ ("etcd-client." <> namespace <> ".svc.cluster.local")
      ∷ "etcd"
      ∷ "etcd-client"
      ∷ "localhost"
      ∷ [];
  ext_key_usages = server_auth ∷ client_auth ∷ [];
  ip_addresses = [];
  key_usages = key_encipherment ∷ digital_signature ∷ [];
  subject = record {
    common_name = "etcd-server";
    organization = "kubernetes" ∷ [];
    organizational_unit = [];
  };
  validity = validity_one_year;
  is_ca = false;
}

unfoldable pub peer_cfg : String → CertCfg
peer_cfg namespace = record {
  dns_names =
      ("*.etcd." <> namespace <> ".svc") ∷ ("*.etcd." <> namespace <> ".svc.cluster.local") ∷ [];
  ext_key_usages = server_auth ∷ client_auth ∷ [];
  ip_addresses = [];
  key_usages = key_encipherment ∷ digital_signature ∷ [];
  subject = record {
    common_name = "etcd-peer";
    organization = "kubernetes" ∷ [];
    organizational_unit = [];
  };
  validity = validity_one_year;
  is_ca = false;
}

module _ (c : Crypto) where
  open c use {Env}

  unfoldable pub reconcile_client_secret : Env → Secret → Secret → Result Secret
  unfolding client_cfg
  reconcile_client_secret e secret ca = do
    require_ca ca
    let expected_keys : List String = client_crt_key ∷ client_key_key ∷ client_ca_key ∷ []
    let typed : Secret = record secret { type = SecretType.opaque }
    if signed_secret_up_to_date c typed ca expected_keys then ok typed else do
      (crt, key, ca_crt) ← context "error signing secret" (sign_certificate c e client_cfg ca)
      let values = insert client_crt_key crt (entries typed.values)
      let values' = insert client_ca_key ca_crt (insert client_key_key key values)
      ok (annotate_with_ca c (record typed { values = some values' }) ca)

  unfoldable pub reconcile_server_secret : Env → Secret → Secret → Result Secret
  unfolding server_cfg
  reconcile_server_secret e secret ca = do
    require_ca ca
    let typed : Secret = record secret { type = SecretType.opaque }
    let expected_keys : List String = server_crt_key ∷ server_key_key ∷ server_ca_key ∷ []
    if signed_secret_up_to_date c typed ca expected_keys then ok typed else do
      let cfg = server_cfg secret.metadata.namespace
      (crt, key, ca_crt) ← context "error signing secret" (sign_certificate c e cfg ca)
      let values = insert server_crt_key crt (entries typed.values)
      let values' = insert server_ca_key ca_crt (insert server_key_key key values)
      ok (annotate_with_ca c (record typed { values = some values' }) ca)

  unfoldable pub reconcile_peer_secret : Env → Secret → Secret → Result Secret
  unfolding peer_cfg
  reconcile_peer_secret e secret ca = do
    require_ca ca
    let typed : Secret = record secret { type = SecretType.opaque }
    let expected_keys : List String = peer_crt_key ∷ peer_key_key ∷ peer_ca_key ∷ []
    if signed_secret_up_to_date c typed ca expected_keys then ok typed else do
      let cfg = peer_cfg secret.metadata.namespace
      (crt, key, ca_crt) ← context "error signing secret" (sign_certificate c e cfg ca)
      let values = insert peer_crt_key crt (entries typed.values)
      let values' = insert peer_ca_key ca_crt (insert peer_key_key key values)
      ok (annotate_with_ca c (record typed { values = some values' }) ca)
