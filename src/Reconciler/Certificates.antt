-- ===== src/Reconciler/Certificates.antt =====
-- The secrets that reconciler.go fills with a certificate that the root CA signs: which function it
-- calls for each, with which keys, and what a successful call leaves.
use hypershift_lite.Prelude.{String, ◌≡◌, refl, sym, true, List, [], ◌∷◌, some, arith, eq_refl}
use hypershift_lite.Prelude.{Bool-cases, inl, inr, if◌then◌else◌}
use mathlib.Core.Path.{subst}
use hypershift_lite.Prelude.Dict.{Dict, insert, entries, lookup-insert}
use hypershift_lite.Prelude.Result.{Result, ok, err, ◌>>=◌, ◌>>◌, Result-cases}
use hypershift_lite.Api.{Secret, SecretType, Bytes, Platform}
use hypershift_lite.Certs.{Crypto}
use hypershift_lite.Pki.{has_keys, valid_ca, annotate_with_ca}
use hypershift_lite.Pki.{signed_secret_up_to_date, require_ca}
use hypershift_lite.Pki.Laws.{IsSigned, annotate-current}
use hypershift_lite.Etcd.Secrets.{
  reconcile_client_secret, reconcile_server_secret, reconcile_peer_secret,
}
use hypershift_lite.Kas.Secrets.{reconcile_server_cert_secret, reconcile_aggregator_cert_secret}
use hypershift_lite.Kcm.Manifests.{reconcile_cluster_signer_secret}

pub data CertSecret : Type 0 where
  etcd_client etcd_server etcd_peer kas_server kas_aggregator kcm_signer : CertSecret

abbrev pub keys_of : CertSecret → List String
keys_of etcd_client = "etcd-client.crt" ∷ "etcd-client.key" ∷ "etcd-client-ca.crt" ∷ []
keys_of etcd_server = "server.crt" ∷ "server.key" ∷ "server-ca.crt" ∷ []
keys_of etcd_peer = "peer.crt" ∷ "peer.key" ∷ "peer-ca.crt" ∷ []
keys_of kas_server = "tls.crt" ∷ "tls.key" ∷ []
keys_of kas_aggregator = "tls.crt" ∷ "tls.key" ∷ []
keys_of kcm_signer = "ca.crt" ∷ "ca.key" ∷ []

abbrev pub type_of : CertSecret → SecretType
type_of kas_server = SecretType.tls
type_of kas_aggregator = SecretType.tls
type_of etcd_client = SecretType.opaque
type_of etcd_server = SecretType.opaque
type_of etcd_peer = SecretType.opaque
type_of kcm_signer = SecretType.opaque

module _ (p : Platform) (c : Crypto) where
  open c use {Env}

  -- The call that the reconciler makes for a secret, with the service CIDR of its spec.
  abbrev pub reconcile_certificate : CertSecret → Env → String → Secret → Secret → Result Secret
  reconcile_certificate etcd_client e cidr s ca = reconcile_client_secret c e s ca
  reconcile_certificate etcd_server e cidr s ca = reconcile_server_secret c e s ca
  reconcile_certificate etcd_peer e cidr s ca = reconcile_peer_secret c e s ca
  reconcile_certificate kas_server e cidr s ca = reconcile_server_cert_secret p c e s ca cidr
  reconcile_certificate kas_aggregator e cidr s ca = reconcile_aggregator_cert_secret c e s ca
  reconcile_certificate kcm_signer e cidr s ca = reconcile_cluster_signer_secret c e s ca

  require-valid : (ca : Secret) → valid_ca ca ≡ true → require_ca ca ≡ ok tt
  unfolding require_ca
  require-valid ca h = rw (h) refl

  -- A secret that is up to date is left as it is.
  pub up_to_date :
      (k : CertSecret) (e : Env) (cidr : String) (s ca : Secret)
      → IsSigned c ca (type_of k) (keys_of k) s
      → reconcile_certificate k e cidr s ca ≡ ok s
  unfolding require_ca reconcile_client_secret reconcile_server_secret reconcile_peer_secret
      reconcile_server_cert_secret reconcile_aggregator_cert_secret reconcile_cluster_signer_secret
  up_to_date etcd_client e cidr s ca h = rw (h.ca_is_valid, sym h.typed, h.current) refl
  up_to_date etcd_server e cidr s ca h = rw (h.ca_is_valid, sym h.typed, h.current) refl
  up_to_date etcd_peer e cidr s ca h = rw (h.ca_is_valid, sym h.typed, h.current) refl
  up_to_date kas_server e cidr s ca h = rw (h.ca_is_valid, sym h.typed, h.current) refl
  up_to_date kas_aggregator e cidr s ca h = rw (h.ca_is_valid, sym h.typed, h.current) refl
  up_to_date kcm_signer e cidr s ca h = rw (h.ca_is_valid, sym h.typed, h.current) refl

  has_three :
      (s : Secret) (a b d : String) (x y z : Bytes) (m : Dict Bytes)
      → s.values ≡ some (insert d z (insert b y (insert a x m)))
      → has_keys s (a ∷ b ∷ d ∷ []) ≡ true
  unfolding has_keys
  has_three s a b d x y z m h = rw (h) (
      ground (
        arith,
        eq_refl a,
        eq_refl b,
        eq_refl d,
        lookup-insert d a z (insert b y (insert a x m)),
        lookup-insert d b z (insert b y (insert a x m)),
        lookup-insert d d z (insert b y (insert a x m)),
        lookup-insert b a y (insert a x m),
        lookup-insert b b y (insert a x m),
        lookup-insert a a x m,
      ))

  has_two :
      (s : Secret) (a b : String) (x y : Bytes) (m : Dict Bytes)
      → s.values ≡ some (insert b y (insert a x m))
      → has_keys s (a ∷ b ∷ []) ≡ true
  unfolding has_keys
  has_two s a b x y m h = rw (h) (
      ground (
        arith,
        eq_refl a,
        eq_refl b,
        lookup-insert b a y (insert a x m),
        lookup-insert b b y (insert a x m),
        lookup-insert a a x m,
      ))

  -- What the six functions share after their first lines.
  finish :
      (ca typed : Secret) (keys : List String) (fill : Bytes × Bytes × Bytes → Dict Bytes)
      (m : Result (Bytes × Bytes × Bytes)) {out : Secret}
      → ((v : Bytes × Bytes × Bytes)
          → has_keys (record typed { values = some (fill v) }) keys ≡ true)
      → (require_ca ca
          >> (if signed_secret_up_to_date c typed ca keys
              then ok typed
              else (m >>= λ v.
                  ok (annotate_with_ca c (record typed { values = some (fill v) }) ca))))
        ≡ ok out
      → IsSigned c ca typed.type keys out
  unfolding require_ca
  finish ca typed keys fill m {out} filled h = elim (Bool-cases (valid_ca ca)) [
    | inr wrong ↦ cc (rw (wrong) at h)
    | inl valid ↦ elim (Bool-cases (signed_secret_up_to_date c typed ca keys)) [
      | inl current ↦
          let same : ok typed ≡ ok out = rw (valid, current) at h in
          let kept : typed ≡ out = cc in
          subst (IsSigned c ca typed.type keys) kept
            (record { ca_is_valid = valid; typed = refl; current = current })
      | inr stale ↦ elim (Result-cases m) [
        | inr (e, failed) ↦ cc (rw (valid, stale, failed) at h)
        | inl (v, made) ↦
            let s : Secret = record typed { values = some (fill v) } in
            let same : ok (annotate_with_ca c s ca) ≡ ok out = rw (valid, stale, made) at h in
            let kept : annotate_with_ca c s ca ≡ out = cc in
            subst (IsSigned c ca typed.type keys) kept (record {
              ca_is_valid = valid;
              typed = unfold annotate_with_ca in refl;
              current = annotate-current c s ca keys (filled v);
            })
      ]
    ]
  ]

  -- A secret that one of the six functions that sign a secret returns has the type and the keys that are asked of it and
  -- carries the hash of the CA, which is valid.
  pub signed :
      (k : CertSecret) (e : Env) (cidr : String) (s ca : Secret) {out : Secret}
      → reconcile_certificate k e cidr s ca ≡ ok out
      → IsSigned c ca (type_of k) (keys_of k) out
  unfolding reconcile_client_secret reconcile_server_secret reconcile_peer_secret
      reconcile_server_cert_secret reconcile_aggregator_cert_secret reconcile_cluster_signer_secret
  signed etcd_client e cidr s ca h =
      finish ca (record s { type = SecretType.opaque }) (keys_of etcd_client)
        (λ v.
          insert "etcd-client-ca.crt" v.2
            (insert "etcd-client.key" v.1 (insert "etcd-client.crt" v.0 (entries s.values))))
        _ (λ v. has_three _ _ _ _ _ _ _ _ refl) h
  signed etcd_server e cidr s ca h =
      finish ca (record s { type = SecretType.opaque }) (keys_of etcd_server)
        (λ v.
          insert "server-ca.crt" v.2
            (insert "server.key" v.1 (insert "server.crt" v.0 (entries s.values))))
        _ (λ v. has_three _ _ _ _ _ _ _ _ refl) h
  signed etcd_peer e cidr s ca h =
      finish ca (record s { type = SecretType.opaque }) (keys_of etcd_peer)
        (λ v.
          insert "peer-ca.crt" v.2
            (insert "peer.key" v.1 (insert "peer.crt" v.0 (entries s.values))))
        _ (λ v. has_three _ _ _ _ _ _ _ _ refl) h
  signed kas_server e cidr s ca h =
      let typed : Secret = record s { type = SecretType.tls } in
      let fill : Bytes × Bytes × Bytes → Dict Bytes =
        λ v. insert "tls.key" v.1 (insert "tls.crt" v.0 (entries s.values)) in
      let filled = λ (v : Bytes × Bytes × Bytes).
        has_two (record typed { values = some (fill v) }) "tls.crt" "tls.key" v.0 v.1
          (entries s.values) refl in
      elim (Result-cases (p.parse_cidr cidr)) [
        | inr (e', failed) ↦
            finish ca typed (keys_of kas_server) fill (err _) filled (rw (failed) at h)
        | inl (network, parsed) ↦
            finish ca typed (keys_of kas_server) fill _ filled (rw (parsed) at h)
      ]
  signed kas_aggregator e cidr s ca h =
      finish ca (record s { type = SecretType.tls }) (keys_of kas_aggregator)
        (λ v. insert "tls.key" v.1 (insert "tls.crt" v.0 (entries s.values))) _
        (λ v. has_two _ _ _ _ _ _ refl) h
  signed kcm_signer e cidr s ca h =
      finish ca (record s { type = SecretType.opaque }) (keys_of kcm_signer)
        (λ v. insert "ca.key" v.1 (insert "ca.crt" v.0 (entries s.values))) _
        (λ v. has_two _ _ _ _ _ _ refl) h

  -- A second call of a function that signs a secret, on what a first one returned and with the same
  -- CA, returns it unchanged, whatever the clock and the random source then give.
  pub again :
      (k : CertSecret) (e later : Env) (cidr : String) (s ca : Secret) {out : Secret}
      → reconcile_certificate k e cidr s ca ≡ ok out
      → reconcile_certificate k later cidr out ca ≡ ok out
  again k e later cidr s ca {out} h = up_to_date k later cidr out ca (signed k e cidr s ca h)
