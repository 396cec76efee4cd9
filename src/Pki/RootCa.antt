-- ===== src/Pki/RootCa.antt =====
-- `ReconcileRootCA` of pki/reconcile.go: what it leaves of a secret, and that a fresh one is read
-- back as it was made.
use hypershift_lite.Prelude.{String, ◌≡◌, refl, ◌∙◌, Bool, true, false, ◌&&◌, some, arith}
use hypershift_lite.Prelude.{Bool-cases, inl, inr, if◌then◌else◌}
use hypershift_lite.Prelude.Dict.{Dict, lookup, insert, entries, has, lookup-insert}
use hypershift_lite.Prelude.Result.{ok, ◌>>=◌, Result-cases}
use hypershift_lite.Api.{Secret, SecretType, Bytes}
use hypershift_lite.Certs.{
  Crypto, Certificate, generate_self_signed_certificate, private_key_to_pem,
}
use hypershift_lite.Certs.{cert_to_pem, pem_to_private_key, pem_to_certificate}
use hypershift_lite.Pki.{has_keys, valid_ca, reconcile_root_ca, root_ca_cfg, decode_ca, value_of}
use mathlib.Core.Path.{subst}

module _ (c : Crypto) where
  open c use {Env, PrivateKey}

  -- A secret with the CA's certificate and key.
  abbrev filled : Secret → PrivateKey → Certificate → Secret
  filled s key crt = record s {
    type = SecretType.opaque;
    values = some (
        insert "ca.key" (private_key_to_pem c key)
          (insert "ca.crt" (cert_to_pem c crt) (entries s.values)));
  }

  filled-valid_ca :
      (s : Secret) (key : PrivateKey) (crt : Certificate) → valid_ca (filled s key crt) ≡ true
  unfolding valid_ca has_keys
  filled-valid_ca s key crt = ground (
    arith,
    lookup-insert "ca.key" "ca.crt" (private_key_to_pem c key)
        (insert "ca.crt" (cert_to_pem c crt) (entries s.values)),
    lookup-insert "ca.key" "ca.key" (private_key_to_pem c key)
        (insert "ca.crt" (cert_to_pem c crt) (entries s.values)),
    lookup-insert "ca.crt" "ca.crt" (cert_to_pem c crt) (entries s.values),
  )

  abbrev pub has_value : String → Secret → Bool
  has_value key s = has key (entries s.values)

  and_one : (b : Bool) → (b && true) ≡ b
  and_one true = refl
  and_one false = refl

  -- A secret that ReconcileRootCA returns is a valid CA, unless it had a key and no certificate
  -- before: then it is returned without a certificate, and it is no valid CA.
  pub reconcile_root_ca-valid_ca :
      (e : Env) (s : Secret) {out : Secret}
      → reconcile_root_ca c e s ≡ ok out
      → valid_ca out ≡ (if has_value "ca.key" s then has_value "ca.crt" s else true)
  unfolding reconcile_root_ca has_keys
  reconcile_root_ca-valid_ca e s {out} h = elim (Bool-cases (has_value "ca.key" s)) [
    | inl with_key ↦
        let same : ok (record s { type = SecretType.opaque }) ≡ ok out = rw (with_key) at h in
        let kept : record s { type = SecretType.opaque } ≡ out = cc in
        subst
          (λ (o : Secret).
            valid_ca o ≡ (if has_value "ca.key" s then has_value "ca.crt" s else true))
          kept (unfold valid_ca in rw (with_key) (and_one (has_value "ca.crt" s)))
    | inr without ↦ elim (Result-cases (generate_self_signed_certificate c e (root_ca_cfg c))) [
      | inr (_, failed) ↦ cc (rw (without, failed) at h)
      | inl ((key, crt), made) ↦
          let same : ok (filled s key crt) ≡ ok out = rw (without, made) at h in
          let kept : filled s key crt ≡ out = cc in
          subst
            (λ (o : Secret).
              valid_ca o ≡ (if has_value "ca.key" s then has_value "ca.crt" s else true))
            kept (rw (without) (filled-valid_ca s key crt))
    ]
  ]

  value_of-insert :
      (k : String) (bytes : Bytes) (s : Secret) (m : Dict Bytes)
      → s.values ≡ some m
      → lookup k m ≡ some bytes
      → value_of k s ≡ bytes
  unfolding value_of
  value_of-insert k bytes s m e h = rw (value_of, e, h) refl

  certificate-pem :
      (crt : Certificate)
      → ((label : String) (bytes : Bytes) → c.pem_decode (c.pem_encode label bytes) ≡ some bytes)
      → c.parse_certificate crt.raw ≡ ok crt
      → pem_to_certificate c (cert_to_pem c crt) ≡ ok crt
  unfolding pem_to_certificate cert_to_pem
  certificate-pem crt pem h =
      rw (pem_to_certificate, cert_to_pem, pem "CERTIFICATE" crt.raw, h) refl

  private_key-pem :
      (key : PrivateKey)
      → ((label : String) (bytes : Bytes) → c.pem_decode (c.pem_encode label bytes) ≡ some bytes)
      → c.parse_private_key (c.marshal_private_key key) ≡ ok key
      → pem_to_private_key c (private_key_to_pem c key) ≡ ok key
  unfolding pem_to_private_key private_key_to_pem
  private_key-pem key pem h =
      rw
        (
          pem_to_private_key,
          private_key_to_pem,
          pem "RSA PRIVATE KEY" (c.marshal_private_key key),
          h,
        )
        refl

  -- A secret with a PEM-encoded certificate and key is decoded to them.
  decode_ca-filled :
      (s : Secret) (key : PrivateKey) (crt : Certificate)
      → ((label : String) (bytes : Bytes) → c.pem_decode (c.pem_encode label bytes) ≡ some bytes)
      → c.parse_private_key (c.marshal_private_key key) ≡ ok key
      → c.parse_certificate crt.raw ≡ ok crt
      → decode_ca c (filled s key crt) ≡ ok (crt, key)
  unfolding decode_ca
  decode_ca-filled s key crt pem keys certs =
      let m = insert "ca.crt" (cert_to_pem c crt) (entries s.values) in
      let found_crt : lookup "ca.crt" (insert "ca.key" (private_key_to_pem c key) m)
          ≡ some (cert_to_pem c crt) =
        lookup-insert "ca.key" "ca.crt" (private_key_to_pem c key) m
        ∙ lookup-insert "ca.crt" "ca.crt" (cert_to_pem c crt) (entries s.values) in
      let found_key : lookup "ca.key" (insert "ca.key" (private_key_to_pem c key) m)
          ≡ some (private_key_to_pem c key) =
        lookup-insert "ca.key" "ca.key" (private_key_to_pem c key) m in
      rw
        (
          value_of-insert "ca.crt" _ (filled s key crt) _ refl found_crt,
          value_of-insert "ca.key" _ (filled s key crt) _ refl found_key,
        )
        (rw (certificate-pem crt pem certs, private_key-pem key pem keys) refl)

  -- A root CA secret that ReconcileRootCA fills with a generated key and certificate is decoded to
  -- that certificate and key, provided that PEM blocks, keys and this certificate are read back as
  -- they were written.
  pub decode_ca-reconcile_root_ca :
      (e : Env) (s : Secret) (key : PrivateKey) (crt : Certificate)
      → ((label : String) (bytes : Bytes) → c.pem_decode (c.pem_encode label bytes) ≡ some bytes)
      → c.parse_private_key (c.marshal_private_key key) ≡ ok key
      → c.parse_certificate crt.raw ≡ ok crt
      → has_value "ca.key" s ≡ false
      → generate_self_signed_certificate c e (root_ca_cfg c) ≡ ok (key, crt)
      → (reconcile_root_ca c e s >>= decode_ca c) ≡ ok (crt, key)
  unfolding reconcile_root_ca has_keys
  decode_ca-reconcile_root_ca e s key crt pem keys certs without made =
      rw (without, made) (decode_ca-filled s key crt pem keys certs)
