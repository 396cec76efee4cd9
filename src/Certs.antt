-- ===== src/Certs.antt =====
-- pkg/certs/util.go: key pairs and certificates. What the Go standard library does is the parameter
-- `Crypto`; its `Env` is what a call reads of the clock and of the random source.
use hypershift_lite.Prelude.{
  ℕ, String, ◌+◌, ◌-◌, ◌*◌, ◌^◌, Bool, true, List, [], ◌∷◌, Option, none, some,
}
use hypershift_lite.Prelude.{◌||◌, ◌==◌, if◌then◌else◌}
use hypershift_lite.Prelude.Result.{Result, ok, err, message, panic, context, ◌>>=◌}
use hypershift_lite.Api.Objects.{Bytes}

-- x509.KeyUsage as the list of its bits, and x509.ExtKeyUsage.
pub data KeyUsage : Type 0 where
  key_encipherment digital_signature cert_sign : KeyUsage

pub data ExtKeyUsage : Type 0 where
  server_auth client_auth : ExtKeyUsage

-- pkix.Name
pub record SubjectName : Type 0 where
  pub common_name : String
  pub organization : List String
  pub organizational_unit : List String

pub record RsaPublicKey : Type 0 where
  pub n : ℕ
  pub e : ℕ

-- crypto.PublicKey: `ecdsa` has a curve and a point.
pub data PublicKey : Type 0 where
  rsa : RsaPublicKey → PublicKey
  ecdsa : ℕ → ℕ → ℕ → PublicKey
  other : PublicKey

-- x509.Certificate, as a template and as it is parsed.
pub record Certificate : Type 0 where
  pub raw : Bytes
  pub version : ℕ
  pub dns_names : List String
  pub ip_addresses : List Bytes
  pub key_usages : List KeyUsage
  pub ext_key_usages : List ExtKeyUsage
  pub not_before : ℕ
  pub not_after : ℕ
  pub serial_number : ℕ
  pub subject : SubjectName
  pub is_ca : Bool
  pub basic_constraints_valid : Bool
  pub subject_key_id : Bytes
  pub public_key : PublicKey

-- x509.CertificateRequest, as a template and as it is parsed.
pub record CertificateRequest : Type 0 where
  pub raw : Bytes
  pub subject : SubjectName
  pub dns_names : List String
  pub ip_addresses : List Bytes

pub record CertCfg : Type 0 where
  pub dns_names : List String
  pub ext_key_usages : List ExtKeyUsage
  pub ip_addresses : List Bytes
  pub key_usages : List KeyUsage
  pub subject : SubjectName
  pub validity : ℕ
  pub is_ca : Bool

pub record Crypto : Type 1 where
  pub Env : Type 0
  pub PrivateKey : Type 0
  -- the i-th reading of the clock in a call
  pub clock : Env → ℕ → ℕ
  pub generate_key : Env → ℕ → Result PrivateKey
  -- a random number below the bound
  pub random_int : Env → ℕ → Result ℕ
  pub public : PrivateKey → RsaPublicKey
  pub create_request : Env → CertificateRequest → PrivateKey → Result Bytes
  pub parse_request : Bytes → Result CertificateRequest
  -- the template, the parent, the subject's public key and the signer's private key
  pub create_certificate : Env → Certificate → Certificate → PublicKey → PrivateKey → Result Bytes
  pub parse_certificate : Bytes → Result Certificate
  pub marshal_asn1 : RsaPublicKey → Result Bytes
  pub marshal_point : ℕ → ℕ → ℕ → Bytes
  pub sha1 : Bytes → Bytes
  -- fmt.Sprintf("%x", md5.Sum(bytes))
  pub md5_hex : Bytes → String
  pub marshal_private_key : PrivateKey → Bytes
  pub parse_private_key : Bytes → Result PrivateKey
  pub marshal_public_key : RsaPublicKey → Result Bytes
  pub pem_encode : String → Bytes → Bytes
  -- the bytes of the first block
  pub pem_decode : Bytes → Option Bytes
  -- base64.StdEncoding.EncodeToString
  pub base64_encode : Bytes → String

abbrev pub key_size : ℕ
key_size = 2048

-- Durations are in nanoseconds.
abbrev pub validity_one_day : ℕ
validity_one_day = 24 * 3600 * 10 ^ 9

abbrev pub validity_one_year : ℕ
validity_one_year = 365 * validity_one_day

abbrev pub validity_ten_years : ℕ
validity_ten_years = 10 * validity_one_year

abbrev max_int64 : ℕ
max_int64 = 2 ^ 63 - 1

abbrev no_units : List String → Bool
no_units [] = true
no_units (_ ∷ _) = Bool.false

module _ (c : Crypto) where
  open c use {Env, PrivateKey}

  unfoldable pub private_key : Env → Result PrivateKey
  private_key e = context "error generating RSA private key" (c.generate_key e key_size)

  unfoldable pub generate_subject_key_id : PublicKey → Result Bytes
  generate_subject_key_id (rsa pub_key) = do
    bytes ← context "failed to Marshal ans1 public key" (c.marshal_asn1 pub_key)
    ok (c.sha1 bytes)
  generate_subject_key_id (ecdsa curve x y) = ok (c.sha1 (c.marshal_point curve x y))
  generate_subject_key_id other = err (message "only RSA and ECDSA public keys supported")

  -- The template of a self-signed certificate, before its subject key identifier is set.
  abbrev self_template : Env → CertCfg → ℕ → Certificate
  self_template e cfg serial = record {
    raw = [];
    version = 0;
    dns_names = [];
    ip_addresses = [];
    key_usages = cfg.key_usages;
    ext_key_usages = [];
    not_before = c.clock e 1;
    not_after = c.clock e 0 + cfg.validity;
    serial_number = serial;
    subject = cfg.subject;
    is_ca = cfg.is_ca;
    basic_constraints_valid = true;
    subject_key_id = [];
    public_key = other;
  }

  unfoldable pub self_signed_certificate : Env → CertCfg → PrivateKey → Result Certificate
  unfolding generate_subject_key_id
  self_signed_certificate e cfg key = do
    serial ← c.random_int e max_int64
    if cfg.subject.common_name == "" || no_units cfg.subject.organizational_unit
        then err (message "certification's subject is not set, or invalid")
        else do
          id ←
              context "failed to set subject key identifier"
                (generate_subject_key_id (rsa (c.public key)))
          let cert = record (self_template e cfg serial) { subject_key_id = id }
          bytes ←
              context "failed to create certificate"
                (c.create_certificate e cert cert (rsa (c.public key)) key)
          c.parse_certificate bytes

  unfoldable pub generate_self_signed_certificate :
      Env → CertCfg → Result (PrivateKey × Certificate)
  unfolding private_key self_signed_certificate
  generate_self_signed_certificate e cfg = do
    key ← context "failed to generate private key" (private_key e)
    crt ← context "failed to create self-signed certificate" (self_signed_certificate e cfg key)
    ok (key, crt)

  -- `caCert.PublicKey.(*rsa.PublicKey)` panics if the key is of another type.
  unfoldable pub as_rsa : PublicKey → Result RsaPublicKey
  as_rsa (rsa k) = ok k
  as_rsa (ecdsa _ _ _) = err (panic "interface conversion: interface {} is not *rsa.PublicKey")
  as_rsa other = err (panic "interface conversion: interface {} is not *rsa.PublicKey")

  -- The template of a certificate that `ca_cert` signs. Its subject key identifier is that of the
  -- signer's key.
  unfoldable pub signed_template :
      Env → CertCfg → CertificateRequest → Certificate → ℕ → Bytes → Certificate
  signed_template e cfg csr ca_cert serial id = record {
    raw = [];
    version = 3;
    dns_names = csr.dns_names;
    ip_addresses = csr.ip_addresses;
    key_usages = cfg.key_usages;
    ext_key_usages = cfg.ext_key_usages;
    not_before = ca_cert.not_before;
    not_after = c.clock e 0 + cfg.validity;
    serial_number = serial;
    subject = csr.subject;
    is_ca = cfg.is_ca;
    basic_constraints_valid = true;
    subject_key_id = id;
    public_key = other;
  }

  unfoldable pub signed_certificate :
      Env
      → CertCfg
      → CertificateRequest
      → PrivateKey
      → Certificate
      → PrivateKey
      → Result Certificate
  unfolding as_rsa generate_subject_key_id signed_template
  signed_certificate e cfg csr key ca_cert ca_key = do
    serial ← c.random_int e max_int64
    ca_pub ← as_rsa ca_cert.public_key
    id ← context "failed to set subject key identifier" (generate_subject_key_id (rsa ca_pub))
    bytes ← context "failed to create x509 certificate" (
        c.create_certificate e (signed_template e cfg csr ca_cert serial id) ca_cert
          (rsa (c.public key)) ca_key)
    c.parse_certificate bytes

  unfoldable pub generate_signed_certificate :
      Env → PrivateKey → Certificate → CertCfg → Result (PrivateKey × Certificate)
  unfolding private_key signed_certificate
  generate_signed_certificate e ca_key ca_cert cfg = do
    key ← context "failed to generate private key" (private_key e)
    let template : CertificateRequest = record {
      raw = [];
      subject = cfg.subject;
      dns_names = cfg.dns_names;
      ip_addresses = cfg.ip_addresses;
    }
    csr_bytes ← context "failed to create certificate request" (c.create_request e template key)
    csr ← context "error parsing x509 certificate request" (c.parse_request csr_bytes)
    cert ←
        context "failed to create a signed certificate"
          (signed_certificate e cfg csr key ca_cert ca_key)
    ok (key, cert)

  unfoldable pub private_key_to_pem : PrivateKey → Bytes
  private_key_to_pem key = c.pem_encode "RSA PRIVATE KEY" (c.marshal_private_key key)

  unfoldable pub cert_to_pem : Certificate → Bytes
  cert_to_pem cert = c.pem_encode "CERTIFICATE" cert.raw

  unfoldable pub csr_to_pem : CertificateRequest → Bytes
  csr_to_pem csr = c.pem_encode "CERTIFICATE REQUEST" csr.raw

  unfoldable pub public_key_to_pem : RsaPublicKey → Result Bytes
  public_key_to_pem key = do
    bytes ← context "failed to MarshalPKIXPublicKey" (c.marshal_public_key key)
    ok (c.pem_encode "RSA PUBLIC KEY" bytes)

  unfoldable pub pem_to_private_key : Bytes → Result PrivateKey
  pem_to_private_key bytes = elim (c.pem_decode bytes) [
    | none ↦ err (message "could not find a PEM block in the private key")
    | some block ↦ c.parse_private_key block
  ]

  unfoldable pub pem_to_certificate : Bytes → Result Certificate
  pem_to_certificate bytes = elim (c.pem_decode bytes) [
    | none ↦ err (message "could not find a PEM block in the certificate")
    | some block ↦ c.parse_certificate block
  ]

  unfoldable pub base64 : Bytes → String
  base64 bytes = c.base64_encode bytes
