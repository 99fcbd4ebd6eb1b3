-- ===== src/Registration/Certificates/Reading.antt =====
-- How the buffers of `generateCert` are read: the documented behaviour of the packages of crypto, and
-- what a client and a server check of the certificates.
use resourcelimiter.Prelude.{
  String, ℕ, ◌<◌, ◌≡◌, Bool, true, false, ◌||◌, Option, some, List, [], ◌∷◌, ◌==◌,
}
use resourcelimiter.Controller.Exec.{Post}
use resourcelimiter.Registration.Certificates.{Certificate, Crypto, Pems}

abbrev pub has : String → List String → Bool
has name [] = false
has name (n ∷ names) = name == n || has name names

-- A certificate as `x509.ParseCertificate` gives it: the fields, the key, and the subject of the
-- issuer.
pub record Parsed (X : Crypto) : Type 0 where
  pub fields : Certificate X.Time
  pub public : X.PublicKey
  pub issuer_organization : List String
  pub issuer_common_name : String

-- The other side: `pem.Decode`, the parsers of package x509, and `CheckSignature` by a key. Times in
-- a certificate have whole seconds; `time` is the clock, which does not go back, and `Before` means
-- not after.
pub record Reader (X : Crypto) : Type 1 where
  pub pem_decode : X.Buffer → Option (String × X.Der)
  pub parse_certificate : X.Der → Option (Parsed X)
  pub parse_private_key : X.Der → Option X.PrivateKey
  pub is_signed_by : X.Der → X.PublicKey → Bool
  pub whole : X.Time → X.Time
  pub time : X.Source → X.Time
  pub Before : X.Time → X.Time → Type 0

module _ (X : Crypto) (R : Reader X) where
  open X use {Source, Time, PublicKey, Der}
  open R use {Before, time, whole}

  -- What a certificate that is made from a template is parsed to.
  abbrev pub parsed_from : Certificate Time → Certificate Time → PublicKey → Parsed X
  parsed_from template parent public = record {
    fields = record template {
      not_before = whole template.not_before;
      not_after = whole template.not_after;
    };
    public = public;
    issuer_organization = parent.organization;
    issuer_common_name = parent.common_name;
  }

  -- Documented behaviour of encoding/pem, crypto/x509 and time.
  pub record IsCrypto (Flaky : Type 0) : Type 0 where
    pub generate_key_law :
        (bits : ℕ) (s : Source)
        → Post (λ _ t. Before (time s) (time t)) (λ _ _. Flaky) (X.generate_key bits s)
    pub create_law :
        (template parent : Certificate Time) (public : PublicKey) (signer : X.PrivateKey)
        (s : Source)
        → 0 < template.serial_number
        → Post
            (λ der t.
              Before (time s) (time t)
              × (R.parse_certificate der ≡ some (parsed_from template parent public))
              × (R.is_signed_by der (X.public_key signer) ≡ true))
            (λ _ _. Flaky)
            (X.create_certificate template parent public signer s)
    pub pem_law :
        (kind : String) (der : Der) → R.pem_decode (X.pem_encode kind der) ≡ some (kind, der)
    pub private_key_law :
        (key : X.PrivateKey) → R.parse_private_key (X.marshal_private_key key) ≡ some key
    pub before_now : (s : Source) → Before (time s) (X.now s).0
    pub after_now : (s : Source) → Before (X.now s).0 (time (X.now s).1)
    pub whole_law : (t : Time) → Before (whole t) t
    pub before_trans : (t u v : Time) → Before t u → Before u v → Before t v

  -- Valid at the end `t` of a call that began at `s`, and until two years after a time between.
  pub record IsValid (s t : Source) (c : Certificate Time) : Type 0 where
    pub begun : Before c.not_before (time t)
    pub read : Time
    pub since : Before (time s) read
    pub until : Before read (time t)
    pub expires : c.not_after ≡ whole (X.add_date read 2 0 0)

  -- What a client and a server check of the three buffers: that they hold what they are to hold, that
  -- the CA may sign and has signed both certificates, that the server's is issued by it, for these
  -- names and for servers, and is not of a CA, that the private key is that of the certificate, and
  -- the validity.
  pub record IsIssued (dns_names : List String) (s t : Source) (pems : Pems X) : Type 0 where
    pub ca_der : Der
    pub cert_der : Der
    pub key_der : Der
    pub ca : Parsed X
    pub cert : Parsed X
    pub key : X.PrivateKey
    pub ca_decoded : R.pem_decode pems.ca_pem ≡ some ("CERTIFICATE", ca_der)
    pub cert_decoded : R.pem_decode pems.cert_pem ≡ some ("CERTIFICATE", cert_der)
    pub key_decoded : R.pem_decode pems.cert_key_pem ≡ some ("RSA PRIVATE KEY", key_der)
    pub ca_parsed : R.parse_certificate ca_der ≡ some ca
    pub cert_parsed : R.parse_certificate cert_der ≡ some cert
    pub key_parsed : R.parse_private_key key_der ≡ some key
    pub is_ca : ca.fields.is_ca ≡ true
    pub constrained : ca.fields.basic_constraints_valid ≡ true
    pub may_sign : has "CertSign" ca.fields.key_usage ≡ true
    pub ca_signed : R.is_signed_by ca_der ca.public ≡ true
    pub cert_signed : R.is_signed_by cert_der ca.public ≡ true
    pub organization : cert.issuer_organization ≡ ca.fields.organization
    pub common_name : cert.issuer_common_name ≡ ca.fields.common_name
    pub leaf : cert.fields.is_ca ≡ false
    pub names : cert.fields.dns_names ≡ dns_names
    pub serves : has "ServerAuth" cert.fields.ext_key_usage ≡ true
    pub paired : X.public_key key ≡ cert.public
    pub ca_valid : IsValid s t ca.fields
    pub cert_valid : IsValid s t cert.fields
