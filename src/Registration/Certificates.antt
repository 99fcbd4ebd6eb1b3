-- ===== src/Registration/Certificates.antt =====
-- `generateCert` of pkg/cmd/cert.go. The packages of crypto and the clock are parameters.
pub mod Reading
pub mod Laws
use resourcelimiter.Prelude.{String, ℕ, Bool, true, false, ◌||◌, List, [], ◌∷◌, ◌==◌}
use resourcelimiter.Controller.Exec.{Outcome, ok, Exec, pure, raise, handle, ◌>>=◌}

-- `x509.Certificate`, as far as it is filled in.
pub record Certificate (Time : Type 0) : Type 0 where
  pub serial_number : ℕ
  pub organization : List String
  pub common_name : String
  pub dns_names : List String
  pub not_before : Time
  pub not_after : Time
  pub is_ca : Bool
  pub ext_key_usage : List String
  pub key_usage : List String
  pub basic_constraints_valid : Bool

-- What is called: the random source and the clock are the state.
pub record Crypto : Type 1 where
  pub Source : Type 0
  pub Time : Type 0
  pub PrivateKey : Type 0
  pub PublicKey : Type 0
  -- The bytes of a certificate or of a key, and `bytes.Buffer` with the bytes that are in it.
  pub Der : Type 0
  pub Buffer : Type 0
  pub bytes : Buffer → String
  pub now : Source → Time × Source
  -- The years, months and days.
  pub add_date : Time → ℕ → ℕ → ℕ → Time
  pub generate_key : ℕ → Exec Source PrivateKey
  pub public_key : PrivateKey → PublicKey
  -- The template, the parent, the key that is certified, and the key that signs.
  pub create_certificate :
      Certificate Time → Certificate Time → PublicKey → PrivateKey → Exec Source Der
  pub marshal_private_key : PrivateKey → Der
  -- What `pem.Encode` writes into an empty buffer for the type of a block and its bytes.
  pub pem_encode : String → Der → Buffer

-- The buffers with the certificate of the CA, with that of the server, and with its key.
pub record Pems (X : Crypto) : Type 0 where
  pub ca_pem : X.Buffer
  pub cert_pem : X.Buffer
  pub cert_key_pem : X.Buffer

module _ (X : Crypto) where
  open X use {Source, Time, now, add_date, generate_key, public_key, create_certificate, pem_encode}

  abbrev pub clock : Exec Source Time
  clock s = let (t, s') = now s in (ok t, s')

  -- The two templates, for the times at which the clock is read.
  abbrev pub ca_template : List String → Time → Time → Certificate Time
  ca_template orgs before after = record {
    serial_number = 2022;
    organization = orgs;
    common_name = "";
    dns_names = [];
    not_before = before;
    not_after = add_date after 2 0 0;
    is_ca = true;
    ext_key_usage = "ClientAuth" ∷ "ServerAuth" ∷ [];
    key_usage = "DigitalSignature" ∷ "CertSign" ∷ [];
    basic_constraints_valid = true;
  }

  abbrev pub cert_template : List String → List String → String → Time → Time → Certificate Time
  cert_template orgs dns_names common_name before after = record {
    serial_number = 1024;
    organization = orgs;
    common_name = common_name;
    dns_names = dns_names;
    not_before = before;
    not_after = add_date after 2 0 0;
    is_ca = false;
    ext_key_usage = "ClientAuth" ∷ "ServerAuth" ∷ [];
    key_usage = "DigitalSignature" ∷ [];
    basic_constraints_valid = false;
  }

  unfoldable pub generate_cert : List String → List String → String → Exec Source (Pems X)
  generate_cert orgs dns_names common_name = do
    ca_before ← clock
    ca_after ← clock
    let ca = ca_template orgs ca_before ca_after
    ca_private_key ← generate_key 4096
    ca_bytes ← create_certificate ca ca (public_key ca_private_key) ca_private_key
    cert_before ← clock
    cert_after ← clock
    let new_cert = cert_template orgs dns_names common_name cert_before cert_after
    new_private_key ← generate_key 4096
    new_cert_bytes ← create_certificate new_cert ca (public_key new_private_key) ca_private_key
    pure (record {
      ca_pem = pem_encode "CERTIFICATE" ca_bytes;
      cert_pem = pem_encode "CERTIFICATE" new_cert_bytes;
      cert_key_pem = pem_encode "RSA PRIVATE KEY" (X.marshal_private_key new_private_key);
    })
