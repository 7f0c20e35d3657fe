-- ===== src/World/Cryptography.antt =====
-- `crypto/rand`, `crypto/rsa`, `crypto/x509` and `encoding/pem`, as controllers/mTLS.go uses them.
use dex_operator.Common.{ℕ, List, Bool, Option, Str, Action}

pub record PrivateKey : Type 0 where
  pub material : Str

pub data ExtKeyUsage : Type 0 where
  client_auth server_auth : ExtKeyUsage

pub data KeyUsage : Type 0 where
  digital_signature key_encipherment cert_sign : KeyUsage

-- `pkix.Name`
pub record Subject : Type 0 where
  pub organization : List Str
  pub country : List Str
  pub common_name : Str

-- The template of an `x509.Certificate`. A failed `rand.Int` leaves no serial number.
pub record Certificate : Type 0 where
  pub serial_number : Option ℕ
  pub subject : Subject
  pub ip_addresses : List Str
  pub dns_names : List Str
  pub not_before : ℕ
  pub not_after : ℕ
  pub is_ca : Bool
  pub subject_key_id : List ℕ
  pub ext_key_usage : List ExtKeyUsage
  pub key_usage : List KeyUsage
  pub basic_constraints_valid : Bool

pub record Crypto (S : Type 0) : Type 0 where
  -- `rand.Int` below the limit
  pub rand_int : ℕ → S → Option ℕ × S
  pub generate_key : ℕ → Action S PrivateKey
  pub public_key : PrivateKey → Str
  -- `x509.CreateCertificate`: the template, its parent, the public key and the signer
  pub create_certificate : Certificate → Certificate → Str → PrivateKey → Action S Str
  -- `pem.Encode` of a block with this type
  pub pem_encode : Str → Str → Str
  pub marshal_private_key : PrivateKey → Str
