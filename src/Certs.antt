-- ===== src/Certs.antt =====
-- The certificates of the mutual TLS connection, controllers/mTLS.go.
pub mod Chain
use dex_operator.Common.{
  total, ◌>>=◌, ℕ, ◌+◌, ◌*◌, Str, List, [], ◌∷◌, ◌++◌, Bool, true, false, Option, some, lit, Action,
  pure, ltb,
}
use Prim.Native.Nat.{◌^◌}
use dex_operator.World.{
  World, PrivateKey, Certificate, Subject, client_auth, server_auth, digital_signature,
  key_encipherment, cert_sign,
}

-- Durations in nanoseconds
abbrev pub hour : ℕ
hour = 3600 * 1_000_000_000

abbrev pub cert_duration : ℕ
cert_duration = hour * 24

abbrev pub cert_renewal_window : ℕ
cert_renewal_window = hour * 2

abbrev private_key_size : ℕ
private_key_size = 2048

abbrev serial_number_limit : ℕ
serial_number_limit = 2 ^ 128

abbrev pub grpc_service_name : Str
grpc_service_name = lit "grpc"

pub record MtlsCerts : Type 0 where
  pub ca_pem : Str
  pub ca_priv_key_pem : Str
  pub cert_pem : Str
  pub cert_priv_key_pem : Str
  pub client_pem : Str
  pub client_priv_key_pem : Str
  pub expiry : ℕ

unfoldable pub get_service_name : Str → Str
get_service_name ns = grpc_service_name ++ lit "." ++ ns ++ lit ".svc.cluster.local"

abbrev subject_of : Str → Subject
subject_of ns = record {
  organization = lit "Red Hat, Inc." ∷ [];
  country = lit "US" ∷ [];
  common_name = get_service_name ns;
}

-- `net.IPv4(127, 0, 0, 1)` and `net.IPv6loopback`, as text
abbrev loopback : List Str
loopback = lit "127.0.0.1" ∷ lit "::1" ∷ []

unfoldable pub ca_template : Str → ℕ → Option ℕ → Certificate
ca_template ns now serial = record {
  serial_number = serial;
  subject = subject_of ns;
  ip_addresses = [];
  dns_names = [];
  not_before = now;
  not_after = now + cert_duration;
  is_ca = true;
  subject_key_id = [];
  ext_key_usage = client_auth ∷ server_auth ∷ [];
  key_usage = digital_signature ∷ key_encipherment ∷ cert_sign ∷ [];
  basic_constraints_valid = true;
}

unfoldable pub server_template : Str → ℕ → Option ℕ → Certificate
server_template ns now serial = record {
  serial_number = serial;
  subject = subject_of ns;
  ip_addresses = loopback;
  dns_names = get_service_name ns ∷ [];
  not_before = now;
  not_after = now + cert_duration;
  is_ca = false;
  subject_key_id = 1 ∷ 2 ∷ 3 ∷ 4 ∷ 6 ∷ [];
  ext_key_usage = client_auth ∷ server_auth ∷ [];
  key_usage = digital_signature ∷ key_encipherment ∷ [];
  basic_constraints_valid = false;
}

unfoldable pub client_template : Str → ℕ → Certificate
client_template ns now = record {
  serial_number = some 1658;
  subject = subject_of ns;
  ip_addresses = loopback;
  dns_names = [];
  not_before = now;
  not_after = now + cert_duration;
  is_ca = false;
  subject_key_id = 1 ∷ 2 ∷ 3 ∷ 4 ∷ 6 ∷ [];
  ext_key_usage = client_auth ∷ [];
  key_usage = digital_signature ∷ key_encipherment ∷ [];
  basic_constraints_valid = false;
}

module _ {S : Type 0} (w : World S) where
  abbrev pub now : Action S ℕ
  now = total w.clock

  abbrev random_serial : Action S (Option ℕ)
  random_serial = total (w.rand_int serial_number_limit)

  unfoldable pub in_cert_renewal_window : ℕ → Action S Bool
  in_cert_renewal_window expiry = do t ← now; pure (ltb expiry (t + cert_renewal_window))

  unfoldable pub pem_encode : Str → PrivateKey → Str × Str
  pem_encode bytes key = (
    w.pem_encode (lit "CERTIFICATE") bytes,
    w.pem_encode (lit "RSA PRIVATE KEY") (w.marshal_private_key key),
  )

  unfoldable pub generate_mtls_certs : Str → Action S MtlsCerts
  generate_mtls_certs ns = do
    t ← now
    ca_serial ← random_serial
    let ca = ca_template ns t ca_serial
    ca_key ← w.generate_key private_key_size
    ca_bytes ← w.create_certificate ca ca (w.public_key ca_key) ca_key
    serial ← random_serial
    cert_key ← w.generate_key private_key_size
    cert_bytes ←
        w.create_certificate (server_template ns t serial) ca (w.public_key cert_key) ca_key
    client_key ← w.generate_key private_key_size
    client_bytes ← w.create_certificate (client_template ns t) ca (w.public_key client_key) ca_key
    pure (record {
      ca_pem = (pem_encode ca_bytes ca_key).0;
      ca_priv_key_pem = (pem_encode ca_bytes ca_key).1;
      cert_pem = (pem_encode cert_bytes cert_key).0;
      cert_priv_key_pem = (pem_encode cert_bytes cert_key).1;
      client_pem = (pem_encode client_bytes client_key).0;
      client_priv_key_pem = (pem_encode client_bytes client_key).1;
      expiry = t + cert_duration;
    })
