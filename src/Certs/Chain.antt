-- ===== src/Certs/Chain.antt =====
-- The chain of the certificates that `generateMTLSCerts` makes.
use dex_operator.Common.{
  ◌≡◌, refl, sym, ◌∙◌, true, false, List, [], ◌∷◌, ◌++◌, ap, ℕ, ◌+◌, Option, Str, ok, lit, total,
  pure, bind-eq-ok, pure-eq-ok,
}
use dex_operator.World.{
  World, Certificate, PrivateKey, client_auth, server_auth, digital_signature, key_encipherment,
  cert_sign,
}
use dex_operator.Certs.{
  MtlsCerts, cert_duration, private_key_size, serial_number_limit, ca_template, server_template,
  client_template, get_service_name, pem_encode, generate_mtls_certs,
}

-- The use is among the uses.
abbrev pub Has : {A : Type 0} → A → List A → Type 0
Has {A} a uses = (before rest : List A) × (uses ≡ before ++ (a ∷ rest))

-- 24 hours in nanoseconds.
abbrev day : ℕ
day = 86_400_000_000_000

-- The certificate is an authority that may sign others, for a day from the time `t`.
pub record IsAuthority (t : ℕ) (c : Certificate) : Type 0 where
  pub authority : c.is_ca ≡ true
  pub constrained : c.basic_constraints_valid ≡ true
  pub signs : Has cert_sign c.key_usage
  pub begins : c.not_before ≡ t
  pub ends : c.not_after ≡ t + day

-- The certificate is no authority, and identifies the gRPC server of the namespace to clients, for
-- a day from the time `t`.
pub record IsServer (ns : Str) (t : ℕ) (c : Certificate) : Type 0 where
  pub no_authority : c.is_ca ≡ false
  pub named : c.dns_names ≡ (lit "grpc." ++ ns ++ lit ".svc.cluster.local") ∷ []
  pub serves : Has server_auth c.ext_key_usage
  pub begins : c.not_before ≡ t
  pub ends : c.not_after ≡ t + day

-- The certificate is no authority, and identifies a client, for a day from the time `t`.
pub record IsClient (t : ℕ) (c : Certificate) : Type 0 where
  pub no_authority : c.is_ca ≡ false
  pub connects : Has client_auth c.ext_key_usage
  pub begins : c.not_before ≡ t
  pub ends : c.not_after ≡ t + day

ca_template-IsAuthority :
    (ns : Str) (t : ℕ) (serial : Option ℕ) → IsAuthority t (ca_template ns t serial)
unfolding ca_template
ca_template-IsAuthority ns t serial = record {
  authority = refl;
  constrained = refl;
  signs = (digital_signature ∷ key_encipherment ∷ [], [], refl);
  begins = refl;
  ends = refl;
}

server_template-IsServer :
    (ns : Str) (t : ℕ) (serial : Option ℕ) → IsServer ns t (server_template ns t serial)
unfolding server_template get_service_name lit
server_template-IsServer ns t serial = record {
  no_authority = refl;
  named = refl;
  serves = (client_auth ∷ [], [], refl);
  begins = refl;
  ends = refl;
}

client_template-IsClient : (ns : Str) (t : ℕ) → IsClient t (client_template ns t)
unfolding client_template
client_template-IsClient ns t = record {
  no_authority = refl;
  connects = ([], [], refl);
  begins = refl;
  ends = refl;
}

ca_end :
    (ns : Str) (t : ℕ) (serial : Option ℕ) → (ca_template ns t serial).not_after ≡ t + cert_duration
unfolding ca_template
ca_end ns t serial = refl

server_end :
    (ns : Str) (t : ℕ) (serial : Option ℕ)
    → (server_template ns t serial).not_after ≡ t + cert_duration
unfolding server_template
server_end ns t serial = refl

client_end : (ns : Str) (t : ℕ) → (client_template ns t).not_after ≡ t + cert_duration
unfolding client_template
client_end ns t = refl

module _ {S : Type 0} (w : World S) where
  -- A call of the library made this certificate, with the public half of `key`, signed by `signer`.
  abbrev pub Signed : Certificate → Certificate → PrivateKey → PrivateKey → Str → Type 0
  Signed template parent key signer bytes =
      (s : S) × ((w.create_certificate template parent (w.public_key key) signer s).0 ≡ ok bytes)

  -- The text of a certificate and the text of its key.
  abbrev pub IsPem : Str → PrivateKey → Str → Str → Type 0
  IsPem bytes key cert_text key_text =
      (cert_text ≡ w.pem_encode (lit "CERTIFICATE") bytes)
      × (key_text ≡ w.pem_encode (lit "RSA PRIVATE KEY") (w.marshal_private_key key))

  -- One of the certificates, and the authority's key that signs it.
  abbrev pub Issued : Certificate → Certificate → PrivateKey → Str → Str → Type 0
  Issued template parent signer cert_text key_text =
      (key : PrivateKey) × (bytes : Str) × Signed template parent key signer bytes
      × IsPem bytes key cert_text key_text

  -- One time and one authority: the authority's certificate is its own parent and is signed with
  -- its own key, the server's and the client's have it as parent and are signed with its key, and
  -- the recorded expiry is the end of all three.
  abbrev pub IsChain : Str → MtlsCerts → Type 0
  IsChain ns certs =
      (t : ℕ) × (ca server client : Certificate) × (ca_key : PrivateKey) × IsAuthority t ca
      × IsServer ns t server
      × IsClient t client
      × ((bytes : Str) × Signed ca ca ca_key ca_key bytes
          × IsPem bytes ca_key certs.ca_pem certs.ca_priv_key_pem)
      × Issued server ca ca_key certs.cert_pem certs.cert_priv_key_pem
      × Issued client ca ca_key certs.client_pem certs.client_priv_key_pem
      × (ca.not_after ≡ certs.expiry)
      × (server.not_after ≡ certs.expiry)
      × (client.not_after ≡ certs.expiry)

  abbrev certs_of : ℕ → Str → PrivateKey → Str → PrivateKey → Str → PrivateKey → MtlsCerts
  certs_of t ca_bytes ca_key cert_bytes cert_key client_bytes client_key = record {
    ca_pem = (pem_encode w ca_bytes ca_key).0;
    ca_priv_key_pem = (pem_encode w ca_bytes ca_key).1;
    cert_pem = (pem_encode w cert_bytes cert_key).0;
    cert_priv_key_pem = (pem_encode w cert_bytes cert_key).1;
    client_pem = (pem_encode w client_bytes client_key).0;
    client_priv_key_pem = (pem_encode w client_bytes client_key).1;
    expiry = t + cert_duration;
  }

  assembled :
      (ns : Str) (t : ℕ) (ca_serial serial : Option ℕ) (ca_key cert_key client_key : PrivateKey)
      (ca_bytes cert_bytes client_bytes : Str) (s : S) (certs : MtlsCerts)
      → Signed (ca_template ns t ca_serial) (ca_template ns t ca_serial) ca_key ca_key ca_bytes
      → Signed (server_template ns t serial) (ca_template ns t ca_serial) cert_key ca_key cert_bytes
      → Signed (client_template ns t) (ca_template ns t ca_serial) client_key ca_key client_bytes
      → (pure (certs_of t ca_bytes ca_key cert_bytes cert_key client_bytes client_key) s).0
        ≡ ok certs
      → IsChain ns certs
  unfolding pem_encode
  assembled ns t ca_serial serial ca_key cert_key client_key ca_bytes cert_bytes client_bytes s
        certs ca_made cert_made client_made done =
      let is_pair =
        pure-eq-ok (certs_of t ca_bytes ca_key cert_bytes cert_key client_bytes client_key) certs s
          done in
      (
        t,
        ca_template ns t ca_serial,
        server_template ns t serial,
        client_template ns t,
        ca_key,
        ca_template-IsAuthority ns t ca_serial,
        server_template-IsServer ns t serial,
        client_template-IsClient ns t,
        (ca_bytes, ca_made, (ap (λ c. c.ca_pem) is_pair, ap (λ c. c.ca_priv_key_pem) is_pair)),
        (
          cert_key,
          cert_bytes,
          cert_made,
          (ap (λ c. c.cert_pem) is_pair, ap (λ c. c.cert_priv_key_pem) is_pair),
        ),
        (
          client_key,
          client_bytes,
          client_made,
          (ap (λ c. c.client_pem) is_pair, ap (λ c. c.client_priv_key_pem) is_pair),
        ),
        ca_end ns t ca_serial ∙ sym (ap (λ c. c.expiry) is_pair),
        server_end ns t serial ∙ sym (ap (λ c. c.expiry) is_pair),
        client_end ns t ∙ sym (ap (λ c. c.expiry) is_pair),
      )

  -- When the certificates are generated, they are a chain: one authority, which may sign others and
  -- whose key signs its own certificate, that of a server with the name of the gRPC service of the
  -- namespace, and that of a client, neither of them an authority; each text beside the text of
  -- the key that it was made for; and all three are valid for a day from one time, and the recorded
  -- expiry is where they end.
  pub generate-IsChain :
      (ns : Str) (s : S) {certs : MtlsCerts}
      → (generate_mtls_certs w ns s).0 ≡ ok certs
      → IsChain ns certs
  unfolding generate_mtls_certs
  generate-IsChain ns s {certs} done =
      let (t, _, _, r1) = bind-eq-ok (total w.clock) _ s done in
      let (ca_serial, _, _, r2) = bind-eq-ok (total (w.rand_int serial_number_limit)) _ _ r1 in
      let (ca_key, _, _, r3) = bind-eq-ok (w.generate_key private_key_size) _ _ r2 in
      let (ca_bytes, ca_made, _, r4) =
        bind-eq-ok
          (w.create_certificate (ca_template ns t ca_serial) (ca_template ns t ca_serial)
            (w.public_key ca_key) ca_key)
          _ _ r3 in
      let (serial, _, _, r5) = bind-eq-ok (total (w.rand_int serial_number_limit)) _ _ r4 in
      let (cert_key, _, _, r6) = bind-eq-ok (w.generate_key private_key_size) _ _ r5 in
      let (cert_bytes, cert_made, _, r7) =
        bind-eq-ok
          (w.create_certificate (server_template ns t serial) (ca_template ns t ca_serial)
            (w.public_key cert_key) ca_key)
          _ _ r6 in
      let (client_key, _, _, r8) = bind-eq-ok (w.generate_key private_key_size) _ _ r7 in
      let (client_bytes, client_made, _, r9) =
        bind-eq-ok
          (w.create_certificate (client_template ns t) (ca_template ns t ca_serial)
            (w.public_key client_key) ca_key)
          _ _ r8 in
      assembled ns t ca_serial serial ca_key cert_key client_key ca_bytes cert_bytes client_bytes _
        certs (_, ca_made) (_, cert_made) (_, client_made) r9
