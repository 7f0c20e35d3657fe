-- ===== src/Client/Handshake.antt =====
-- What the DexClient controller connects with, after the DexServer controller has made the secret
-- of the connection.
use mathlib.Core.List.{append_assoc}
use dex_operator.Common.{
  ◌≡◌, refl, ◌∙◌, ap, sym, inl, inr, none, some, Str, [], ◌∷◌, ◌++◌, lit, str_eq, text_at, lookup,
  ok, arith,
}
use dex_operator.Api.{Secret, DexServer, DexClient}
use dex_operator.World.{
  World, View, ApiServer, SecretContent, secret_content, Certificate, PrivateKey,
}
use dex_operator.Certs.Chain.{IsChain, IsPem, Signed, Issued, generate-IsChain}
use dex_operator.World.Facts.{get_secret_found}
use dex_operator.Certs.{MtlsCerts, get_service_name, generate_mtls_certs, grpc_service_name}
use dex_operator.Conditions.{ExternLaws}
use dex_operator.DexApi.{Options}
use dex_operator.Server.Mtls.{define_mtls_secret, manage_mtls_secret, secret_mtls_name}
use dex_operator.Server.Mtls.Renewal.{mtls_key, manage_mtls_secret-leaves}
use dex_operator.Client.Credential.{get_mtls_secret}
use dex_operator.Client.Reconcile.{dex_api_options}

dotted : lit "." ++ lit "svc.cluster.local" ≡ lit ".svc.cluster.local"
unfolding lit
dotted = refl

service_address :
    (ns : Str)
    → grpc_service_name ++ lit "." ++ ns ++ lit "." ++ lit "svc.cluster.local" ++ lit ":5557"
      ≡ get_service_name ns ++ lit ":5557"
unfolding get_service_name
service_address ns =
    let host = grpc_service_name ++ lit "." ++ ns in
    ap (λ t. t ++ lit ":5557")
      (append_assoc host (lit ".") (lit "svc.cluster.local") ∙ ap (λ t. host ++ t) dotted)

address_of :
    (c : DexClient) (x : Secret) {ns : Str}
    → c.namespace ≡ ns
    → (dex_api_options c x).host_and_port ≡ get_service_name ns ++ lit ":5557"
address_of c x {ns} same = rw same (service_address ns)

some_content : {a b : SecretContent} → some a ≡ some b → a ≡ b
some_content same = ground arith

none_is_not : {a : SecretContent} → ¬ (none ≡ some a)
none_is_not bad = ground arith

-- There is an authority, whose text the client trusts, which issued both the certificate of the
-- server, whose one name is the address before its port, and the certificate of the client, whose
-- text and key the client presents.
abbrev pub ConnectsWith : {S : Type 0} → World S → Options → MtlsCerts → Type 0
ConnectsWith w o certs =
    ((ca server client : Certificate) × (ca_key : PrivateKey) × (name ca_bytes : Str) × IsPem w
        ca_bytes ca_key certs.ca_pem certs.ca_priv_key_pem
      × Signed w ca ca ca_key ca_key ca_bytes
      × Issued w server ca ca_key certs.cert_pem certs.cert_priv_key_pem
      × Issued w client ca ca_key certs.client_pem certs.client_priv_key_pem
      × (server.dns_names ≡ name ∷ [])
      × (o.host_and_port ≡ name ++ lit ":5557"))
    × (o.ca_buffer ≡ certs.ca_pem)
    × (o.crt_buffer ≡ certs.client_pem ++ certs.client_pem)
    × (o.key_buffer ≡ certs.client_priv_key_pem)

module _ {S : Type 0} {w : World S} {view : S → View} (L : ApiServer w view)
    (E : ExternLaws w) where
  stored_text :
      (m : DexServer) (certs : MtlsCerts) (k : Str)
      → text_at k (secret_content (define_mtls_secret w m certs)).content
        ≡ text_at k (
            (lit "ca.crt", certs.ca_pem)
            ∷ (lit "ca.key", certs.ca_priv_key_pem)
            ∷ (lit "tls.crt", certs.cert_pem ++ certs.cert_pem)
            ∷ (lit "tls.key", certs.cert_priv_key_pem)
            ∷ (lit "client.crt", certs.client_pem ++ certs.client_pem)
            ∷ (lit "client.key", certs.client_priv_key_pem)
            ∷ [])
  unfolding define_mtls_secret
  stored_text m certs k = ap (λ (c : SecretContent). text_at k c.content) (E.owner_keeps m _).1

  options_of :
      (m : DexServer) (c : DexClient) (x : Secret) (certs : MtlsCerts)
      → c.namespace ≡ m.namespace
      → secret_content x ≡ secret_content (define_mtls_secret w m certs)
      → IsChain w m.namespace certs
      → ConnectsWith w (dex_api_options c x) certs
  unfolding text_at lookup lit str_eq get_service_name
  options_of m c x certs same content
        (
          t, ca, server, client, ca_key, authority, is_server, is_client, self, issued, other, e₁,
          e₂, e₃,
        ) =
      let text : (k : Str) → text_at k x.content ≡ _ =
        λ k. ap (λ (d : SecretContent). text_at k d.content) content ∙ stored_text m certs k in
      (
        (
          ca,
          server,
          client,
          ca_key,
          _,
          self.0,
          self.2,
          self.1,
          issued,
          other,
          is_server.named,
          address_of c x same,
        ),
        text (lit "ca.crt"),
        text (lit "client.crt"),
        text (lit "client.key"),
      )

  -- When `manageMTLSSecret` succeeds for a DexServer whose namespace had no such secret, and the
  -- DexClient controller then reads the secret of the connection for a DexClient of that
  -- namespace, it connects, with the authority, the client certificate and the client key of
  -- certificates that were generated in this pass, at port 5557 to the one name in the certificate
  -- of the server that was generated with them; one authority signed both certificates.
  pub manage_mtls_secret-ConnectsWith :
      (m : DexServer) (c : DexClient) (s : S) {x : Secret}
      → (view s).secrets (mtls_key m) ≡ none
      → (manage_mtls_secret w m s).0 ≡ ok tt
      → c.namespace ≡ m.namespace
      → (get_mtls_secret w c (manage_mtls_secret w m s).1).0 ≡ ok x
      → (certs : MtlsCerts) × ((s' : S) × ((generate_mtls_certs w m.namespace s').0 ≡ ok certs))
        × ConnectsWith w (dex_api_options c x) certs
  manage_mtls_secret-ConnectsWith m c s {x} missing done same read =
      elim (manage_mtls_secret-leaves L E m s done) [
        | inl (d, stored, current, kept) ↦ absurd (none_is_not (sym missing ∙ stored))
        | inr (s', (certs, generated, stored)) ↦
            let (key, found) = get_secret_found L _ (manage_mtls_secret w m s).1 read in
            (
              certs,
              (s', generated),
              options_of m c x certs same
                  (some_content (
                    sym found
                    ∙ ap
                        (λ ns.
                          (view (manage_mtls_secret w m s).1).secrets
                            (record { namespace = ns; name = secret_mtls_name }))
                        same
                    ∙ stored))
                  (generate-IsChain w m.namespace s' generated),
            )
      ]
