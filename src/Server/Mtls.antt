-- ===== src/Server/Mtls.antt =====
-- The secret of the mutual TLS connection: `defineMTLSSecret`, `getMTLSSecret` and
-- `manageMTLSSecret`.
pub mod Renewal
pub mod Validity
pub mod Fresh
pub mod Success
use dex_operator.Common.{
  branch, pure, ◌returning◌, Str, [], ◌∷◌, ◌++◌, Bool, true, none, some, lit, is_empty, text_at,
  Action, raise, handle, ◌>>=◌, false, if◌then◌else◌,
}
use dex_operator.Api.{Secret, DexServer}
use dex_operator.World.{World}
use dex_operator.Certs.{MtlsCerts, in_cert_renewal_window, generate_mtls_certs}

abbrev pub secret_mtls_name : Str
secret_mtls_name = lit "grpc-mtls"

abbrev pub mtls_cert_expiry_annotation : Str
mtls_cert_expiry_annotation = lit "auth.identitatem.io/expiry"

module _ {S : Type 0} (w : World S) where
  unfoldable pub define_mtls_secret : DexServer → MtlsCerts → Secret
  define_mtls_secret m certs = w.set_controller_reference m (record {
    namespace = m.namespace;
    name = secret_mtls_name;
    labels = (lit "app", m.name) ∷ [];
    annotations = (mtls_cert_expiry_annotation, w.format_time certs.expiry) ∷ [];
    owners = [];
    resource_version = 0;
    type = [];
    content =
        (lit "ca.crt", certs.ca_pem)
        ∷ (lit "ca.key", certs.ca_priv_key_pem)
        ∷ (lit "tls.crt", certs.cert_pem ++ certs.cert_pem)
        ∷ (lit "tls.key", certs.cert_priv_key_pem)
        ∷ (lit "client.crt", certs.client_pem ++ certs.client_pem)
        ∷ (lit "client.key", certs.client_priv_key_pem)
        ∷ [];
  })

  abbrev pub get_mtls_secret : DexServer → Action S Secret
  get_mtls_secret m = w.get_secret (record { namespace = m.namespace; name = secret_mtls_name })

  -- Whether the secret that was found has to be made again. An expiry that does not parse leaves
  -- the zero time, and the window is looked at all the same.
  unfoldable pub needs_renewal : Secret → Action S Bool
  needs_renewal secret =
      let expiry = text_at mtls_cert_expiry_annotation secret.annotations in
      if is_empty expiry then pure true else elim (w.parse_time expiry) [
        | none ↦ in_cert_renewal_window w 0 returning true
        | some t ↦ in_cert_renewal_window w t
      ]

  -- The certificates and the secret that holds them, where one is to be written.
  unfoldable pub new_mtls_secret : DexServer → Action S Secret
  new_mtls_secret m = do
    certs ←
        handle (generate_mtls_certs w m.namespace)
          (λ e. raise (w.wrap e (lit "error generating mtls certs")))
    pure (define_mtls_secret m certs)

  -- The secret is written again if it is to be renewed.
  unfoldable pub renew_mtls_secret : DexServer → Bool → Action S (Unit {0})
  renew_mtls_secret m false = pure tt
  renew_mtls_secret m true = do
    spec ← new_mtls_secret m
    handle (w.update_secret spec returning tt)
        (λ e. raise (w.wrap e (lit "error updating mtls secret")))

  unfoldable pub create_mtls_secret : DexServer → Action S (Unit {0})
  create_mtls_secret m = do
    spec ← new_mtls_secret m
    handle (w.create_secret spec) (λ e. raise (w.wrap e (lit "error creating mtls secret")))

  unfoldable pub manage_mtls_secret : DexServer → Action S (Unit {0})
  manage_mtls_secret m =
      branch (get_mtls_secret m) (λ secret. needs_renewal secret >>= renew_mtls_secret m)
        (λ e.
          if e.not_found
          then create_mtls_secret m
          else raise (w.wrap e (lit "error getting mtls secret")))
