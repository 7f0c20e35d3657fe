-- ===== src/Client/Credential.antt =====
-- The secret of a client: its label, its checksum, and the check whether it has changed.
use dex_operator.Common.{
  branch, pure, Str, [], ◌++◌, Bool, true, false, Option, none, some, lit, lookup, insert, GoError,
  Action, raise, ◌>>=◌, ◌==◌, str_eq, if◌then◌else◌,
}
use dex_operator.Api.{Key, Secret, DexClient}
use dex_operator.World.{World}
use dex_operator.Secrets.{add_label, error_of}
use dex_operator.Server.Deployment.{text_or_empty, hash_of}
use dex_operator.Server.Mtls.{secret_mtls_name}

abbrev pub dex_client_secret_label : Str
dex_client_secret_label = lit "auth.identitatem.io/dex-client-secret"

abbrev pub dex_client_secret_hash_annotation : Str
dex_client_secret_hash_annotation = lit "auth.identitatem.io/dex-client-secret-hash"

abbrev pub client_secret_key : DexClient → Key
client_secret_key m = record {
  namespace = m.spec.client_secret_ref.namespace;
  name = m.spec.client_secret_ref.name;
}

-- What `hasClientSecretBeenUpdated` leaves: the object in memory, its answer and its error.
pub record SecretCheck : Type 0 where
  pub client : DexClient
  pub updated : Bool
  pub error : Option GoError

abbrev pub with_hash : DexClient → Str → DexClient
with_hash m hash = record m {
  annotations = insert dex_client_secret_hash_annotation hash m.annotations;
}

module _ {S : Type 0} (w : World S) where
  unfoldable pub check_and_add_label_to_client_secret : Secret → Action S Secret
  check_and_add_label_to_client_secret = add_label w dex_client_secret_label

  -- The checksum covers the whole object. A failed `json.Marshal` is logged, and the checksum is
  -- that of no bytes.
  unfoldable pub get_hash_for_a_secret : DexClient → Action S Str
  get_hash_for_a_secret m =
      branch (w.get_secret (client_secret_key m))
        (λ secret. pure (hash_of w (text_or_empty (w.marshal_secret secret))))
        (λ e. if e.not_found then pure [] else raise e)

  -- The annotation is stored, and the answer comes with the error of that.
  unfoldable pub store_hash : DexClient → Str → Bool → Action S SecretCheck
  store_hash m hash changed =
      branch (w.update_dex_client (with_hash m hash))
        (λ m'. pure (record { client = m'; updated = changed; error = none }))
        (λ e. pure (record { client = with_hash m hash; updated = changed; error = some e }))

  unfoldable pub has_client_secret_been_updated : DexClient → Action S SecretCheck
  has_client_secret_been_updated m =
      branch (get_hash_for_a_secret m)
        (λ hash. elim (lookup dex_client_secret_hash_annotation m.annotations) [
          | none ↦ store_hash m hash false
          | some old ↦
              if old == hash
              then pure (record { client = m; updated = false; error = none })
              else store_hash m hash true
        ])
        (λ e. pure (record { client = m; updated = false; error = some e }))

  unfoldable pub get_client_client_secret_from_ref : DexClient → Action S Str
  get_client_client_secret_from_ref m = do
    resource ← w.get_secret (client_secret_key m)
    labelled ← check_and_add_label_to_client_secret resource
    elim (lookup (lit "clientSecret") labelled.content) [
      | some secret ↦ pure secret
      | none ↦ raise (
          error_of (
            lit "secret "
            ++ m.spec.client_secret_ref.namespace
            ++ lit "/"
            ++ m.spec.client_secret_ref.name
            ++ lit " doesn't contain the data clientSecret"))
    ]

  abbrev pub get_mtls_secret : DexClient → Action S Secret
  get_mtls_secret m = w.get_secret (record { namespace = m.namespace; name = secret_mtls_name })
