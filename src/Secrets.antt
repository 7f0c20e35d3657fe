-- ===== src/Secrets.antt =====
-- Reading, labelling and copying the secrets that hold credentials, of
-- controllers/dexserver_controller.go.
pub mod Copies
pub mod Frames
pub mod Preserved
pub mod Sure
pub mod Supply
use dex_operator.Common.{
  branch, pure, ◌returning◌, Str, [], false, lit, is_empty, insert, text_at, has_key, Action, raise,
  handle, ◌>>=◌, if◌then◌else◌, GoError,
}
use dex_operator.Api.{
  Key, Secret, empty_secret, SecretReference, DexServer, ConnectorSpec, github, ldap, microsoft,
  oidc, other,
}
use dex_operator.World.{World}
use dex_operator.Connectors.{copied_secret_name}

abbrev pub idp_credential_label : Str
idp_credential_label = lit "auth.identitatem.io/idp-credential"

-- `fmt.Errorf` with no wrapped error
abbrev pub error_of : Str → GoError
error_of message = record { not_found = false; message = message }

-- Where the copy of a secret stands, and what is stored where there is none yet.
abbrev pub copy_key : DexServer → Secret → Key
copy_key m original = record {
  namespace = m.namespace;
  name = copied_secret_name original.namespace original.name;
}

abbrev pub new_copy : DexServer → Secret → Secret
new_copy m original = record empty_secret {
  namespace = m.namespace;
  name = copied_secret_name original.namespace original.name;
  type = lit "Opaque";
  content = original.content;
}

module _ {S : Type 0} (w : World S) where
  -- The secret as it is in memory after a label was seen to. A failed update is logged, and leaves
  -- the label in memory only.
  unfoldable pub add_label : Str → Secret → Action S Secret
  add_label label secret =
      if has_key label secret.labels
      then pure secret
      else let labelled = record secret { labels = insert label [] secret.labels } in
        handle (w.update_secret labelled) (λ _. pure labelled)

  unfoldable pub check_and_add_label_to_secret : Secret → Action S Secret
  unfolding add_label
  check_and_add_label_to_secret = add_label idp_credential_label

  -- The four equal branches of `getConnectorSecretFromRef`. Only a secret that is missing is an
  -- error: after any other failure the code goes on with an empty secret.
  unfoldable pub read_credential : SecretReference → Str → DexServer → Action S Str
  read_credential ref key m = do
    let namespace = if is_empty ref.namespace then m.namespace else ref.namespace
    resource ←
        branch (w.get_secret (record { namespace = namespace; name = ref.name }))
          (λ secret. pure secret) (λ e. if e.not_found then raise e else pure empty_secret)
    labelled ← check_and_add_label_to_secret resource
    pure (text_at key labelled.content)

  unfoldable pub get_connector_secret_from_ref : ConnectorSpec → DexServer → Action S Str
  get_connector_secret_from_ref connector m = elim connector.type [
    | github ↦ read_credential connector.github.client_secret_ref (lit "clientSecret") m
    | microsoft ↦ read_credential connector.microsoft.client_secret_ref (lit "clientSecret") m
    | ldap ↦ read_credential connector.ldap.bind_pw_ref (lit "bindPW") m
    | oidc ↦ read_credential connector.oidc.client_secret_ref (lit "clientSecret") m
    | other _ ↦ raise (error_of (lit "could not retrieve secret"))
  ]

  -- The last part of `copySecretToDexServerNamespace`, on the original as it was labelled.
  unfoldable pub write_copy : DexServer → Secret → Action S (Unit {0})
  write_copy m original =
      branch (w.get_secret (copy_key m original))
        (λ old. w.update_secret (record old { content = original.content }) returning tt)
        (λ e. if e.not_found then w.create_secret (new_copy m original) else raise e)

  unfoldable pub copy_secret_to_dex_server_namespace :
      DexServer → SecretReference → Action S (Unit {0})
  copy_secret_to_dex_server_namespace m ref = do
    original ← w.get_secret (record { namespace = ref.namespace; name = ref.name })
    labelled ← check_and_add_label_to_secret original
    write_copy m labelled
