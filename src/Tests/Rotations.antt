-- ===== src/Tests/Rotations.antt =====
-- A client whose credential has changed, with the old one in dex; and a client that connects with
-- the secret that a pass over a server has made.
use dex_operator.Common.{
  ◌++◌, ◌≡◌, refl, ok, arith, some, none, true, false, lit, str_eq, ◌==◌, [], ◌∷◌, ◌>>=◌,
  if◌then◌else◌, lookup, insert, hex_encode, hex_digit, is_empty,
}
use dex_operator.Api.{DexClient}
use dex_operator.World.{View, same_key, secret_content}
use dex_operator.Conditions.{
  is_oauth2_client_created, merge_status_conditions, update_dex_client_status_conditions,
}
use dex_operator.DexApi.{create_client, delete_client}
use dex_operator.Secrets.{add_label}
use dex_operator.Server.Reconcile.{done}
use dex_operator.Client.Credential.{
  SecretCheck, check_and_add_label_to_client_secret, get_client_client_secret_from_ref,
  get_hash_for_a_secret, has_client_secret_been_updated, store_hash, with_hash,
}
use dex_operator.Client.Oauth.{
  create_oauth2_client, create_with_secret, created_condition, delete_oauth2_client,
}
use dex_operator.Client.Reconcile.{sync_oauth2_client}
use dex_operator.Client.Registration.{oauth_of}
use dex_operator.Api.{Secret, empty_secret}
use dex_operator.Certs.{MtlsCerts, generate_mtls_certs, pem_encode}
use dex_operator.Server.Mtls.{
  create_mtls_secret, define_mtls_secret, manage_mtls_secret, mtls_cert_expiry_annotation,
  new_mtls_secret, secret_mtls_name,
}
use dex_operator.Server.Mtls.Fresh.{manage_mtls_secret-stays}
use dex_operator.Server.Mtls.Renewal.{mtls_key}
use dex_operator.Client.Credential.{get_mtls_secret}
use dex_operator.Client.Reconcile.{dex_api_options}
use dex_operator.Client.Handshake.{ConnectsWith, manage_mtls_secret-ConnectsWith}
use dex_operator.Tests.Cluster.{certs_generated, client, mtls_succeeds, sample_certs, server}
use dex_operator.Tests.Laws.{memory_laws}
use dex_operator.Client.Rotation.{sync_oauth2_client-rotates}
use dex_operator.Tests.Memory.{all_of, memory}
use dex_operator.Tests.Laws.{memory_dex, memory_server, memory_time}
use dex_operator.Tests.Cluster.{cluster, connection, stale_client}

abbrev known_client : DexClient
known_client = record stale_client {
  status = record stale_client.status { conditions = created_condition [] [] ∷ [] };
}

abbrev old_dex : View
old_dex = record cluster {
  dex = λ t i. if t == connection.target then some (oauth_of known_client (lit "old")) else none;
}

abbrev seen : SecretCheck
seen = record { client = with_hash known_client (lit "6768"); updated = true; error = none }

-- The worlds after the check and after the deletion.
abbrev checked : View
checked = (has_client_secret_been_updated memory known_client old_dex).1

abbrev deleted : View
deleted = (delete_oauth2_client memory connection seen.client checked).1

check_succeeds : (has_client_secret_been_updated memory known_client old_dex).0 ≡ ok seen
unfolding has_client_secret_been_updated store_hash get_hash_for_a_secret ◌>>=◌ lit str_eq same_key
    lookup insert hex_encode hex_digit
check_succeeds = refl

was_made : is_oauth2_client_created seen.client.status.conditions ≡ true
unfolding is_oauth2_client_created lit str_eq
was_made = refl

deletion_is_answered : (delete_oauth2_client memory connection seen.client checked).0 ≡ ok done
unfolding delete_oauth2_client delete_client has_client_secret_been_updated store_hash
    get_hash_for_a_secret ◌>>=◌ lit str_eq same_key lookup insert hex_encode hex_digit
deletion_is_answered = refl

creation_is_answered : (create_oauth2_client memory connection seen.client deleted).0 ≡ ok done
unfolding delete_oauth2_client delete_client has_client_secret_been_updated store_hash
    get_hash_for_a_secret create_oauth2_client create_with_secret get_client_client_secret_from_ref
    check_and_add_label_to_client_secret add_label create_client update_dex_client_status_conditions
    merge_status_conditions ◌>>=◌ lit str_eq same_key lookup insert hex_encode hex_digit
creation_is_answered = refl

credential_is_read : (get_client_client_secret_from_ref memory seen.client deleted).0 ≡ ok (lit "p")
unfolding delete_oauth2_client delete_client has_client_secret_been_updated store_hash
    get_hash_for_a_secret get_client_client_secret_from_ref check_and_add_label_to_client_secret
    add_label ◌>>=◌ lit str_eq same_key lookup insert hex_encode hex_digit
credential_is_read = refl

has_id : is_empty seen.client.spec.client_id ≡ false
unfolding lit
has_id = refl

has_credential : is_empty (lit "p") ≡ false
unfolding lit
has_credential = refl

sync_oauth2_client-rotates_example :
    ((sync_oauth2_client memory connection known_client old_dex).0 ≡ ok done)
    × ((all_of (sync_oauth2_client memory connection known_client old_dex).1).dex connection.target
          seen.client.spec.client_id
        ≡ some (oauth_of seen.client (lit "p")))
sync_oauth2_client-rotates_example =
    sync_oauth2_client-rotates memory_server memory_dex connection known_client old_dex
      check_succeeds refl was_made deletion_is_answered creation_is_answered credential_is_read
      has_id has_credential

-- The secret of the connection, as a client reads it once a pass has made it.
abbrev made_secret : Secret
made_secret = record empty_secret {
  namespace = lit "d";
  name = secret_mtls_name;
  labels = (lit "app", lit "s") ∷ [];
  annotations = (mtls_cert_expiry_annotation, memory.format_time sample_certs.expiry) ∷ [];
  content =
      (lit "ca.crt", sample_certs.ca_pem)
      ∷ (lit "ca.key", sample_certs.ca_priv_key_pem)
      ∷ (lit "tls.crt", sample_certs.cert_pem ++ sample_certs.cert_pem)
      ∷ (lit "tls.key", sample_certs.cert_priv_key_pem)
      ∷ (lit "client.crt", sample_certs.client_pem ++ sample_certs.client_pem)
      ∷ (lit "client.key", sample_certs.client_priv_key_pem)
      ∷ [];
}

none_is_there : cluster.secrets (mtls_key server) ≡ none
unfolding same_key lit str_eq
none_is_there = refl

secret_is_read :
    (get_mtls_secret memory client (manage_mtls_secret memory server cluster).1).0 ≡ ok made_secret
unfolding manage_mtls_secret create_mtls_secret new_mtls_secret generate_mtls_certs pem_encode
    define_mtls_secret ◌>>=◌ same_key lit str_eq
secret_is_read = refl

manage_mtls_secret-ConnectsWith_example :
    (certs : MtlsCerts) × ((s' : View) × ((generate_mtls_certs memory server.namespace s').0
        ≡ ok certs))
    × ConnectsWith memory (dex_api_options client made_secret) certs
manage_mtls_secret-ConnectsWith_example =
    manage_mtls_secret-ConnectsWith memory_server memory_laws server client cluster none_is_there
      mtls_succeeds refl secret_is_read

-- The world after the pass that made the secret.
abbrev after_pass : View
after_pass = (manage_mtls_secret memory server cluster).1

as_it_was_made :
    secret_content made_secret ≡ secret_content (define_mtls_secret memory server sample_certs)
unfolding define_mtls_secret
as_it_was_made = refl

manage_mtls_secret-stays_example :
    ((manage_mtls_secret memory server after_pass).0 ≡ ok tt)
    × (all_of (manage_mtls_secret memory server after_pass).1 ≡ all_of after_pass)
manage_mtls_secret-stays_example =
    manage_mtls_secret-stays memory_server memory_time memory_laws server sample_certs made_secret
      cluster after_pass certs_generated secret_is_read as_it_was_made (omega arith)
