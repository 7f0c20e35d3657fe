-- ===== src/Tests/Removals.antt =====
-- A DexClient that is being deleted, with its client in dex; and the theorems on what dex has, and
-- on connections, at the clients of the tests.
use dex_operator.Common.{
  finally, ◌≡◌, ◌≢◌, ok, refl, none, some, true, Str, [], ◌∷◌, lit, str_eq, lookup, text_at, ◌>>=◌,
  if◌then◌else◌, ◌==◌,
}
use mathlib.Core.Option
use dex_operator.Api.{DexClient, client_key}
use dex_operator.World.{View, SecretContent, same_key}
use dex_operator.Conditions.{has_condition}
use dex_operator.DexApi.{close_connection, delete_client, new_client_pem}
use dex_operator.Server.Reconcile.{done}
use dex_operator.Client.Credential.{get_client_client_secret_from_ref}
use dex_operator.Client.Oauth.{create_oauth2_client, created_condition, delete_oauth2_client}
use dex_operator.Client.Reconcile.{
  dex_client_finalizer, drop_finalizer, ensure_client_finalizer, reconcile, reconcile_client,
  reconcile_connected, reconcile_with_secret, was_created,
}
use dex_operator.Client.Connections.{reconcile-closes_connections}
use dex_operator.Client.Orphans.Pass.{reconcile-leaves_no_client}
use dex_operator.Client.Registration.{Registered, create_oauth2_client-Registered, oauth_of}
use dex_operator.Client.Removal.{Cleared}
use dex_operator.Client.Removal.Pass.{address, reconcile-Cleared}
use dex_operator.Server.Mtls.{secret_mtls_name}
use dex_operator.Tests.Memory.{all_of, memory}
use dex_operator.Tests.Laws.{memory_dex, memory_laws, memory_server}
use dex_operator.Tests.Cluster.{client, cluster, connection, creation_succeeds}

-- The client of the tests, with the finalizer, and with the condition that it was created.
abbrev leaving : DexClient
leaving = record client {
  finalizers = dex_client_finalizer ∷ [];
  status = record client.status { conditions = created_condition [] [] ∷ [] };
}

abbrev mtls_content : SecretContent
mtls_content = record { labels = []; annotations = []; content = (lit "ca.crt", lit "ca") ∷ [] }

-- It is stored, with the secret of the connection, and dex has its client.
abbrev populated : View
populated = record cluster {
  secrets = λ k. if k.name == secret_mtls_name then some mtls_content else none;
  dex_clients = λ k. if same_key k (client_key leaving) then some leaving else none;
  dex = λ t i. if t == address leaving then some (oauth_of leaving []) else none;
}

leaving_is_stored : populated.dex_clients (client_key leaving) ≡ some leaving
unfolding same_key lit str_eq
leaving_is_stored = refl

leaving-was_created : was_created leaving ≡ true
unfolding has_condition lit str_eq
leaving-was_created = refl

removal_succeeds : (reconcile memory (client_key leaving) populated).0 ≡ ok done
unfolding reconcile reconcile_client ensure_client_finalizer reconcile_with_secret new_client_pem
    reconcile_connected delete_oauth2_client delete_client drop_finalizer close_connection
    has_condition ◌>>=◌ same_key lit str_eq lookup text_at finally
removal_succeeds = refl

reconcile-Cleared_example :
    Cleared memory_server memory_dex memory_laws
      (address leaving)
      leaving
      (reconcile memory (client_key leaving) populated).1
reconcile-Cleared_example =
    reconcile-Cleared memory_server memory_dex memory_laws (client_key leaving) leaving populated
      leaving_is_stored refl leaving-was_created removal_succeeds

reconcile-closes_connections_example :
    (all_of (reconcile memory (client_key leaving) populated).1).connections ≡ populated.connections
reconcile-closes_connections_example =
    reconcile-closes_connections memory_server memory_dex (client_key leaving) populated

create_oauth2_client-Registered_example :
    (secret : Str) × ((get_client_client_secret_from_ref memory client cluster).0 ≡ ok secret)
    × Registered memory_dex connection client secret done
        (get_client_client_secret_from_ref memory client cluster).1
        (create_oauth2_client memory connection client cluster).1
create_oauth2_client-Registered_example =
    create_oauth2_client-Registered memory_dex connection client cluster creation_succeeds

finalizer_is_there : memory.contains_finalizer leaving.finalizers dex_client_finalizer ≡ true
unfolding lit str_eq
finalizer_is_there = refl

gone_after :
    (all_of (reconcile memory (client_key leaving) populated).1).dex_clients (client_key leaving)
    ≡ none
unfolding reconcile reconcile_client ensure_client_finalizer reconcile_with_secret new_client_pem
    reconcile_connected delete_oauth2_client delete_client drop_finalizer close_connection
    has_condition ◌>>=◌ same_key lit str_eq lookup text_at finally Option.bind
gone_after = refl

reconcile-leaves_no_client_example :
    (leaving.deletion_timestamp ≢ none)
    × ((all_of (reconcile memory (client_key leaving) populated).1).dex
          (address leaving)
          leaving.spec.client_id
        ≡ none)
reconcile-leaves_no_client_example =
    reconcile-leaves_no_client memory_server memory_dex memory_laws (client_key leaving) leaving
      populated leaving_is_stored leaving-was_created finalizer_is_there gone_after
