-- ===== src/Tests/Runs.antt =====
-- Passes of both controllers over a cluster with a server and a client, with a secret that another
-- stores in between.
use dex_operator.Common.{
  ◌≡◌, ◌≢◌, refl, ok, some, none, true, false, List, [], ◌∷◌, lit, str_eq, ◌>>=◌, lookup, insert,
  text_at, if◌then◌else◌,
}
use dex_operator.Api.{Key, Secret, empty_secret, DexServer, server_key, DexClient, client_key}
use dex_operator.World.{View, same_key, put_secret}
use dex_operator.World.Stable.{Seen}
use dex_operator.World.Holds.{HasSecretAt, HasSecretAt-ServerStable}
use dex_operator.World.Forms.{StoredServer, StoredClient, LiveServer, LiveClient}
use dex_operator.Conditions.{
  update_dex_client_status_conditions, merge_status_conditions, update_dex_server_status_conditions,
}
use dex_operator.Certs.{generate_mtls_certs}
use dex_operator.Connectors.{copied_secret_name}
use dex_operator.Secrets.{
  add_label, check_and_add_label_to_secret, read_credential, get_connector_secret_from_ref,
  write_copy, copy_secret_to_dex_server_namespace,
}
use dex_operator.Server.Mtls.{
  define_mtls_secret, new_mtls_secret, create_mtls_secret, manage_mtls_secret,
}
use dex_operator.Server.ConfigMap.{connector_config, connectors_config, sync_config_map}
use dex_operator.Server.Deployment.{
  get_dex_image_pull_spec, get_environment_variable_for_secret, add_credential, visit_connector,
  visit_connectors, dex_config_map_hash, mtls_secret_expiry, apply_deployment, sync_deployment,
}
use dex_operator.Server.Resources.{
  sync_service_account, sync_cluster_role_binding, sync_service, sync_service_grpc, sync_ingress,
}
use dex_operator.Server.Reconcile.{
  dex_server_finalizer, reconcile_step, sync_all, report_applied, reconcile_live, ensure_finalizer,
  get_dex_server_deployment_condition,
}
use dex_operator.Server.Reconcile as DexServers
use dex_operator.Client.Reconcile.{dex_client_finalizer, wait_for_mtls}
use dex_operator.Client.Reconcile as DexClients
use dex_operator.Client.Waiting.{connection_secret}
use dex_operator.Watch.{handles_server_update, handles_client_update}
use dex_operator.System.{Event, server_pass, client_pass, elsewhere, run, OthersKeep}
use dex_operator.System.Stored.{run-keeps_server, run-keeps_client}
use dex_operator.System.Waiting.{reconcile-ends_waiting}
use dex_operator.System.Quiet.{SameServer, SameClient, run-quiet_server, run-quiet_client}
use dex_operator.System.Isolation.{client_side, server_side, reconcile-isolated}
use dex_operator.Tests.Memory.{all_of, memory}
use dex_operator.Tests.Laws.{memory_dex, memory_laws, memory_server}
use dex_operator.Tests.Cluster.{client, cluster, github_key, hourly, server}
use dex_operator.Tests.Events.{deep_equal, deep_equal-IsEquality}

-- The client of the tests, while it is not being deleted.
abbrev living : DexClient
living = record client { finalizers = dex_client_finalizer ∷ []; deletion_timestamp = none }

abbrev shared : View
shared = record cluster {
  dex_clients = λ k. if same_key k (client_key living) then some living else none;
}

abbrev unrelated : Secret
unrelated = record empty_secret { namespace = lit "x"; name = lit "y" }

-- The client asks first, and is told to wait; then comes the server, and both again.
abbrev events : List (Event View)
events =
    client_pass (client_key living)
    ∷ elsewhere (put_secret unrelated)
    ∷ server_pass (server_key server)
    ∷ client_pass (client_key living)
    ∷ []

others-keep_secret : (k : Key) → OthersKeep (Seen all_of (HasSecretAt k)) events
unfolding OthersKeep
others-keep_secret k = (λ v h. (HasSecretAt-ServerStable k).secret unrelated v h, tt)

others-keep_server :
    (Q : DexServer → Type 0) → OthersKeep (Seen all_of (StoredServer (server_key server) Q)) events
unfolding OthersKeep
others-keep_server Q = (λ v h. h, tt)

others-keep_client :
    (Q : DexClient → Type 0) → OthersKeep (Seen all_of (StoredClient (client_key living) Q)) events
unfolding OthersKeep
others-keep_client Q = (λ v h. h, tt)

credential_is_stored : HasSecretAt github_key shared
unfolding same_key lit str_eq
credential_is_stored = (_, refl)

server_is_found : (memory.get_dex_server (server_key server) shared).0 ≡ ok server
unfolding same_key lit str_eq
server_is_found = refl

server_is_stored : shared.dex_servers (server_key server) ≡ some server
unfolding same_key lit str_eq
server_is_stored = refl

client_is_stored : shared.dex_clients (client_key living) ≡ some living
unfolding same_key lit str_eq
client_is_stored = refl

server_has_finalizer : memory.contains_finalizer server.finalizers dex_server_finalizer ≡ true
unfolding lit str_eq
server_has_finalizer = refl

client_has_finalizer : memory.contains_finalizer living.finalizers dex_client_finalizer ≡ true
unfolding lit str_eq
client_has_finalizer = refl

server_pass_succeeds : (DexServers.reconcile memory (server_key server) shared).0 ≡ ok hourly
unfolding DexServers.reconcile reconcile_live ensure_finalizer report_applied
    update_dex_server_status_conditions merge_status_conditions get_dex_server_deployment_condition
    sync_all reconcile_step manage_mtls_secret create_mtls_secret new_mtls_secret
    generate_mtls_certs define_mtls_secret sync_config_map connectors_config connector_config
    copy_secret_to_dex_server_namespace write_copy sync_service sync_service_grpc
    sync_service_account sync_cluster_role_binding sync_ingress sync_deployment
    get_dex_image_pull_spec visit_connectors visit_connector add_credential
    get_environment_variable_for_secret get_connector_secret_from_ref read_credential
    check_and_add_label_to_secret add_label apply_deployment dex_config_map_hash mtls_secret_expiry
    ◌>>=◌ same_key lit str_eq lookup insert text_at copied_secret_name
server_pass_succeeds = refl

-- The first pass over the client waits.
client_waits : (DexClients.reconcile memory (client_key living) shared).0 ≡ ok wait_for_mtls
unfolding DexClients.reconcile DexClients.reconcile_client DexClients.ensure_client_finalizer
    update_dex_client_status_conditions merge_status_conditions ◌>>=◌ same_key lit str_eq
client_waits = refl

run-keeps_server_example :
    StoredServer (server_key server) (LiveServer server.spec) (all_of (run memory events shared))
run-keeps_server_example =
    run-keeps_server memory_server memory_dex events shared (server_key server) server.spec
      (others-keep_server (LiveServer server.spec)) (server, server_is_stored, (refl, refl))

run-keeps_client_example :
    StoredClient (client_key living) (LiveClient living.spec) (all_of (run memory events shared))
run-keeps_client_example =
    run-keeps_client memory_server memory_dex events shared (client_key living) living.spec
      (others-keep_client (LiveClient living.spec)) (living, client_is_stored, (refl, refl))

reconcile-ends_waiting_example :
    (DexClients.reconcile memory
      (client_key living)
      (run memory events (DexServers.reconcile memory (server_key server) shared).1)).0
    ≢ ok wait_for_mtls
reconcile-ends_waiting_example =
    reconcile-ends_waiting memory_server memory_dex memory_laws (server_key server)
      (client_key living) server events shared server_is_found refl server_pass_succeeds refl
      (others-keep_secret (connection_secret (server_key server)))

run-quiet_server_example :
    (n : DexServer) × ((all_of (run memory events shared)).dex_servers (server_key server) ≡ some n)
    × (handles_server_update deep_equal server n ≡ false)
run-quiet_server_example =
    run-quiet_server memory_server memory_dex deep_equal deep_equal-IsEquality (server_key server)
      events shared server server_is_stored refl server_has_finalizer
      (others-keep_server (SameServer server))

run-quiet_client_example :
    (n : DexClient) × ((all_of (run memory events shared)).dex_clients (client_key living) ≡ some n)
    × (handles_client_update deep_equal living n ≡ false)
run-quiet_client_example =
    run-quiet_client memory_server memory_dex deep_equal deep_equal-IsEquality (client_key living)
      events shared living client_is_stored refl client_has_finalizer
      (others-keep_client (SameClient living))

reconcile-isolated_example :
    (client_side (all_of (DexServers.reconcile memory (server_key server) shared).1)
      ≡ client_side (all_of shared))
    × (server_side (all_of (DexClients.reconcile memory (server_key server) shared).1)
        ≡ server_side (all_of shared))
reconcile-isolated_example = reconcile-isolated memory_server memory_dex (server_key server) shared
