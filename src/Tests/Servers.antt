-- ===== src/Tests/Servers.antt =====
-- The theorems on the DexServer controller at the cluster of the tests.
use dex_operator.Common.{
  List, [], ◌∷◌, GoError, Result, panic, Str, err, lit, ok, refl, some, true, ◌≡◌, ◌⊎◌,
}
use dex_operator.Api.{
  Condition, condition_true, Deployment, DexConnectorSpec, DexServer, server_key,
}
use dex_operator.World.{
  View, SecretContent, cluster_role_binding_values, config_map_values, deployment_values,
  ingress_values, service_account_values, service_grpc_values, service_values,
}
use dex_operator.Certs.{grpc_service_name, hour}
use dex_operator.Certs.Chain.{IsChain, generate-IsChain}
use dex_operator.Conditions.{find_condition, update_dex_server_status_conditions}
use dex_operator.Secrets.{copy_secret_to_dex_server_namespace}
use dex_operator.Secrets.Copies.{copied_ref, copy_secret-stores, ref_key}
use dex_operator.Server.Mtls.{manage_mtls_secret}
use dex_operator.Server.Mtls.Renewal.{Kept, Stored, manage_mtls_secret-leaves}
use dex_operator.Server.ConfigMap.{config_map_file, connectors_config, sync_config_map}
use dex_operator.Server.Deployment.{
  Extras, deployment_file, dex_image_env_name, no_extras, visit_connectors,
}
use dex_operator.Server.Deployment.Applies.{values_of}
use dex_operator.Server.Resources.{
  cluster_role_binding_file, cluster_role_binding_name, ingress_file, service_account_file,
  service_account_name, service_grpc_file, service_http_file, tls_secret_name,
}
use dex_operator.Server.Reconcile.{
  dex_server_finalizer, reconcile, reconcile_step, report_applied, sync_all, ensure_finalizer,
}
use dex_operator.Server.Reconcile.Steps.{
  Tells, TellsDeployment, Reported, reconcile_step-reports, report_applied-stores,
}
use dex_operator.Server.Reconcile.Templates.{made}
use dex_operator.Server.Reconcile.Pass.{sync_all-applies_dex, sync_all-applies_resources}
use dex_operator.Server.Reconcile.Worlds.{after_binding, after_mtls}
use dex_operator.Server.Reconcile.Live.{reconcile-installs}
use dex_operator.Tests.Memory.{all_of, memory}
use dex_operator.Tests.Laws.{memory_laws, memory_server}
use dex_operator.Tests.Cluster.{
  bare, certs_generated, cluster, copy_succeeds, github_ref, hourly, mtls_succeeds, pass_succeeds,
  reconcile_succeeds, report_succeeds, sample_certs, server, server_is_found, server_is_stored,
}

-- The world in which the eight calls start.
abbrev ensured_world : View
ensured_world =
    (ensure_finalizer memory server (memory.get_dex_server (server_key server) cluster).1).1

reconcile-installs_example :
    (n : DexServer) × ((ensure_finalizer memory server
        (memory.get_dex_server (server_key server) cluster).1).0
      ≡ ok n)
    × (server_key n ≡ server_key server)
    × (n.spec ≡ server.spec)
    × ((sync_all memory n ensured_world).0 ≡ ok tt)
    × ((all_of (reconcile memory (server_key server) cluster).1).applied
        ≡ (all_of (sync_all memory n ensured_world).1).applied)
    × ((stored : DexServer) × ((all_of (reconcile memory (server_key server) cluster).1).dex_servers
            (server_key server)
          ≡ some stored)
        × (memory.contains_finalizer stored.finalizers dex_server_finalizer ≡ true))
    × (hourly ≡ record { requeue = true; requeue_after = hour })
reconcile-installs_example =
    reconcile-installs memory_server memory_laws (server_key server) server cluster server_is_found
      refl reconcile_succeeds

sync_all-applies_dex_example :
    ((ds : List DexConnectorSpec) × (yaml : Str) × ((connectors_config memory server
          server.spec.connectors
          (after_mtls memory server cluster)).0
        ≡ ok (some ds))
      × (memory.marshal_connectors ds ≡ ok yaml)
      × (made config_map_file (all_of (sync_all memory server cluster).1)
          ≡ some (
              config_map_values (record {
                issuer = server.spec.issuer;
                connectors_yaml = yaml;
                dex_server = server;
              }))))
    × ((x : Extras) × (config_hash : Str) × (expiry : Str) × ((visit_connectors memory server
            server.spec.connectors no_extras
            (after_binding memory server cluster)).0
          ≡ ok (some x))
        × (made deployment_file (all_of (sync_all memory server cluster).1)
            ≡ some (
                deployment_values (
                  values_of memory_server server x
                    (memory.getenv dex_image_env_name)
                    config_hash
                    expiry))))
sync_all-applies_dex_example = sync_all-applies_dex memory_server server cluster pass_succeeds refl

sync_all-applies_resources_example :
    (made service_http_file (all_of (sync_all memory server cluster).1)
      ≡ some (
          service_values
            (record { serving_cert_secret_name = tls_secret_name server; dex_server = server })))
    × (made service_grpc_file (all_of (sync_all memory server cluster).1)
        ≡ some (
            service_grpc_values
              (record { grpc_service_name = grpc_service_name; dex_server = server })))
    × (made service_account_file (all_of (sync_all memory server cluster).1)
        ≡ some (
            service_account_values
              (record { service_account_name = service_account_name; dex_server = server })))
    × (made cluster_role_binding_file (all_of (sync_all memory server cluster).1)
        ≡ some (
            cluster_role_binding_values (record {
              cluster_role_name = service_account_name;
              service_account_name = service_account_name;
              cluster_role_binding_name = cluster_role_binding_name server;
              dex_server = server;
            })))
    × ((host : Str) × (memory.url_host server.spec.issuer ≡ some host)
        × (made ingress_file (all_of (sync_all memory server cluster).1)
            ≡ some (
                ingress_values (record {
                  host = host;
                  dex_server = server;
                  ingress_certificate_name = server.spec.ingress_certificate_ref;
                }))))
sync_all-applies_resources_example =
    sync_all-applies_resources memory_server server cluster pass_succeeds

manage_mtls_secret-leaves_example :
    Kept memory_server memory_laws server cluster (manage_mtls_secret memory server cluster).1
    ⊎ Stored memory_server memory_laws server (all_of (manage_mtls_secret memory server cluster).1)
manage_mtls_secret-leaves_example =
    manage_mtls_secret-leaves memory_server memory_laws server cluster mtls_succeeds

generate-IsChain_example : IsChain memory (lit "d") sample_certs
generate-IsChain_example = generate-IsChain memory (lit "d") cluster certs_generated

copy_secret-stores_example :
    (c d : SecretContent) × ((all_of cluster).secrets (ref_key github_ref) ≡ some c)
    × ((all_of (copy_secret_to_dex_server_namespace memory server github_ref cluster).1).secrets
          (copied_ref server github_ref)
        ≡ some d)
    × (d.content ≡ c.content)
copy_secret-stores_example =
    copy_secret-stores memory_server server github_ref cluster copy_succeeds

report_applied-stores_example :
    (hourly ≡ record { requeue = true; requeue_after = hour })
    × ((n : DexServer) × (d : Deployment) × (applied available : Condition) × ((all_of
              (report_applied memory server cluster).1).dex_servers
            (server_key server)
          ≡ some n)
        × (find_condition (lit "Applied") n.status.conditions ≡ some applied)
        × Tells applied (lit "Applied") condition_true (lit "Applied") (lit "DexServer is applied")
        × ((memory.get_deployment
              (server_key server)
              (update_dex_server_status_conditions memory server (applied ∷ []) cluster).1).0
            ≡ ok d)
        × (find_condition (lit "Available") n.status.conditions ≡ some available)
        × TellsDeployment available (memory.get_deployment_status d))
report_applied-stores_example =
    report_applied-stores memory_server memory_laws server server cluster report_succeeds
      server_is_stored

-- In the bare cluster the credential is missing.
abbrev failing_step : Result (Unit {0}) × View
failing_step =
    reconcile_step memory server (lit "ConfigMapFailed") (lit "t: ") (sync_config_map memory) bare

reconcile_step-reports_example :
    (((sync_config_map memory server bare).0 ≡ ok tt)
      × (failing_step ≡ sync_config_map memory server bare))
    ⊎ ((e : GoError) × ((sync_config_map memory server bare).0 ≡ err e)
        × Reported memory_server memory_laws server
            (lit "ConfigMapFailed")
            (lit "t: ")
            e
            (sync_config_map memory server bare).1
            failing_step)
    ⊎ (((sync_config_map memory server bare).0 ≡ panic) × (failing_step.0 ≡ panic))
reconcile_step-reports_example =
    reconcile_step-reports memory_server memory_laws server (lit "ConfigMapFailed") (lit "t: ")
      (sync_config_map memory) bare
