-- ===== src/Tests/Passes.antt =====
-- Theorems on passes over a DexServer, at the server of the tests.
use dex_operator.Common.{List, ◌≡◌, ok, refl, some, false, is_empty, Str, lit, str_eq, ◌+◌}
use dex_operator.Api.{DexConnectorSpec}
use dex_operator.World.{same_key, config_map_values, deployment_values}
use dex_operator.Certs.{hour}
use dex_operator.Secrets.Supply.{Supplied}
use dex_operator.Server.Mtls.{get_mtls_secret, manage_mtls_secret}
use dex_operator.Server.Mtls.Validity.{ValidFrom}
use dex_operator.Server.Mtls.Success.{manage_mtls_secret-provides}
use dex_operator.Server.ConfigMap.{config_map_file, sync_config_map}
use dex_operator.Server.ConfigMap.Skips.{sync_config_map-skips}
use dex_operator.Server.Deployment.Skips.{sync_deployment-skips}
use dex_operator.Server.ConfigMap.Copies.{CopiesHeld}
use dex_operator.Server.ConfigMap.References.{Refers}
use dex_operator.Server.Deployment.{Extras, deployment_file, dex_image_env_name, sync_deployment}
use dex_operator.Server.Deployment.Applies.{values_of}
use dex_operator.Server.Deployment.Wiring.{Wired}
use dex_operator.Server.Reconcile.{sync_all}
use dex_operator.Server.Reconcile.Wiring.{sync_all-wires}
use dex_operator.Server.Reconcile.Success.{sync_all-succeeds}
use dex_operator.Tests.Memory.{all_of, memory}
use dex_operator.Tests.Laws.{memory_laws, memory-Reliable, memory_server, memory_time}
use dex_operator.Tests.Cluster.{cluster, odd_server, pass_succeeds, server}

sync_all-wires_example :
    (ds : List DexConnectorSpec) × (yaml : Str) × (x : Extras) × (config_hash : Str)
    × (expiry : Str) × (memory.marshal_connectors ds ≡ ok yaml)
    × ((all_of (sync_all memory server cluster).1).applied config_map_file
        ≡ some (
            config_map_values (record {
              issuer = server.spec.issuer;
              connectors_yaml = yaml;
              dex_server = server;
            })))
    × ((all_of (sync_all memory server cluster).1).applied deployment_file
        ≡ some (
            deployment_values (
              values_of memory_server server x
                (memory.getenv dex_image_env_name)
                config_hash
                expiry)))
    × Refers server.spec.connectors ds
    × Wired server server.spec.connectors x.env_variables
    × CopiesHeld server server.spec.connectors (all_of (sync_all memory server cluster).1).secrets
sync_all-wires_example = sync_all-wires memory_server server cluster pass_succeeds refl

manage_mtls_secret-provides_example :
    ((manage_mtls_secret memory server cluster).0 ≡ ok tt)
    × ValidFrom memory_server memory_laws memory_time server
        (memory.clock (get_mtls_secret memory server cluster).1).0
        (hour + hour)
        (all_of (manage_mtls_secret memory server cluster).1)
manage_mtls_secret-provides_example =
    manage_mtls_secret-provides memory_server memory_laws memory_time memory-Reliable server cluster

supplied : Supplied server server.spec.connectors (all_of cluster)
unfolding Supplied same_key lit str_eq
supplied = (((_, refl), (_, refl)), tt)

image_named : is_empty (memory.getenv dex_image_env_name) ≡ false
unfolding lit str_eq
image_named = refl

sync_all-succeeds_example :
    ((sync_all memory server cluster).0 ≡ ok tt)
    × Supplied server server.spec.connectors (all_of (sync_all memory server cluster).1)
unfolding lit
sync_all-succeeds_example =
    sync_all-succeeds memory_server memory_laws memory-Reliable server cluster supplied image_named
      refl

odd-Supplied : Supplied odd_server odd_server.spec.connectors (all_of cluster)
unfolding Supplied
odd-Supplied = (tt, tt)

sync_config_map-skips_example :
    ((sync_config_map memory odd_server cluster).0 ≡ ok tt)
    × ((all_of (sync_config_map memory odd_server cluster).1).applied ≡ (all_of cluster).applied)
sync_config_map-skips_example =
    sync_config_map-skips memory_server memory-Reliable odd_server cluster odd-Supplied refl

sync_deployment-skips_example :
    ((sync_deployment memory odd_server cluster).0 ≡ ok tt)
    × ((all_of (sync_deployment memory odd_server cluster).1).applied ≡ (all_of cluster).applied)
sync_deployment-skips_example =
    sync_deployment-skips memory_server memory-Reliable odd_server cluster image_named odd-Supplied
      refl
