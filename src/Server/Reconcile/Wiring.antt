-- ===== src/Server/Reconcile/Wiring.antt =====
-- How the credentials of the connectors reach dex, over the calls of a pass.
use dex_operator.Common.{◌≡◌, true, some, List, Str, ok, str_eq}
use dex_operator.Api.{DexServer, DexConnectorSpec}
use dex_operator.World.{World, View, ApiServer, config_map_values, deployment_values}
use dex_operator.World.Holds.{HasSecretAt-ServerStable}
use dex_operator.Server.Deployment.Preserved.{deployment-Preserves}
use dex_operator.Server.Reconcile.Preserved.{
  http-Preserves, grpc-Preserves, account-Preserves, binding-Preserves, ingress-Preserves,
}
use dex_operator.Connectors.Names.{all_known}
use dex_operator.Server.ConfigMap.{config_map_file}
use dex_operator.Server.ConfigMap.Copies.{CopiesHeld, held_after, sync_config_map-CopiesHeld}
use dex_operator.Server.ConfigMap.References.{Refers, connectors_config-Refers}
use dex_operator.Server.Deployment.{
  Extras, no_extras, deployment_file, dex_image_env_name, sync_deployment,
}
use dex_operator.Server.Deployment.Applies.{values_of}
use dex_operator.Server.Deployment.Wiring.{Wired, visits-Wired}
use dex_operator.Server.Resources.{
  sync_service_account, sync_cluster_role_binding, sync_service, sync_service_grpc, sync_ingress,
}
use dex_operator.Server.Reconcile.{sync_all}
use dex_operator.Server.Reconcile.Pass.{sync_all-applies_dex}
use dex_operator.Server.Reconcile.Worlds.{
  after_mtls, after_config, after_http, after_grpc, after_account, after_binding, after_deployment,
  pass-eq-ok,
}

module _ {S : Type 0} {w : World S} {view : S → View} (L : ApiServer w view) where
  -- When the eight calls succeed and every connector has one of the four types, the configuration
  -- last made has one entry for each connector, whose credential is a reference to the environment
  -- variable of the connector; and for each connector whose credential is copied, which are all
  -- but those of the type OIDC whose secret is in the namespace of the DexServer, the deployment
  -- last made has that variable, which reads, from the copy of the secret, the password to bind with
  -- for LDAP and the client secret for the others, and the copy is a stored secret.
  pub sync_all-wires :
      (m : DexServer) (s : S)
      → (sync_all w m s).0 ≡ ok tt
      → all_known m.spec.connectors ≡ true
      → (ds : List DexConnectorSpec) × (yaml : Str) × (x : Extras) × (config_hash : Str)
        × (expiry : Str) × (w.marshal_connectors ds ≡ ok yaml)
        × ((view (sync_all w m s).1).applied config_map_file
            ≡ some (
                config_map_values
                  (record { issuer = m.spec.issuer; connectors_yaml = yaml; dex_server = m })))
        × ((view (sync_all w m s).1).applied deployment_file
            ≡ some (
                deployment_values
                  (values_of L m x (w.getenv dex_image_env_name) config_hash expiry)))
        × Refers m.spec.connectors ds
        × Wired m m.spec.connectors x.env_variables
        × CopiesHeld m m.spec.connectors (view (sync_all w m s).1).secrets
  sync_all-wires m s done known =
      let (d1, d2, d3, d4, d5, d6, d7, d8, same) = pass-eq-ok w m s done in
      let ((ds, yaml, got, marshalled, config), (x, hash, expiry, visited, deployed)) =
        sync_all-applies_dex L m s done known in
      let connectors = m.spec.connectors in
      let bound =
        held_after view (sync_cluster_role_binding w m)
          (λ k. binding-Preserves L (HasSecretAt-ServerStable k) m) m connectors
          (after_account w m s)
          (held_after view (sync_service_account w m)
            (λ k. account-Preserves L (HasSecretAt-ServerStable k) m) m connectors
            (after_grpc w m s)
            (held_after view (sync_service_grpc w m)
              (λ k. grpc-Preserves L (HasSecretAt-ServerStable k) m) m connectors (after_http w m s)
              (held_after view (sync_service w m)
                (λ k. http-Preserves L (HasSecretAt-ServerStable k) m) m connectors
                (after_config w m s)
                (sync_config_map-CopiesHeld L m (after_mtls w m s) ds d2 got)))) in
      let ended =
        held_after view (sync_ingress w m) (λ k. ingress-Preserves L (HasSecretAt-ServerStable k) m)
          m connectors (after_deployment w m s)
          (held_after view (sync_deployment w m)
            (λ k. deployment-Preserves L (HasSecretAt-ServerStable k) m) m connectors
            (after_binding w m s) bound) in
      (
        ds,
        yaml,
        x,
        hash,
        expiry,
        marshalled,
        config,
        deployed,
        connectors_config-Refers w m connectors (after_mtls w m s) got,
        visits-Wired L m connectors no_extras (after_binding w m s) visited bound,
        rw same ended,
      )
