-- ===== src/Server/Resources.antt =====
-- The resources that one template makes: the service account, the cluster role and its binding,
-- the two services and the ingress, with the cleanup of the binding.
pub mod Deletion
use dex_operator.Common.{
  lift, branch, pure, Str, [], ◌∷◌, ◌++◌, none, some, lit, Action, raise, panic, if◌then◌else◌,
}
use dex_operator.Api.{DexServer}
use dex_operator.World.{
  World, service_account_values, cluster_role_binding_values, service_values, service_grpc_values,
  ingress_values, cluster_role_values, directly, custom_resources,
}
use dex_operator.Certs.{grpc_service_name}

abbrev pub service_account_name : Str
service_account_name = lit "dex-operator-dexsso"

abbrev pub secret_web_tls_suffix : Str
secret_web_tls_suffix = lit "-tls-secret"

abbrev pub cluster_role_binding_name : DexServer → Str
cluster_role_binding_name m = service_account_name ++ lit "-" ++ m.namespace

abbrev pub tls_secret_name : DexServer → Str
tls_secret_name m = m.name ++ secret_web_tls_suffix

-- The template files, in deploy.
abbrev pub service_account_file : Str
service_account_file = lit "dex-server/service_account.yaml"

abbrev pub cluster_role_binding_file : Str
cluster_role_binding_file = lit "dex-server/cluster_role_binding.yaml"

abbrev pub service_http_file : Str
service_http_file = lit "dex-server/service_http.yaml"

abbrev pub service_grpc_file : Str
service_grpc_file = lit "dex-server/service_grpc.yaml"

abbrev pub ingress_file : Str
ingress_file = lit "dex-server/ingress.yaml"

abbrev pub cluster_role_file : Str
cluster_role_file = lit "dex-server/cluster_role.yaml"

module _ {S : Type 0} (w : World S) where
  unfoldable pub sync_service_account : DexServer → Action S (Unit {0})
  sync_service_account m =
      w.apply directly (some m)
        (service_account_values
          (record { service_account_name = service_account_name; dex_server = m }))
        (service_account_file ∷ [])

  unfoldable pub sync_cluster_role_binding : DexServer → Action S (Unit {0})
  sync_cluster_role_binding m =
      w.apply directly (some m)
        (cluster_role_binding_values (record {
          cluster_role_name = service_account_name;
          service_account_name = service_account_name;
          cluster_role_binding_name = cluster_role_binding_name m;
          dex_server = m;
        }))
        (cluster_role_binding_file ∷ [])

  unfoldable pub sync_service : DexServer → Action S (Unit {0})
  sync_service m =
      w.apply directly (some m)
        (service_values (record { serving_cert_secret_name = tls_secret_name m; dex_server = m }))
        (service_http_file ∷ [])

  unfoldable pub sync_service_grpc : DexServer → Action S (Unit {0})
  sync_service_grpc m =
      w.apply directly (some m)
        (service_grpc_values (record { grpc_service_name = grpc_service_name; dex_server = m }))
        (service_grpc_file ∷ [])

  -- The error of `url.Parse` is dropped, and the host is read through the nil pointer that it
  -- leaves.
  unfoldable pub sync_ingress : DexServer → Action S (Unit {0})
  sync_ingress m = elim (w.url_host m.spec.issuer) [
    | none ↦ lift panic
    | some host ↦
        w.apply custom_resources (some m)
          (ingress_values (record {
            host = host;
            dex_server = m;
            ingress_certificate_name = m.spec.ingress_certificate_ref;
          }))
          (ingress_file ∷ [])
  ]

  -- `installClusterRole` builds its applier with no owner.
  unfoldable pub install_cluster_role : Action S (Unit {0})
  install_cluster_role =
      w.apply directly none (cluster_role_values service_account_name) (cluster_role_file ∷ [])

  -- `processDexServerDeletion`
  unfoldable pub process_dex_server_deletion : DexServer → Action S (Unit {0})
  process_dex_server_deletion m =
      branch (w.get_cluster_role_binding (cluster_role_binding_name m))
        (λ crb. w.delete_cluster_role_binding crb) (λ e. if e.not_found then pure tt else raise e)
