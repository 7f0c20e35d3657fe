-- ===== src/Server/Reconcile.antt =====
-- `Reconcile` of the DexServer controller, with the status of the deployment.
pub mod Cleanup
pub mod Preserved
pub mod Steps
pub mod Templates
pub mod Worlds
pub mod Pass
pub mod Live
pub mod Wiring
pub mod Isolation
pub mod Settles
pub mod Orphans
pub mod Success
use dex_operator.Common.{
  branch, pure, ◌returning◌, ℕ, Str, [], ◌∷◌, ◌++◌, Bool, true, false, Option, none, some, lit,
  GoError, Action, raise, handle, ◌>>=◌, ◌>>◌, if◌then◌else◌,
}
use dex_operator.Api.{
  Key, Condition, condition_true, condition_false, DexServer, server_key,
  dex_server_condition_applied, dex_server_deployment_available,
}
use dex_operator.World.{World}
use dex_operator.Certs.{hour}
use dex_operator.Conditions.{update_dex_server_status_conditions}
use dex_operator.Server.Mtls.{manage_mtls_secret}
use dex_operator.Server.ConfigMap.{sync_config_map}
use dex_operator.Server.Deployment.{sync_deployment}
use dex_operator.Server.Resources.{
  sync_service_account, sync_cluster_role_binding, sync_service, sync_service_grpc, sync_ingress,
  process_dex_server_deletion,
}

-- `ctrl.Result`
pub record ReconcileResult : Type 0 where
  pub requeue : Bool
  pub requeue_after : ℕ

-- `ctrl.Result{}`
abbrev pub done : ReconcileResult
done = record { requeue = false; requeue_after = 0 }

abbrev pub dex_server_finalizer : Str
dex_server_finalizer = lit "auth.identitatem.io/cleanup"

abbrev pub failed_condition : Str → Str → GoError → Condition
failed_condition reason text e = record {
  type = dex_server_condition_applied;
  status = condition_false;
  reason = reason;
  message = text ++ e.message;
}

abbrev pub applied_condition : Condition
applied_condition = record {
  type = dex_server_condition_applied;
  status = condition_true;
  reason = lit "Applied";
  message = lit "DexServer is applied";
}

abbrev pub unavailable_condition : Str → Condition
unavailable_condition detail = record {
  type = dex_server_deployment_available;
  status = condition_false;
  reason = lit "NotAvailable";
  message = lit "DexServer deployment is currently unavailable" ++ detail;
}

abbrev pub available_condition : Condition
available_condition = record {
  type = dex_server_deployment_available;
  status = condition_true;
  reason = lit "Available";
  message = lit "DexServer deployment is available";
}

-- The condition that a deployment's status gives; an error only counts if it is not available.
unfoldable pub deployment_condition : Bool × Option GoError → Condition
deployment_condition (true, _) = available_condition
deployment_condition (false, some e) = unavailable_condition (lit ", " ++ e.message)
deployment_condition (false, none) = unavailable_condition []

module _ {S : Type 0} (w : World S) where
  unfoldable pub get_dex_server_deployment_condition : DexServer → Action S Condition
  get_dex_server_deployment_condition m = do
    deployment ← w.get_deployment (server_key m)
    pure (deployment_condition (w.get_deployment_status deployment))

  -- One of the eight calls of `Reconcile`: on an error, the condition that reports it is stored,
  -- and the error is returned, unless storing it fails in turn.
  unfoldable pub reconcile_step :
      DexServer → Str → Str → (DexServer → Action S (Unit {0})) → Action S (Unit {0})
  reconcile_step m reason text sync = handle (sync m) (λ e.
      update_dex_server_status_conditions w m (failed_condition reason text e ∷ []) >>= λ _.
      raise e)

  unfoldable pub sync_all : DexServer → Action S (Unit {0})
  sync_all m = do
    reconcile_step m (lit "ConfigMTLSSecretFailed") (lit "failed to configure MTLS secret. error: ")
        (manage_mtls_secret w)
    reconcile_step m (lit "ConfigMapFailed") (lit "failed to sync ConfigMap. error: ")
        (sync_config_map w)
    reconcile_step m (lit "ConfigHTTPServiceFailed") (lit "failed to sync http service. error: ")
        (sync_service w)
    reconcile_step m (lit "ConfigGRPCServiceFailed") (lit "failed to sync grpc service. error: ")
        (sync_service_grpc w)
    reconcile_step m (lit "ConfigServiceAccountFailed")
        (lit "failed to sync ServiceAccount. error: ") (sync_service_account w)
    reconcile_step m (lit "ConfigClusterRoleBindingFailed")
        (lit "failed to sync ClusterRoleBinding. error: ") (sync_cluster_role_binding w)
    reconcile_step m (lit "ConfigDeploymentFailed") (lit "failed to sync Deployment. error: ")
        (sync_deployment w)
    reconcile_step m (lit "ConfigIngressFailed") (lit "failed to sync Ingress. error: ")
        (sync_ingress w)

  -- The branch for a DexServer that is being deleted.
  unfoldable pub reconcile_deletion : DexServer → Action S ReconcileResult
  reconcile_deletion m = do
    process_dex_server_deletion w m
    w.update_dex_server
          (record m { finalizers = w.remove_finalizer m.finalizers dex_server_finalizer })
        returning done

  -- The finalizer is added and stored before anything else; the answer replaces the object.
  unfoldable pub ensure_finalizer : DexServer → Action S DexServer
  ensure_finalizer m =
      if w.contains_finalizer m.finalizers dex_server_finalizer
      then pure m
      else w.update_dex_server
          (record m { finalizers = w.add_finalizer m.finalizers dex_server_finalizer })

  -- What follows the eight calls: the two conditions, and a requeue after an hour.
  unfoldable pub report_applied : DexServer → Action S ReconcileResult
  report_applied m = do
    m' ← update_dex_server_status_conditions w m (applied_condition ∷ [])
    cond ← get_dex_server_deployment_condition m'
    update_dex_server_status_conditions w m' (cond ∷ [])
        returning (record { requeue = true; requeue_after = hour })

  unfoldable pub reconcile_live : DexServer → Action S ReconcileResult
  reconcile_live m = do m' ← ensure_finalizer m; sync_all m'; report_applied m'

  unfoldable pub reconcile : Key → Action S ReconcileResult
  reconcile key =
      branch (w.get_dex_server key)
        (λ m. elim m.deletion_timestamp [ none ↦ reconcile_live m | some _ ↦ reconcile_deletion m ])
        (λ e. if e.not_found then pure done else raise e)
