-- ===== src/Server/Reconcile/Preserved.antt =====
-- A pass over a DexServer keeps every stable property of what is stored.
use dex_operator.Common.{
  ◌≡◌, ◌∙◌, ap, Str, List, Bool, true, false, Action, Preserves, Preserves-bind, Preserves-pure,
  Preserves-option, Preserves-test, Preserves-match, Gives, Gives-branch, preserves_rules, ℕ, some,
}
use dex_operator.Api.{Key, Secret, DexServer, Condition}
use dex_operator.World.{World, View, ApiServer, put_server}
use dex_operator.World.Stable.{
  ServerStable, Seen, Reads-Preserves, Writes-Preserves, quiet-Preserves, apply-Preserves,
  get_secret-Preserves, create_secret-Preserves, update_secret-Preserves, server_status-Preserves,
  get_deployment-Preserves, get_binding-Preserves, delete_binding-Preserves,
}
use dex_operator.World.Updates.{ServerUpdates}
use dex_operator.Conditions.{update_dex_server_status_conditions}
use dex_operator.Server.Mtls.{
  needs_renewal, new_mtls_secret, renew_mtls_secret, create_mtls_secret, manage_mtls_secret,
}
use dex_operator.Server.Mtls.Renewal.{needs_renewal-Keeps, new_mtls_secret-Keeps}
use dex_operator.Server.ConfigMap.Preserved.{sync_config_map-Preserves}
use dex_operator.Server.Deployment.Preserved.{deployment-Preserves}
use dex_operator.Server.Resources.{
  sync_service_account, sync_cluster_role_binding, sync_service, sync_service_grpc, sync_ingress,
  process_dex_server_deletion,
}
use dex_operator.Server.Reconcile.{
  reconcile_step, sync_all, report_applied, get_dex_server_deployment_condition, reconcile_live,
  ensure_finalizer, reconcile_deletion, reconcile, dex_server_finalizer,
}

module _ {S : Type 0} {w : World S} {view : S → View} (L : ApiServer w view) {P : View → Type 0}
    (C : ServerStable P) where
  pub http-Preserves : (m : DexServer) → Preserves (Seen view P) (sync_service w m)
  unfolding sync_service
  http-Preserves m = search (apply-Preserves L C)

  pub grpc-Preserves : (m : DexServer) → Preserves (Seen view P) (sync_service_grpc w m)
  unfolding sync_service_grpc
  grpc-Preserves m = search (apply-Preserves L C)

  pub account-Preserves : (m : DexServer) → Preserves (Seen view P) (sync_service_account w m)
  unfolding sync_service_account
  account-Preserves m = search (apply-Preserves L C)

  pub binding-Preserves : (m : DexServer) → Preserves (Seen view P) (sync_cluster_role_binding w m)
  unfolding sync_cluster_role_binding
  binding-Preserves m = search (apply-Preserves L C)

  pub ingress-Preserves : (m : DexServer) → Preserves (Seen view P) (sync_ingress w m)
  unfolding sync_ingress
  ingress-Preserves m =
      Preserves-option (w.url_host m.spec.issuer) _ _ (search preserves_rules)
        λ host. search (preserves_rules, apply-Preserves L C)

  new_secret-Preserves : (m : DexServer) → Preserves (Seen view P) (new_mtls_secret w m)
  new_secret-Preserves m = quiet-Preserves view P _ (new_mtls_secret-Keeps L (λ v. v) m)

  renew-Preserves : (m : DexServer) (b : Bool) → Preserves (Seen view P) (renew_mtls_secret w m b)
  unfolding renew_mtls_secret
  renew-Preserves m true =
      search (preserves_rules, new_secret-Preserves, update_secret-Preserves L C.secret)
  renew-Preserves m false = search preserves_rules

  create-Preserves : (m : DexServer) → Preserves (Seen view P) (create_mtls_secret w m)
  unfolding create_mtls_secret
  create-Preserves m =
      search (preserves_rules, new_secret-Preserves, create_secret-Preserves L C.secret)

  needs_renewal-Preserves : (x : Secret) → Preserves (Seen view P) (needs_renewal w x)
  needs_renewal-Preserves x = quiet-Preserves view P _ (needs_renewal-Keeps L (λ v. v) x)

  pub mtls-Preserves : (m : DexServer) → Preserves (Seen view P) (manage_mtls_secret w m)
  unfolding manage_mtls_secret
  mtls-Preserves m = search (
    preserves_rules,
    get_secret-Preserves L C.secret,
    needs_renewal-Preserves,
    renew-Preserves,
    create-Preserves,
  )

  conditions-Preserves :
      (m : DexServer) (cs : List Condition)
      → Preserves (Seen view P) (update_dex_server_status_conditions w m cs)
  unfolding update_dex_server_status_conditions
  conditions-Preserves m cs = server_status-Preserves L C _

  step-Preserves :
      (m : DexServer) (reason text : Str) (sync : DexServer → Action S (Unit {0}))
      → Preserves (Seen view P) (sync m)
      → Preserves (Seen view P) (reconcile_step w m reason text sync)
  unfolding reconcile_step
  step-Preserves m reason text sync keeps = search (preserves_rules, conditions-Preserves)

  pub sync_all-Preserves : (m : DexServer) → Preserves (Seen view P) (sync_all w m)
  unfolding sync_all
  sync_all-Preserves m =
      search
        (
          preserves_rules,
          step-Preserves,
          mtls-Preserves,
          sync_config_map-Preserves L C,
          http-Preserves,
          grpc-Preserves,
          account-Preserves,
          binding-Preserves,
          deployment-Preserves L C,
          ingress-Preserves,
        )
        depth 20

  pub report-Preserves : (m : DexServer) → Preserves (Seen view P) (report_applied w m)
  unfolding report_applied get_dex_server_deployment_condition
  report-Preserves m = search (preserves_rules, conditions-Preserves, get_deployment-Preserves L C)

  cleanup-Preserves : (m : DexServer) → Preserves (Seen view P) (process_dex_server_deletion w m)
  unfolding process_dex_server_deletion
  cleanup-Preserves m =
      search (preserves_rules, get_binding-Preserves L C, delete_binding-Preserves L C)

  module _ {Allowed : DexServer → Type 0} (U : ServerUpdates w dex_server_finalizer P Allowed) where
    update-Preserves : (m : DexServer) → Allowed m → Preserves (Seen view P) (w.update_dex_server m)
    update-Preserves m allowed =
        Writes-Preserves view P _ (put_server m) (L.update_server_writes m)
          (λ v. U.updated m v allowed)

    read-Gives : (k : Key) → Gives (Seen view P) Allowed (w.get_dex_server k)
    read-Gives k = record {
      preserves = Reads-Preserves view P _ (L.get_server_reads k);
      value = λ s m h found.
          let (key, stored) = (rw found at (L.get_server_finds k s)) in
          U.read m (view s) (ap (view s).dex_servers key ∙ stored) h;
    }

    ensure-Preserves : (m : DexServer) → Allowed m → Preserves (Seen view P) (ensure_finalizer w m)
    unfolding ensure_finalizer
    ensure-Preserves m allowed =
        Preserves-test _ _ _ (λ has. search preserves_rules)
          (λ misses. update-Preserves _ (U.finalized m misses allowed))

    live-Preserves : (m : DexServer) → Allowed m → Preserves (Seen view P) (reconcile_live w m)
    unfolding reconcile_live
    live-Preserves m allowed =
        search (preserves_rules, ensure-Preserves, sync_all-Preserves, report-Preserves)

    deletion-Preserves :
        (m : DexServer) (t : ℕ)
        → m.deletion_timestamp ≡ some t
        → Allowed m
        → Preserves (Seen view P) (reconcile_deletion w m)
    unfolding reconcile_deletion
    deletion-Preserves m t deleted allowed = Preserves-bind _ _ (cleanup-Preserves m) λ _.
        Preserves-bind _ _ (update-Preserves _ (U.released m t deleted allowed))
          λ _. Preserves-pure _

    -- A whole pass keeps such a property, whichever way it ends.
    pub reconcile-Preserves : (k : Key) → Preserves (Seen view P) (reconcile w k)
    unfolding reconcile
    reconcile-Preserves k =
        Gives-branch _ _ _ (read-Gives k)
          (λ m allowed.
            Preserves-match m.deletion_timestamp _ _ (λ live. live-Preserves m allowed)
              (λ t deleted. deletion-Preserves m t deleted allowed))
          (λ e. search preserves_rules)
