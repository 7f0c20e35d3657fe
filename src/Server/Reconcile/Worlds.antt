-- ===== src/Server/Reconcile/Worlds.antt =====
-- The worlds that a pass over the eight calls of `Reconcile` goes through.
use dex_operator.Common.{◌≡◌, ◌∙◌, Str, str_eq, ok, Action, ◌>>=◌, bind-eq-ok}
use dex_operator.Api.{DexServer}
use dex_operator.World.{World}
use dex_operator.Server.Mtls.{manage_mtls_secret}
use dex_operator.Server.ConfigMap.{sync_config_map}
use dex_operator.Server.Deployment.{sync_deployment}
use dex_operator.Server.Resources.{
  sync_service_account, sync_cluster_role_binding, sync_service, sync_service_grpc, sync_ingress,
}
use dex_operator.Server.Reconcile.{reconcile_step, sync_all}
use dex_operator.Server.Reconcile.Steps.{reconcile_step-eq-ok}

module _ {S : Type 0} (w : World S) where
  -- The worlds after the first calls of a pass.
  abbrev pub after_mtls : DexServer → S → S
  after_mtls m s = (manage_mtls_secret w m s).1

  abbrev pub after_config : DexServer → S → S
  after_config m s = (sync_config_map w m (after_mtls m s)).1

  abbrev pub after_http : DexServer → S → S
  after_http m s = (sync_service w m (after_config m s)).1

  abbrev pub after_grpc : DexServer → S → S
  after_grpc m s = (sync_service_grpc w m (after_http m s)).1

  abbrev pub after_account : DexServer → S → S
  after_account m s = (sync_service_account w m (after_grpc m s)).1

  abbrev pub after_binding : DexServer → S → S
  after_binding m s = (sync_cluster_role_binding w m (after_account m s)).1

  abbrev pub after_deployment : DexServer → S → S
  after_deployment m s = (sync_deployment w m (after_binding m s)).1

  step_then :
      (m : DexServer) (reason text : Str) (sync : DexServer → Action S (Unit {0}))
      (k : Action S (Unit {0})) (s : S)
      → ((reconcile_step w m reason text sync >>= λ _. k) s).0 ≡ ok tt
      → ((sync m s).0 ≡ ok tt)
        × ((reconcile_step w m reason text sync >>= λ _. k) s ≡ k (sync m s).1)
        × ((k (sync m s).1).0 ≡ ok tt)
  step_then m reason text sync k s done =
      let (u, good, same, rest) =
        bind-eq-ok (reconcile_step w m reason text sync) (λ _. k) s done in
      let (synced, is_sync) = reconcile_step-eq-ok w m reason text sync s good in
      (synced, rw is_sync at same, rw is_sync at rest)

  -- A pass that succeeded went through the eight calls with success.
  pub pass-eq-ok :
      (m : DexServer) (s : S)
      → (sync_all w m s).0 ≡ ok tt
      → ((manage_mtls_secret w m s).0 ≡ ok tt)
        × ((sync_config_map w m (after_mtls m s)).0 ≡ ok tt)
        × ((sync_service w m (after_config m s)).0 ≡ ok tt)
        × ((sync_service_grpc w m (after_http m s)).0 ≡ ok tt)
        × ((sync_service_account w m (after_grpc m s)).0 ≡ ok tt)
        × ((sync_cluster_role_binding w m (after_account m s)).0 ≡ ok tt)
        × ((sync_deployment w m (after_binding m s)).0 ≡ ok tt)
        × ((sync_ingress w m (after_deployment m s)).0 ≡ ok tt)
        × (sync_all w m s ≡ sync_ingress w m (after_deployment m s))
  unfolding sync_all
  pass-eq-ok m s done =
      let (d1, e1, r1) = step_then m _ _ (manage_mtls_secret w) _ s done in
      let (d2, e2, r2) = step_then m _ _ (sync_config_map w) _ _ r1 in
      let (d3, e3, r3) = step_then m _ _ (sync_service w) _ _ r2 in
      let (d4, e4, r4) = step_then m _ _ (sync_service_grpc w) _ _ r3 in
      let (d5, e5, r5) = step_then m _ _ (sync_service_account w) _ _ r4 in
      let (d6, e6, r6) = step_then m _ _ (sync_cluster_role_binding w) _ _ r5 in
      let (d7, e7, r7) = step_then m _ _ (sync_deployment w) _ _ r6 in
      let (d8, e8) = reconcile_step-eq-ok w m _ _ (sync_ingress w) _ r7 in
      (d1, d2, d3, d4, d5, d6, d7, d8, e1 ∙ e2 ∙ e3 ∙ e4 ∙ e5 ∙ e6 ∙ e7 ∙ e8)
