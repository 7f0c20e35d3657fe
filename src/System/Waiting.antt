-- ===== src/System/Waiting.antt =====
-- How the controllers meet: the pass over a DexServer that makes the secret of the connection, and
-- the passes over the DexClients of the namespace, which wait for it.
use dex_operator.Common.{◌≡◌, ◌≢◌, ◌∙◌, ap, none, ok, List, bind-eq-ok, inl, inr, subst}
use dex_operator.Api.{Key, DexServer}
use dex_operator.World.{World, View, ApiServer, DexLaws}
use dex_operator.World.Stable.{Seen}
use dex_operator.World.Holds.{HasSecretAt, HasSecretAt-ServerStable}
use dex_operator.Conditions.{ExternLaws}
use dex_operator.Server.Mtls.{manage_mtls_secret}
use dex_operator.Server.Mtls.Renewal.{mtls_key, manage_mtls_secret-leaves}
use dex_operator.Server.ConfigMap.Preserved.{sync_config_map-Preserves}
use dex_operator.Server.Deployment.Preserved.{deployment-Preserves}
use dex_operator.Server.Reconcile.{ReconcileResult, sync_all, ensure_finalizer, report_applied}
use dex_operator.Server.Reconcile as DexServers
use dex_operator.Server.Reconcile.Live.{reconcile-live, finalizer_ensured}
use dex_operator.Server.Reconcile.Worlds.{pass-eq-ok}
use dex_operator.Server.Reconcile.Preserved.{
  http-Preserves, grpc-Preserves, account-Preserves, binding-Preserves, ingress-Preserves,
  report-Preserves,
}
use dex_operator.Client.Reconcile as DexClients
use dex_operator.Client.Reconcile.{wait_for_mtls}
use dex_operator.Client.Waiting.{connection_secret, reconcile-waits_only}
use dex_operator.System.{Event, run, OthersKeep}
use dex_operator.System.Stored.{run-keeps_secret}

module _ {S : Type 0} {w : World S} {view : S → View} (L : ApiServer w view)
    (E : ExternLaws w) where
  mtls-provides :
      (m : DexServer) (s : S)
      → (manage_mtls_secret w m s).0 ≡ ok tt
      → HasSecretAt (mtls_key m) (view (manage_mtls_secret w m s).1)
  mtls-provides m s good = elim (manage_mtls_secret-leaves L E m s good) [
    | inl (c, stored, current, same) ↦ (c, ap (λ (v : View). v.secrets (mtls_key m)) same ∙ stored)
    | inr (s', made) ↦ let (certs, generated, stored) = made in (_, stored)
  ]

  sync_all-provides :
      (m : DexServer) (s : S)
      → (sync_all w m s).0 ≡ ok tt
      → HasSecretAt (mtls_key m) (view (sync_all w m s).1)
  sync_all-provides m s good =
      let (made, d2, d3, d4, d5, d6, d7, d8, same) = pass-eq-ok w m s good in
      let C = HasSecretAt-ServerStable (mtls_key m) in
      rw same (
        (ingress-Preserves L C m).after _ (
          (deployment-Preserves L C m).after _ (
            (binding-Preserves L C m).after _ (
              (account-Preserves L C m).after _ (
                (grpc-Preserves L C m).after _ (
                  (http-Preserves L C m).after _
                    ((sync_config_map-Preserves L C m).after _ (mtls-provides m s made))))))))

  -- A pass over a DexServer that succeeded leaves the secret of the connection.
  reconcile-provides :
      (k : Key) (m : DexServer) (s : S) {r : ReconcileResult}
      → (w.get_dex_server k s).0 ≡ ok m
      → m.deletion_timestamp ≡ none
      → (DexServers.reconcile w k s).0 ≡ ok r
      → HasSecretAt (connection_secret k) (view (DexServers.reconcile w k s).1)
  unfolding DexServers.reconcile_live
  reconcile-provides k m s found live good =
      let is_live = reconcile-live w k m s found live in
      let s₁ = (ensure_finalizer w m (w.get_dex_server k s).1).1 in
      let (n, ensured, same, rest) = bind-eq-ok (ensure_finalizer w m) _ _ (rw is_live at good) in
      let (u, synced, same', reported) =
        bind-eq-ok (sync_all w n) (λ _. report_applied w n) _ rest in
      let (key, _, _) = finalizer_ensured L E m n _ ensured in
      let (at_k, _) = (rw found at (L.get_server_finds k s)) in
      let held =
        (report-Preserves L (HasSecretAt-ServerStable (mtls_key n)) n).after _
          (sync_all-provides n s₁ synced) in
      rw (is_live, same, same')
        (subst
          (λ j. HasSecretAt (connection_secret j) (view (report_applied w n (sync_all w n s₁).1).1))
          (key ∙ at_k) held)

module _ {S : Type 0} {w : World S} {view : S → View} (L : ApiServer w view) (D : DexLaws w view)
    (E : ExternLaws w) where
  -- Once a pass over a DexServer that was found and is not being deleted has succeeded, no later
  -- pass over a DexClient of its namespace answers that it waits for the secret of the
  -- connection, whatever passes of both controllers come in between, however they end, if what
  -- others do in between does not delete the secret.
  pub reconcile-ends_waiting :
      (k j : Key) (m : DexServer) (es : List (Event S)) (s : S) {r : ReconcileResult}
      → (w.get_dex_server k s).0 ≡ ok m
      → m.deletion_timestamp ≡ none
      → (DexServers.reconcile w k s).0 ≡ ok r
      → j.namespace ≡ k.namespace
      → OthersKeep (Seen view (HasSecretAt (connection_secret k))) es
      → (DexClients.reconcile w j (run w es (DexServers.reconcile w k s).1)).0 ≢ ok wait_for_mtls
  reconcile-ends_waiting k j m es s found live good same_namespace others =
      let held =
        run-keeps_secret L D es _ (connection_secret k) others
          (reconcile-provides L E k m s found live good) in
      reconcile-waits_only L D E j _ (rw same_namespace held)
