-- ===== src/Server/Reconcile/Cleanup.antt =====
-- The finalizer of a DexServer holds until its binding is gone.
use dex_operator.Common.{
  ◌≡◌, refl, false, ok, err, GoError, ◌returning◌, bind-eq-ok, bind-eq-err, returning-eq-ok,
}
use mathlib.Core.Option
use dex_operator.Api.{DexServer, server_key}
use dex_operator.World.{World, View, ApiServer, put_server, updated_server}
use dex_operator.World.Facts.{wrote, same_key_refl}
use dex_operator.Server.Resources.{cluster_role_binding_name, process_dex_server_deletion}
use dex_operator.Server.Resources.Deletion.{process_deletion-Keeps, process_deletion-drops_binding}
use dex_operator.Server.Reconcile.{ReconcileResult, reconcile_deletion, done, dex_server_finalizer}

-- The object that the update without the finalizer sends.
abbrev pub without_finalizer : {S : Type 0} → World S → DexServer → DexServer
without_finalizer w m = record m {
  finalizers = w.remove_finalizer m.finalizers dex_server_finalizer;
}

module _ {S : Type 0} {w : World S} {view : S → View} (L : ApiServer w view) where
  -- When the deletion branch succeeds, the cluster role binding of the namespace is gone, and the
  -- stored DexServer is what the API server makes of it without the finalizer.
  pub reconcile_deletion-cleans :
      (m : DexServer) (s : S) {r : ReconcileResult}
      → (reconcile_deletion w m s).0 ≡ ok r
      → ((view (reconcile_deletion w m s).1).bindings (cluster_role_binding_name m) ≡ false)
        × ((view (reconcile_deletion w m s).1).dex_servers (server_key m)
            ≡ Option.bind
                ((view s).dex_servers (server_key m))
                (updated_server (without_finalizer w m)))
  unfolding reconcile_deletion
  reconcile_deletion-cleans m s succeeded =
      let (_, cleaned, same, rest) = bind-eq-ok (process_dex_server_deletion w m) _ s succeeded in
      let (y, updated, last) =
        returning-eq-ok (w.update_dex_server (without_finalizer w m)) _ _ rest in
      let stored =
        wrote view (w.update_dex_server (without_finalizer w m))
          (put_server (without_finalizer w m)) _ (L.update_server_writes (without_finalizer w m))
          updated in
      let kept = (process_deletion-Keeps L (λ v. v.dex_servers) (λ n v. refl) m).same s in
      (
        rw (same, last, stored) (process_deletion-drops_binding L m s cleaned),
        rw (same, last, stored, same_key_refl, kept),
      )

  -- When the cleanup fails, its error is returned, and every stored DexServer stays as it is, its
  -- finalizers included.
  pub reconcile_deletion-stops :
      (m : DexServer) (s : S) {e : GoError}
      → (process_dex_server_deletion w m s).0 ≡ err e
      → ((reconcile_deletion w m s).0 ≡ err e)
        × ((view (reconcile_deletion w m s).1).dex_servers ≡ (view s).dex_servers)
  unfolding reconcile_deletion
  reconcile_deletion-stops m s failed =
      let stops =
        bind-eq-err (process_dex_server_deletion w m)
          (λ _. w.update_dex_server (without_finalizer w m) returning done) s failed in
      (
        rw stops refl,
        rw stops ((process_deletion-Keeps L (λ v. v.dex_servers) (λ n v. refl) m).same s),
      )
