-- ===== src/Server/Resources/Deletion.antt =====
-- The cleanup before a DexServer goes: what `processDexServerDeletion` leaves.
use dex_operator.Common.{
  ◌>>=◌, ◌≡◌, ◌∙◌, ap, false, Str, str_eq, ok, inl, inr, Keeps, keeps_rules, pure, branch-eq-ok,
  unless_missing-eq-ok, arith,
}
use dex_operator.Api.{DexServer, ClusterRoleBinding}
use dex_operator.World.{World, View, ApiServer, drop_binding}
use dex_operator.World.Facts.{wrote}
use dex_operator.Server.Resources.{cluster_role_binding_name, process_dex_server_deletion}

module _ {S : Type 0} {w : World S} {view : S → View} (L : ApiServer w view) where
  delete-Keeps :
      {X : Type 0} (p : View → X)
      → ((n : Str) (v : View) → p (drop_binding n v) ≡ p v)
      → (b : ClusterRoleBinding) → Keeps (λ s. p (view s)) (w.delete_cluster_role_binding b)
  delete-Keeps p same b = record {
    same = λ s. ap p (L.delete_binding_writes b s) ∙ ground (arith, same b.name (view s));
  }

  get-Keeps :
      {X : Type 0} (p : View → X) (n : Str) → Keeps (λ s. p (view s)) (w.get_cluster_role_binding n)
  get-Keeps p n = record { same = λ s. ap p (L.get_binding_reads n s) }

  -- The cleanup touches nothing but bindings.
  pub process_deletion-Keeps :
      {X : Type 0} (p : View → X)
      → ((n : Str) (v : View) → p (drop_binding n v) ≡ p v)
      → (m : DexServer) → Keeps (λ s. p (view s)) (process_dex_server_deletion w m)
  unfolding process_dex_server_deletion
  process_deletion-Keeps p same m = search (keeps_rules, get-Keeps p, delete-Keeps p same)

  binding_gone :
      (m : DexServer) (b : ClusterRoleBinding) (s : S)
      → b.name ≡ cluster_role_binding_name m
      → (w.delete_cluster_role_binding b s).0 ≡ ok tt
      → (view (w.delete_cluster_role_binding b s).1).bindings (cluster_role_binding_name m) ≡ false
  binding_gone m b s named done = ground (
    arith,
    ap (λ (v : View). v.bindings (cluster_role_binding_name m))
        (wrote view (w.delete_cluster_role_binding b) (drop_binding b.name) s
          (L.delete_binding_writes b) done),
  )

  -- After a cleanup that succeeded the binding of the namespace does not exist.
  pub process_deletion-drops_binding :
      (m : DexServer) (s : S)
      → (process_dex_server_deletion w m s).0 ≡ ok tt
      → (view (process_dex_server_deletion w m s).1).bindings (cluster_role_binding_name m) ≡ false
  unfolding process_dex_server_deletion ◌>>=◌
  process_deletion-drops_binding m s done =
      elim (branch-eq-ok (w.get_cluster_role_binding (cluster_role_binding_name m)) _ _ s done) [
        | inl (b, found, same, good) ↦
            rw same (binding_gone m b _ (L.get_binding_names _ s b found) good)
        | inr (e, failed, same, good) ↦
            let (missing, stays, _) = unless_missing-eq-ok e _ (pure tt) _ good in
            rw (same, stays)
              (ap (λ (v : View). v.bindings (cluster_role_binding_name m))
                  (L.get_binding_reads (cluster_role_binding_name m) s)
                ∙ L.get_binding_missing (cluster_role_binding_name m) s failed missing)
      ]
