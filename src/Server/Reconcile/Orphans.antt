-- ===== src/Server/Reconcile/Orphans.antt =====
-- A DexServer does not go before its cleanup is done.
use dex_operator.Common.{
  ℕ, ◌≡◌, ◌≢◌, refl, ◌∙◌, ap, sym, false, none, some, Option-cases, GoError, pure, raise, ◌>>=◌,
  ◌returning◌, bind-cases, branch-cases, Keeps, Keeps-bind, Keeps-pure, Action, inl, inr, arith,
  if◌then◌else◌,
}
use mathlib.Core.Option.{some-injective}
use dex_operator.Api.{Key, DexServer}
use dex_operator.World.{World, View, ApiServer, put_server}
use dex_operator.World.Frames.{part, Writes-Keeps}
use dex_operator.World.Forms.{
  StoredServer-ServerStable, StoredServer-ServerUpdates, LiveServer-ServerForm,
}
use dex_operator.Server.Resources.{cluster_role_binding_name, process_dex_server_deletion}
use dex_operator.Server.Resources.Deletion.{process_deletion-Keeps, process_deletion-drops_binding}
use dex_operator.Server.Reconcile.{
  ReconcileResult, reconcile, reconcile_live, reconcile_deletion, dex_server_finalizer, done,
}
use dex_operator.Server.Reconcile.Preserved.{reconcile-Preserves}
use dex_operator.Server.Reconcile.Settles.{by_deletion, chosen_branch}
use dex_operator.Server.Reconcile.Cleanup.{without_finalizer}

missing : {A : Type 0} {a : A} → ¬ (some a ≡ none)
missing bad = ground arith

module _ {S : Type 0} {w : World S} {view : S → View} (L : ApiServer w view) where
  abbrev BindingGone : DexServer → S → Type 0
  BindingGone m s = (view s).bindings (cluster_role_binding_name m) ≡ false

  release-Keeps :
      (m : DexServer) → Keeps (part view (λ v. v.bindings)) (w.update_dex_server m returning done)
  release-Keeps m =
      let written =
        Writes-Keeps view (λ v. v.bindings) _ (put_server m) (L.update_server_writes m)
          (λ v. refl) in
      Keeps-bind _ _ written λ n. Keeps-pure done

  -- Where nothing is stored after the deletion branch, its cleanup was done.
  deletion-cleans_first :
      (m n : DexServer) (k : Key) (s : S)
      → (view s).dex_servers k ≡ some n
      → (view (reconcile_deletion w m s).1).dex_servers k ≡ none
      → BindingGone m (reconcile_deletion w m s).1
  unfolding reconcile_deletion
  deletion-cleans_first m n k s stored gone =
      elim (bind-cases (process_dex_server_deletion w m)
        (λ _. w.update_dex_server (without_finalizer w m) returning done) s) [
          | inl (_, cleaned, same) ↦ rw same (
              ap (λ b. b (cluster_role_binding_name m))
                ((release-Keeps (without_finalizer w m)).same _)
              ∙ process_deletion-drops_binding L m s cleaned)
          | inr same ↦
              let kept = (process_deletion-Keeps L (λ v. v.dex_servers) (λ n v. refl) m).same s in
              absurd (missing (sym stored ∙ ap (λ f. f k) (sym kept) ∙ (rw same at gone)))
        ]

  -- What follows a read that failed changes nothing.
  no_object : (e : GoError) (s : S) → ((if e.not_found then pure done else raise e) s).1 ≡ s
  unfolding ◌>>=◌
  no_object e s = ground arith

  -- The pass over one that is being deleted.
  deletion-leaves_no_orphan :
      (k : Key) (m : DexServer) (s : S) {t : ℕ}
      → (view s).dex_servers k ≡ some m
      → m.deletion_timestamp ≡ some t
      → (view (reconcile w k s).1).dex_servers k ≡ none
      → BindingGone m (reconcile w k s).1
  unfolding reconcile
  deletion-leaves_no_orphan k m s stored deleted gone =
      let s₁ = (w.get_dex_server k s).1 in
      let still = ap (λ (v : View). v.dex_servers k) (L.get_server_reads k s) ∙ stored in
      elim (branch-cases (w.get_dex_server k) (by_deletion L)
        (λ e. if e.not_found then pure done else raise e) s) [
          | inl (n, found, same) ↦
              let (_, at_k) = (rw found at (L.get_server_finds k s)) in
              let is_m : n ≡ m = some-injective _ _ (sym at_k ∙ stored) in
              let chosen : reconcile w k s ≡ reconcile_deletion w m s₁ =
                same
                ∙ ap (λ y. by_deletion L y s₁) is_m
                ∙ ap (λ (f : Action S ReconcileResult). f s₁)
                    (chosen_branch m.deletion_timestamp (reconcile_live w m)
                      (reconcile_deletion w m) deleted) in
              rw chosen (deletion-cleans_first m m k s₁ still (rw chosen at gone))
          | inr (inl (e, failed, same)) ↦ absurd (
              missing_at _ still (
                ap (λ (x : S). (view x).dex_servers k) (sym (ap (λ x. x.1) same ∙ no_object e s₁))
                ∙ gone))
          | inr (inr same) ↦
              absurd (missing_at _ still (ap (λ (x : S). (view x).dex_servers k) (sym same) ∙ gone))
        ]
    where
      missing_at : (x : S) → (view x).dex_servers k ≡ some m → (view x).dex_servers k ≢ none
      missing_at x is not = missing (sym is ∙ not)

  -- A pass over a DexServer after which nothing is stored under its key, however the pass ended,
  -- was over one that is being deleted, and has left no cluster role binding of its namespace: no
  -- DexServer goes before its cleanup is done.
  pub reconcile-leaves_no_orphan :
      (k : Key) (m : DexServer) (s : S)
      → (view s).dex_servers k ≡ some m
      → (view (reconcile w k s).1).dex_servers k ≡ none
      → (m.deletion_timestamp ≢ none) × BindingGone m (reconcile w k s).1
  reconcile-leaves_no_orphan k m s stored gone = elim (Option-cases m.deletion_timestamp) [
    | inl live ↦
        let F = LiveServer-ServerForm w dex_server_finalizer m.spec in
        let (n, kept, _) =
          (reconcile-Preserves L (StoredServer-ServerStable F k) (StoredServer-ServerUpdates F k)
              k).after
            s (m, stored, (refl, live)) in
        absurd (missing (sym kept ∙ gone))
    | inr (t, deleted) ↦
        (λ live. missing (sym deleted ∙ live), deletion-leaves_no_orphan k m s stored deleted gone)
  ]
