-- ===== src/Client/Orphans/Pass.antt =====
-- A DexClient does not go before dex has removed its client: over a whole pass.
use dex_operator.Common.{
  ◌≡◌, ◌≢◌, refl, ◌∙◌, ap, sym, true, false, not, ◌&&◌, none, some, Option-cases, GoError, lit,
  str_eq, [], ◌∷◌, pure, raise, ◌>>=◌, ◌returning◌, branch-cases, Preserves, preserves_rules, inl,
  inr, arith, if◌then◌else◌,
}
use mathlib.Core.Option.{some-injective}
use dex_operator.Api.{Key, DexClient}
use dex_operator.World.{World, View, ApiServer, DexLaws}
use dex_operator.World.Stable.{Seen, Reads-Preserves}
use dex_operator.World.Forms.{
  StoredClient-ClientStable, StoredClient-ClientUpdates, LiveClient-ClientForm,
}
use dex_operator.Conditions.{ExternLaws, update_dex_client_status_conditions}
use dex_operator.Server.Mtls.{secret_mtls_name}
use dex_operator.Server.Reconcile.{done}
use dex_operator.Client.Credential.{get_mtls_secret}
use dex_operator.Client.Oauth.{fail_client}
use dex_operator.Client.Reconcile.{
  dex_client_finalizer, is_deleted, was_created, ensure_client_finalizer, reconcile_with_secret,
  reconcile_client, wait_for_mtls, waiting_condition, reconcile,
}
use dex_operator.Client.Preserved.{conditions-Preserves, fail-Preserves}
use dex_operator.Client.Preserved.Pass.{reconcile-Preserves}
use dex_operator.Client.Removal.{Gone}
use dex_operator.Client.Removal.Pass.{address, after_finalizer}
use dex_operator.Client.Orphans.{
  missing, StillThere, StillThere-ClientStable, Clears, with_secret-Clears,
}

module _ {S : Type 0} {w : World S} {view : S → View} (L : ApiServer w view) (D : DexLaws w view)
    (E : ExternLaws w) (j : Key) where
  after_finalizer-Clears :
      (m : DexClient) → is_deleted m ≡ true → Clears L D E j (address m) m (after_finalizer w m)
  after_finalizer-Clears m deleted s there gone =
      let C = StillThere-ClientStable j in
      let k : Key = record { namespace = m.namespace; name = secret_mtls_name } in
      let there₁ =
        (Reads-Preserves view (StillThere j) (w.get_secret k) (L.get_secret_reads k)).after s
          there in
      elim (branch-cases (get_mtls_secret w m) (λ x. reconcile_with_secret w m x)
        (λ e.
          if e.not_found
          then update_dex_client_status_conditions w m (waiting_condition ∷ [])
            returning wait_for_mtls
          else fail_client w m (lit "MTLSSecretCheckFailed")
              (lit "failed checking MTLS secret. error: ") e)
        s) [
          | inl (x, found, same) ↦
              rw same (with_secret-Clears L D E j m x deleted _ there₁ (rw same at gone))
          | inr (inl (e, failed, same)) ↦
              absurd ((unread-Preserves m e).after _ there₁ (rw same at gone))
          | inr (inr same) ↦ absurd (there₁ (rw same at gone))
        ]
    where
      unread-Preserves :
          (m : DexClient) (e : GoError)
          → Preserves (Seen view (StillThere j)) (
              if e.not_found
              then update_dex_client_status_conditions w m (waiting_condition ∷ [])
                returning wait_for_mtls
              else fail_client w m
                  (lit "MTLSSecretCheckFailed")
                  (lit "failed checking MTLS secret. error: ")
                  e)
      unread-Preserves m e = search (
        preserves_rules,
        conditions-Preserves L D (StillThere-ClientStable j),
        fail-Preserves L D (StillThere-ClientStable j),
      )

  client-Clears :
      (m : DexClient)
      → is_deleted m ≡ true
      → was_created m ≡ true
      → w.contains_finalizer m.finalizers dex_client_finalizer ≡ true
      → Clears L D E j (address m) m (reconcile_client w m)
  unfolding reconcile_client ensure_client_finalizer ◌>>=◌
  client-Clears m deleted created has s there gone =
      let goes_on : is_deleted m && not (was_created m) ≡ false = rw (deleted, created) refl in
      let same : reconcile_client w m s ≡ after_finalizer w m s = rw (goes_on, has) refl in
      rw same (after_finalizer-Clears m deleted s there (rw same at gone))

  no_object : (e : GoError) (s : S) → ((if e.not_found then pure done else raise e) s).1 ≡ s
  unfolding ◌>>=◌
  no_object e s = ground arith

  deleted-Clears :
      (m : DexClient) (s : S)
      → (view s).dex_clients j ≡ some m
      → is_deleted m ≡ true
      → was_created m ≡ true
      → w.contains_finalizer m.finalizers dex_client_finalizer ≡ true
      → (view (reconcile w j s).1).dex_clients j ≡ none
      → Gone D (address m) m.spec.client_id (reconcile w j s).1
  unfolding reconcile
  deleted-Clears m s stored deleted created has gone =
      let s₁ = (w.get_dex_client j s).1 in
      let there =
        (Reads-Preserves view (StillThere j) (w.get_dex_client j) (D.get_client_reads j)).after s
          (λ is. missing (sym stored ∙ is)) in
      elim (branch-cases (w.get_dex_client j) (λ n. reconcile_client w n)
        (λ e. if e.not_found then pure done else raise e) s) [
          | inl (n, found, same) ↦
              let (_, at_j) = (rw found at (D.get_client_finds j s)) in
              let is_m : n ≡ m = some-injective _ _ (sym at_j ∙ stored) in
              let same' : reconcile w j s ≡ reconcile_client w m s₁ =
                same ∙ ap (λ y. reconcile_client w y s₁) is_m in
              rw same' (client-Clears m deleted created has s₁ there (rw same' at gone))
          | inr (inl (e, failed, same)) ↦ absurd (
              there (
                ap (λ (x : S). (view x).dex_clients j) (sym (ap (λ x. x.1) same ∙ no_object e s₁))
                ∙ gone))
          | inr (inr same) ↦
              absurd (there (ap (λ (x : S). (view x).dex_clients j) (sym same) ∙ gone))
        ]

  -- A pass over a DexClient that has its finalizer, and whose status says that its client was
  -- created, after which nothing is stored under its key, however the pass ended, was over one that
  -- is being deleted, and the dex at its address has no client of its identifier: no DexClient that
  -- is marked as created goes before dex has removed its client.
  pub reconcile-leaves_no_client :
      (m : DexClient) (s : S)
      → (view s).dex_clients j ≡ some m
      → was_created m ≡ true
      → w.contains_finalizer m.finalizers dex_client_finalizer ≡ true
      → (view (reconcile w j s).1).dex_clients j ≡ none
      → (m.deletion_timestamp ≢ none) × Gone D (address m) m.spec.client_id (reconcile w j s).1
  reconcile-leaves_no_client m s stored created has gone =
      elim (Option-cases m.deletion_timestamp) [
        | inl live ↦
            let F = LiveClient-ClientForm w dex_client_finalizer m.spec in
            let (n, kept, _) =
              (reconcile-Preserves L D (StoredClient-ClientStable F j)
                  (StoredClient-ClientUpdates F j) j).after
                s (m, stored, (refl, live)) in
            absurd (missing (sym kept ∙ gone))
        | inr (t, deleted) ↦ (
          λ live. missing (sym deleted ∙ live),
          deleted-Clears m s stored (ground arith) created has gone,
        )
      ]
