-- ===== src/Client/Waiting.antt =====
-- When a pass over a DexClient asks to be repeated since the secret of the connection is missing.
use dex_operator.Common.{
  ◌≡◌, ◌≢◌, ◌∙◌, ap, sym, not, ◌&&◌, Option, none, some, str_eq, ok, pure, finally, bind-eq-ok,
  branch-eq-ok, returning-eq-ok, pure-eq-ok, unless_missing-eq-ok, Bool-cases, arith, inl, inr,
}
use dex_operator.Api.{Key, Secret, DexClient, client_key}
use dex_operator.World.{World, View, ApiServer, DexLaws, Connection}
use dex_operator.World.Holds.{HasSecretAt, HasSecretAt-ClientStable, HasSecretAt-ClientUpdates}
use dex_operator.Conditions.{ExternLaws}
use dex_operator.DexApi.{new_client_pem}
use dex_operator.Server.Mtls.{secret_mtls_name}
use dex_operator.Server.Reconcile.{ReconcileResult, done}
use dex_operator.Client.Credential.{get_mtls_secret}
use dex_operator.Client.Oauth.{delete_oauth2_client}
use dex_operator.Client.Outcomes.{sync_oauth2_client-never_fails}
use dex_operator.Client.Marks.{fail-not_ok}
use dex_operator.Client.Preserved.Pass.{ensure-Gives}
use dex_operator.Client.Reconcile.{
  reconcile, reconcile_client, reconcile_with_secret, reconcile_connected, drop_finalizer,
  ensure_client_finalizer, dex_api_options, is_deleted, was_created, wait_for_mtls,
}
use dex_operator.Client.Removal.Pass.{after_finalizer, ensure-SameClient}

-- Where the secret of the connection is looked for.
abbrev pub connection_secret : Key → Key
connection_secret j = record { namespace = j.namespace; name = secret_mtls_name }

wait-not_done : wait_for_mtls ≢ done
wait-not_done same = ground arith

module _ {S : Type 0} (w : World S) where
  drop_finalizer-done :
      (m : DexClient) (s : S) {r : ReconcileResult} → (drop_finalizer w m s).0 ≡ ok r → r ≡ done
  unfolding drop_finalizer
  drop_finalizer-done m s good =
      let (n, updated, same) = returning-eq-ok (w.update_dex_client _) done s good in ground arith

  connected-done :
      (c : Connection) (m : DexClient) (s : S) {r : ReconcileResult}
      → (reconcile_connected w c m s).0 ≡ ok r
      → r ≡ done
  unfolding reconcile_connected
  connected-done c m s good = elim (Bool-cases (is_deleted m)) [
    | inl deleted ↦
        let (_, _, _, rest) =
          bind-eq-ok (delete_oauth2_client w c m) (λ _. drop_finalizer w m) s
            (rw deleted at good) in
        drop_finalizer-done m _ rest
    | inr live ↦ (sync_oauth2_client-never_fails w c m s).1 _ (rw live at good)
  ]

  with_secret-done :
      (m : DexClient) (x : Secret) (s : S) {r : ReconcileResult}
      → (reconcile_with_secret w m x s).0 ≡ ok r
      → r ≡ done
  unfolding reconcile_with_secret finally
  with_secret-done m x s good =
      elim (branch-eq-ok (new_client_pem w (dex_api_options m x)) _ _ s good) [
        | inl (c, dialled, same, rest) ↦ connected-done c m _ rest
        | inr (e, failed, same, rest) ↦ absurd (fail-not_ok w m _ _ e _ rest)
      ]

module _ {S : Type 0} {w : World S} {view : S → View} (L : ApiServer w view) (D : DexLaws w view)
    (E : ExternLaws w) where
  has_not : {A : Type 0} {o : Option A} {a : A} → o ≡ none → o ≢ some a
  has_not gone there = ground arith

  -- Once the finalizer is there, only a missing secret makes the pass wait.
  finalized-waits_only :
      (m : DexClient) (k : Key) (s : S)
      → k ≡ record { namespace = m.namespace; name = secret_mtls_name }
      → HasSecretAt k (view s)
      → (after_finalizer w m s).0 ≢ ok wait_for_mtls
  finalized-waits_only m k s is_key (d, stored) waits =
      let at_key : (view s).secrets (record { namespace = m.namespace; name = secret_mtls_name })
          ≡ some d =
        ap (view s).secrets (sym is_key) ∙ stored in
      elim (branch-eq-ok (get_mtls_secret w m) _ _ s waits) [
        | inl (x, found, same, rest) ↦ wait-not_done (with_secret-done w m x _ rest)
        | inr (e, failed, same, rest) ↦
            let missing =
              (rw failed at (
                L.get_secret_finds (record { namespace = m.namespace; name = secret_mtls_name })
                  s)) in
            elim (Bool-cases e.not_found) [
              | inl is_missing ↦ has_not (missing is_missing) at_key
              | inr other ↦ fail-not_ok w m _ _ _ _ (rw other at rest)
            ]
      ]

  client-waits_only :
      (m : DexClient) (j : Key) (s : S)
      → client_key m ≡ j
      → HasSecretAt (connection_secret j) (view s)
      → (reconcile_client w m s).0 ≢ ok wait_for_mtls
  unfolding reconcile_client
  client-waits_only m j s is_key stored waits =
      elim (Bool-cases (is_deleted m && not (was_created m))) [
        | inl over ↦ wait-not_done (drop_finalizer-done w m s (rw over at waits))
        | inr goes_on ↦
            let (n, ensured, same, rest) =
              bind-eq-ok (ensure_client_finalizer w m) (after_finalizer w) s
                (rw goes_on at waits) in
            let (key, _, _) = ensure-SameClient L D E m s ensured in
            finalized-waits_only n (connection_secret j) _
              (ap connection_secret (sym (key ∙ is_key)))
              ((ensure-Gives L D (HasSecretAt-ClientStable _) (HasSecretAt-ClientUpdates w _ _) m
                  tt).preserves.after
                s stored)
              rest
      ]

  -- A pass over a DexClient answers that it waits for the secret of the connection only where the
  -- namespace has no such secret.
  pub reconcile-waits_only :
      (j : Key) (s : S)
      → HasSecretAt (connection_secret j) (view s)
      → (reconcile w j s).0 ≢ ok wait_for_mtls
  unfolding reconcile
  reconcile-waits_only j s (d, stored) waits =
      elim (branch-eq-ok (w.get_dex_client j) _ _ s waits) [
        | inl (m, found, same, rest) ↦
            let (key, at_j) = (rw found at (D.get_client_finds j s)) in
            client-waits_only m j _ key
              (
                d,
                ap (λ (v : View). v.secrets (connection_secret j)) (D.get_client_reads j s)
                    ∙ stored,
              )
              rest
        | inr (e, failed, same, rest) ↦
            let (_, _, is_done) = unless_missing-eq-ok e e (pure done) _ rest in
            wait-not_done (pure-eq-ok {S = S} done wait_for_mtls (w.get_dex_client j s).1 is_done)
      ]
