-- ===== src/Client/Removal/Pass.antt =====
-- What a pass over a DexClient that is being deleted leaves.
use Prim.Native.Nat.{◌-◌}
use dex_operator.Common.{
  ◌≡◌, ◌≢◌, refl, ◌∙◌, ap, sym, subst, Bool, true, false, not, ◌&&◌, none, some, Str, [], ◌∷◌, ok,
  GoError, Action, branch, pure, finally, ◌>>=◌, ◌returning◌, bind-eq-ok, branch-eq-ok,
  returning-eq-ok, pure-eq-ok, unless_missing-eq-ok, Bool-cases, arith, if◌then◌else◌, inl, inr,
  str_eq, lit,
}
use dex_operator.Api.{Key, Secret, empty_secret, DexClient, client_key}
use dex_operator.World.{World, View, ApiServer, DexLaws, Connection}
use dex_operator.Conditions.{ExternLaws, update_dex_client_status_conditions}
use dex_operator.DexApi.{Options, new_client_pem, close_connection}
use dex_operator.Server.Reconcile.{ReconcileResult, done}
use dex_operator.Client.Credential.{get_mtls_secret}
use dex_operator.Client.Oauth.{fail_client}
use dex_operator.Client.Marks.{fail-not_ok}
use dex_operator.Client.Reconcile.{
  dex_client_finalizer, is_deleted, was_created, dex_api_options, ensure_client_finalizer,
  reconcile_connected, reconcile_with_secret, reconcile_client, wait_for_mtls, waiting_condition,
  reconcile,
}
use dex_operator.Client.Removal.{Cleared, connected-Cleared}

-- The address of the dex of a DexClient.
abbrev pub address : DexClient → Str
address m = (dex_api_options m empty_secret).host_and_port

some_inj : {n m : DexClient} → some n ≡ some m → n ≡ m
some_inj same = ground arith

none_is_not : {m : DexClient} → ¬ (none ≡ some m)
none_is_not bad = ground arith

module _ {S : Type 0} (w : World S) where
  -- What `Reconcile` does once the finalizer is there.
  abbrev pub after_finalizer : DexClient → Action S ReconcileResult
  after_finalizer m =
      branch (get_mtls_secret w m) (λ secret. reconcile_with_secret w m secret)
        (λ e.
          if e.not_found
          then update_dex_client_status_conditions w m (waiting_condition ∷ [])
            returning wait_for_mtls
          else fail_client w m (lit "MTLSSecretCheckFailed")
              (lit "failed checking MTLS secret. error: ") e)

module _ {S : Type 0} {w : World S} {view : S → View} (L : ApiServer w view) (D : DexLaws w view)
    (E : ExternLaws w) where
  pub reached :
      (o : Options) (s : S) {c : Connection}
      → (new_client_pem w o s).0 ≡ ok c
      → c.target ≡ o.host_and_port
  unfolding new_client_pem ◌>>=◌
  reached o s dialled = grind (arith, D.dial_reaches o.host_and_port o.ca_buffer)

  pub close-view :
      (c : Connection) (s : S)
      → view (close_connection w c s).1 ≡ record (view s) { connections = (view s).connections - 1 }
  unfolding close_connection ◌>>=◌
  close-view c s = let closed = D.close_closes c s in ground arith

  with_secret-Cleared :
      (m : DexClient) (x : Secret) (s : S) {r : ReconcileResult}
      → is_deleted m ≡ true
      → (reconcile_with_secret w m x s).0 ≡ ok r
      → Cleared L D E (dex_api_options m x).host_and_port m (reconcile_with_secret w m x s).1
  unfolding reconcile_with_secret finally
  with_secret-Cleared m x s deleted good =
      let o = dex_api_options m x in
      elim (branch-eq-ok (new_client_pem w o) _ _ s good) [
        | inl (c, dialled, same, rest) ↦
            let (gone, released) =
              connected-Cleared L D E c m (new_client_pem w o s).1 deleted rest in
            let s₁ = (reconcile_connected w c m (new_client_pem w o s).1).1 in
            let closed = close-view c (reconcile_connected w c m (new_client_pem w o s).1).1 in
            rw (same, closed)
              (
                ap (λ t. (view s₁).dex t m.spec.client_id) (sym (reached o s dialled)) ∙ gone,
                released,
              )
        | inr (e, failed, same, rest) ↦ absurd (fail-not_ok w m _ _ e _ rest)
      ]

  -- The object that the API server handed back stands for the one that was sent.
  abbrev pub SameClient : DexClient → DexClient → Type 0
  SameClient n m =
      (client_key n ≡ client_key m)
      × (n.spec ≡ m.spec)
      × (n.deletion_timestamp ≡ m.deletion_timestamp)

  pub ensure-SameClient :
      (m : DexClient) (s : S) {n : DexClient}
      → (ensure_client_finalizer w m s).0 ≡ ok n
      → SameClient n m
  unfolding ensure_client_finalizer
  ensure-SameClient m s {n} good =
      elim (Bool-cases (w.contains_finalizer m.finalizers dex_client_finalizer)) [
        | inl has ↦
            let same : n ≡ m = pure-eq-ok {S = S} m n s (rw has at good) in
            rw same (refl, refl, refl)
        | inr misses ↦
            let (key, spec, deletion, _) = D.update_client_answers _ n s (rw misses at good) in
            (key, spec, deletion)
      ]

  waits_not_done :
      (m : DexClient) (s : S)
      → ((update_dex_client_status_conditions w m (waiting_condition ∷ []) returning wait_for_mtls)
          s).0
        ≢ ok done
  waits_not_done m s good =
      let (n, stored, same) =
        returning-eq-ok (update_dex_client_status_conditions w m (waiting_condition ∷ []))
          wait_for_mtls s good in
      let is_done : ok wait_for_mtls ≡ ok done = sym (ap (λ x. x.0) same) ∙ good in ground arith

  Cleared-SameClient :
      (n m : DexClient) (s : S)
      → SameClient n m
      → Cleared L D E (address n) n s
      → Cleared L D E (address m) m s
  Cleared-SameClient n m s (key, spec, deletion) (gone, released) = (
    (rw (ap (λ (j : Key). j.namespace) key, spec) at gone),
    λ x stored. released x (ap (view s).dex_clients key ∙ stored),
  )

  not_found_not_done :
      (m : DexClient) (e : GoError) (missing : Bool) (s : S)
      → ((if missing
            then update_dex_client_status_conditions w m (waiting_condition ∷ [])
              returning wait_for_mtls
            else fail_client w m
                (lit "MTLSSecretCheckFailed")
                (lit "failed checking MTLS secret. error: ")
                e)
          s).0
        ≢ ok done
  not_found_not_done m e true s good = waits_not_done m s good
  not_found_not_done m e false s good = fail-not_ok w m _ _ e s good

  after-Cleared :
      (m : DexClient) (s : S)
      → is_deleted m ≡ true
      → (after_finalizer w m s).0 ≡ ok done
      → Cleared L D E (address m) m (after_finalizer w m s).1
  after-Cleared m s deleted good = elim (branch-eq-ok (get_mtls_secret w m) _ _ s good) [
    | inl (x, found, same, rest) ↦ rw same (with_secret-Cleared m x _ deleted rest)
    | inr (e, failed, same, rest) ↦ absurd (not_found_not_done m e e.not_found _ rest)
  ]

  client-Cleared :
      (m : DexClient) (s : S)
      → is_deleted m ≡ true
      → was_created m ≡ true
      → (reconcile_client w m s).0 ≡ ok done
      → Cleared L D E (address m) m (reconcile_client w m s).1
  unfolding reconcile_client
  client-Cleared m s deleted created good =
      let on : is_deleted m && not (was_created m) ≡ false = rw (deleted, created) refl in
      let (n, ensured, same, rest) =
        bind-eq-ok (ensure_client_finalizer w m) (after_finalizer w) s (rw on at good) in
      let (key, spec, deletion) = ensure-SameClient m s ensured in
      rw (on, same)
        (Cleared-SameClient n m _ (key, spec, deletion)
          (after-Cleared n _ (rw (is_deleted, deletion) deleted) rest))

  -- When a pass over a stored DexClient that is being deleted, and whose status says that its
  -- client was created, is done, the dex at its address has no client of its identifier, and the
  -- DexClient, if it is still stored, does not have the finalizer.
  pub reconcile-Cleared :
      (k : Key) (m : DexClient) (s : S)
      → (view s).dex_clients k ≡ some m
      → is_deleted m ≡ true
      → was_created m ≡ true
      → (reconcile w k s).0 ≡ ok done
      → Cleared L D E (address m) m (reconcile w k s).1
  unfolding reconcile
  reconcile-Cleared k m s stored deleted created good =
      elim (branch-eq-ok (w.get_dex_client k) _ _ s good) [
        | inl (n, found, same, rest) ↦
            let (key, at_k) = (rw found at (D.get_client_finds k s)) in
            let is_m : n ≡ m = some_inj (sym at_k ∙ stored) in
            let s₁ = (w.get_dex_client k s).1 in
            rw same (
              subst (λ x. Cleared L D E (address x) x (reconcile_client w n s₁).1) is_m
                (client-Cleared n s₁ (ap is_deleted is_m ∙ deleted) (ap was_created is_m ∙ created)
                  rest))
        | inr (e, failed, same, rest) ↦
            let missing = (rw failed at (D.get_client_finds k s)) in
            let (is_missing, _, _) =
              unless_missing-eq-ok e e (pure done) (w.get_dex_client k s).1 rest in
            absurd (none_is_not (sym (missing is_missing) ∙ stored))
      ]
