-- ===== src/Client/Orphans.antt =====
-- A DexClient that is marked as created does not go before dex has removed its client.
pub mod Pass
use Prim.Native.Nat.{◌-◌}
use dex_operator.Common.{
  ℕ, ◌≡◌, ◌≢◌, refl, ◌∙◌, ap, sym, Bool, true, false, not, ◌&&◌, Option, none, some, Option-cases,
  Bool-cases, ok, err, GoError, Str, lit, str_eq, [], ◌∷◌, Action, branch, pure, raise, finally,
  ◌>>=◌, ◌returning◌, bind-cases, branch-cases, Keeps, Keeps-bind, Keeps-pure, Preserves,
  preserves_rules, inl, inr, arith, if◌then◌else◌,
}
use mathlib.Core.Option
use mathlib.Core.Option.{some-injective}
use dex_operator.Api.{Key, Secret, DexClient, client_key}
use dex_operator.World.{
  World, View, ApiServer, DexLaws, Connection, put_client, put_client_status, same_key,
}
use dex_operator.World.Frames.{part, Writes-Keeps}
use dex_operator.World.Stable.{ClientStable, Seen, Reads-Preserves}
use dex_operator.World.Forms.{
  StoredClient, StoredClient-ClientStable, StoredClient-ClientUpdates, LiveClient-ClientForm,
}
use dex_operator.Conditions.{ExternLaws, update_dex_client_status_conditions}
use dex_operator.DexApi.{Options, new_client_pem, close_connection}
use dex_operator.Server.Mtls.{secret_mtls_name}
use dex_operator.Server.Reconcile.{ReconcileResult, done}
use dex_operator.Client.Credential.{get_mtls_secret}
use dex_operator.Client.Oauth.{delete_oauth2_client, fail_client}
use dex_operator.Client.Reconcile.{
  dex_client_finalizer, is_deleted, was_created, dex_api_options, drop_finalizer,
  ensure_client_finalizer, reconcile_connected, reconcile_with_secret, reconcile_client,
  wait_for_mtls, waiting_condition, reconcile,
}
use dex_operator.Client.Preserved.{
  conditions-Preserves, fail-Preserves, connect-Preserves, hang_up-Preserves,
  delete_oauth2-Preserves,
}
use dex_operator.Client.Preserved.Pass.{reconcile-Preserves}
use dex_operator.Client.Removal.{Gone, delete_client-Gone}
use dex_operator.Client.Removal.Pass.{address, after_finalizer, reached, close-view}

pub missing : {A : Type 0} {a : A} → ¬ (some a ≡ none)
missing bad = ground arith

-- Something is stored under the key.
abbrev pub StillThere : Key → View → Type 0
StillThere j v = v.dex_clients j ≢ none

still-map : (o : Option DexClient) (f : DexClient → DexClient) → o ≢ none → Option.map f o ≢ none
still-map none f there gone = there refl
still-map (some n) f there gone = missing gone

pub StillThere-ClientStable : (j : Key) → ClientStable (StillThere j)
StillThere-ClientStable j = record {
  secret = λ x v h. h;
  client_status = λ m v h. elim (Bool-cases (same_key j (client_key m))) [
    | inl same ↦ rw same (still-map (v.dex_clients j) _ h)
    | inr other ↦ rw other h
  ];
  dex = λ d v h. h;
  connections = λ n v h. h;
}

module _ {S : Type 0} {w : World S} {view : S → View} (L : ApiServer w view) (D : DexLaws w view)
    (E : ExternLaws w) (j : Key) where
  -- If nothing is stored after the call, dex has no client of the DexClient at the address.
  abbrev pub Clears : {A : Type 0} → Str → DexClient → Action S A → Type 0
  Clears target m call =
      (s : S)
      → StillThere j (view s)
      → (view (call s).1).dex_clients j ≡ none
      → Gone D target m.spec.client_id (call s).1

  Preserves-Clears :
      {A : Type 0} (target : Str) (m : DexClient) (call : Action S A)
      → Preserves (Seen view (StillThere j)) call
      → Clears target m call
  Preserves-Clears target m call keeps s there gone = absurd (keeps.after s there gone)

  drop-Keeps : (m : DexClient) → Keeps (part view (λ v. v.dex)) (drop_finalizer w m)
  unfolding drop_finalizer
  drop-Keeps m =
      let sent : DexClient = record m {
        finalizers = w.remove_finalizer m.finalizers dex_client_finalizer;
      } in
      let written =
        Writes-Keeps view (λ v. v.dex) (w.update_dex_client sent) (put_client sent)
          (D.update_client_writes sent) (λ v. refl) in
      Keeps-bind _ _ written λ n. Keeps-pure done

  deletion-Clears :
      (c : Connection) (m : DexClient)
      → Clears c.target m (delete_oauth2_client w c m >>= λ _. drop_finalizer w m)
  deletion-Clears c m s there gone =
      elim (bind-cases (delete_oauth2_client w c m) (λ _. drop_finalizer w m) s) [
        | inl (r, answered, same) ↦ rw same (
            ap (λ f. f c.target m.spec.client_id) ((drop-Keeps m).same _)
            ∙ delete_client-Gone D c m s answered)
        | inr same ↦
            let kept =
              (delete_oauth2-Preserves L D (StillThere-ClientStable j) c m).after s there in
            absurd (kept (rw same at gone))
      ]

  connected-Clears :
      (c : Connection) (m : DexClient)
      → is_deleted m ≡ true
      → Clears c.target m (reconcile_connected w c m)
  unfolding reconcile_connected
  connected-Clears c m deleted s there gone =
      rw deleted (deletion-Clears c m s there (rw deleted at gone))

  pub with_secret-Clears :
      (m : DexClient) (x : Secret)
      → is_deleted m ≡ true
      → Clears (address m) m (reconcile_with_secret w m x)
  unfolding reconcile_with_secret finally
  with_secret-Clears m x deleted s there gone =
      let o = dex_api_options m x in
      let C = StillThere-ClientStable j in
      let s₁ = (new_client_pem w o s).1 in
      let there₁ = (connect-Preserves L D C o).after s there in
      elim (branch-cases (new_client_pem w o)
        (λ c. finally (close_connection w c) (reconcile_connected w c m))
        (λ e.
          fail_client w m (lit "GRPCConnectionFailed")
            (lit "failed creating api client connection to gRPC server. error: ") e)
        s) [
          | inl (c, dialled, same) ↦
              let s₂ = (reconcile_connected w c m s₁).1 in
              let closed = close-view L D E c s₂ in
              let gone₂ : (view s₂).dex_clients j ≡ none =
                ap (λ (v : View). v.dex_clients j) (sym closed) ∙ (rw same at gone) in
              rw (same, closed)
                (ap (λ t. (view s₂).dex t m.spec.client_id) (sym (reached L D E o s dialled))
                  ∙ connected-Clears c m deleted s₁ there₁ gone₂)
          | inr (inl (e, failed, same)) ↦
              absurd ((fail-Preserves L D C m _ _ e).after s₁ there₁ (rw same at gone))
          | inr (inr same) ↦ absurd (there₁ (rw same at gone))
        ]
