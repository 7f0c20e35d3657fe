-- ===== src/Client/Marks.antt =====
-- What the creation of a client stores in the status of its DexClient.
use dex_operator.Common.{
  ◌≡◌, ◌∙◌, ap, true, List, [], ◌∷◌, Str, lit, str_eq, ok, ◌⊎◌, inl, inr, arith, ◌>>=◌, ◌returning◌,
  bind-eq-ok, branch-eq-ok, returning-eq-ok, Bool-cases, if◌then◌else◌, GoError, Action, ◌≢◌,
}
use dex_operator.Api.{Condition, DexClient, dex_client_condition_oauth2_client_created}
use dex_operator.World.{World, Connection, OauthClient}
use dex_operator.Conditions.{
  ExternLaws, is_oauth2_client_created, merge_status_conditions,
  update_dex_client_status_conditions,
}
use dex_operator.Conditions.Merge.{is_created-find}
use dex_operator.DexApi.{create_client, CreateClientError}
use dex_operator.Server.Reconcile.{ReconcileResult, done}
use dex_operator.Client.Credential.{get_client_client_secret_from_ref}
use dex_operator.Client.Oauth.{
  create_with_secret, create_oauth2_client, fail_client, created_condition, done_condition,
}

module _ {S : Type 0} (w : World S) where
  -- A failure that is reported is no success.
  pub fail-not_ok :
      (m : DexClient) (reason text : Str) (e : GoError) (s : S) {r : ReconcileResult}
      → (fail_client w m reason text e s).0 ≢ ok r
  unfolding fail_client ◌>>=◌
  fail-not_ok m reason text e s good = ground arith

module _ {S : Type 0} {w : World S} (E : ExternLaws w) where
  pub set_created :
      (cs : List Condition) (reason message : Str)
      → is_oauth2_client_created (w.set_status_condition cs (created_condition reason message))
        ≡ true
  set_created cs reason message =
      is_created-find _
      ∙ rw
          (E.find-set cs (created_condition reason message)
            dex_client_condition_oauth2_client_created)
          (ground arith)

  -- The status that was sent last says that the client of dex is created.
  abbrev pub Marked : S → Type 0
  Marked s =
      (n sent : DexClient) × (s' : S) × ((w.update_dex_client_status sent s').0 ≡ ok n)
      × (is_oauth2_client_created sent.status.conditions ≡ true)
      × (s ≡ (w.update_dex_client_status sent s').1)

  after_answer :
      (m : DexClient) (cs : List Condition) (r : ReconcileResult) (s : S) {b : ReconcileResult}
      → ((update_dex_client_status_conditions w m cs returning r) s).0 ≡ ok b
      → is_oauth2_client_created (merge_status_conditions w m.status.conditions cs) ≡ true
      → Marked ((update_dex_client_status_conditions w m cs returning r) s).1
  unfolding update_dex_client_status_conditions
  after_answer m cs r s done created =
      let (n, sent, same) = returning-eq-ok (update_dex_client_status_conditions w m cs) r s done in
      (n, _, s, sent, created, ap (λ x. x.1) same)

  -- What follows an answer of dex.
  abbrev answered : DexClient → OauthClient ⊎ CreateClientError → Action S ReconcileResult
  answered m (inl _) =
      update_dex_client_status_conditions w m (
        done_condition (lit "Created") (lit "Dex client is created")
        ∷ created_condition (lit "Created") (lit "oauth2client is created")
        ∷ [])
      returning done
  answered m (inr e) =
      if e.already_exists
      then update_dex_client_status_conditions w m
          (created_condition (lit "Exists") (lit "oauth2client found") ∷ [])
        returning (record { requeue = true; requeue_after = 0 })
      else fail_client w m (lit "DexClientCreateFailed") (lit "failed creating client. error: ")
          e.api_error

  answered-Marked :
      (m : DexClient) (answer : OauthClient ⊎ CreateClientError) (s : S) {r : ReconcileResult}
      → (answered m answer s).0 ≡ ok r
      → Marked (answered m answer s).1
  unfolding merge_status_conditions
  answered-Marked m (inl _) s good = after_answer m _ done s good (set_created _ _ _)
  answered-Marked m (inr e) s good = elim (Bool-cases e.already_exists) [
    | inl exists ↦ rw exists (
        after_answer m _ (record { requeue = true; requeue_after = 0 }) s (rw exists at good)
          (set_created _ _ _))
    | inr other ↦ absurd (fail-not_ok w m _ _ e.api_error s (rw other at good))
  ]

  create_with_secret-Marked :
      (c : Connection) (m : DexClient) (secret : Str) (s : S) {r : ReconcileResult}
      → (create_with_secret w c m secret s).0 ≡ ok r
      → Marked (create_with_secret w c m secret s).1
  unfolding create_with_secret
  create_with_secret-Marked c m secret s good =
      let (answer, got, same, rest) =
        bind-eq-ok
          (create_client w c m.spec.redirect_uris m.spec.trusted_peers m.spec.public m.name
            m.spec.client_id m.spec.logo_url secret)
          (answered m) s good in
      rw same (answered-Marked m answer _ rest)

  -- When `CreateOAuth2Client` succeeds, whether dex created the client or had it already, the last
  -- thing done was to send a status that says that the client of dex is created, and the API
  -- server took it.
  pub create_oauth2_client-Marked :
      (c : Connection) (m : DexClient) (s : S) {r : ReconcileResult}
      → (create_oauth2_client w c m s).0 ≡ ok r
      → Marked (create_oauth2_client w c m s).1
  unfolding create_oauth2_client
  create_oauth2_client-Marked c m s good =
      elim (branch-eq-ok (get_client_client_secret_from_ref w m) _ _ s good) [
        | inl (secret, found, same, rest) ↦ rw same (create_with_secret-Marked c m secret _ rest)
        | inr (e, failed, same, rest) ↦ absurd (fail-not_ok w m _ _ e _ rest)
      ]
