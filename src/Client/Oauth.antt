-- ===== src/Client/Oauth.antt =====
-- `CreateOAuth2Client`, `UpdateOAuth2Client` and `DeleteOAuth2Client`.
use dex_operator.Common.{
  branch, pure, ◌returning◌, Str, [], ◌∷◌, ◌++◌, true, none, some, lit, GoError, Action, raise,
  ◌>>=◌, inl, inr, if◌then◌else◌,
}
use dex_operator.Api.{
  Condition, condition_true, condition_false, DexClient, dex_client_condition_applied,
  dex_client_condition_oauth2_client_created,
}
use dex_operator.World.{World, Connection}
use dex_operator.Conditions.{update_dex_client_status_conditions}
use dex_operator.DexApi.{create_client, update_client, delete_client}
use dex_operator.Server.Reconcile.{ReconcileResult, done}
use dex_operator.Client.Credential.{get_client_client_secret_from_ref}

abbrev pub failed_condition : Str → Str → GoError → Condition
failed_condition reason text e = record {
  type = dex_client_condition_applied;
  status = condition_false;
  reason = reason;
  message = text ++ e.message;
}

abbrev pub done_condition : Str → Str → Condition
done_condition reason message = record {
  type = dex_client_condition_applied;
  status = condition_true;
  reason = reason;
  message = message;
}

abbrev pub created_condition : Str → Str → Condition
created_condition reason message = record {
  type = dex_client_condition_oauth2_client_created;
  status = condition_true;
  reason = reason;
  message = message;
}

module _ {S : Type 0} (w : World S) where
  -- The condition that reports an error is stored, and the error is returned, unless storing it
  -- fails in turn.
  unfoldable pub fail_client : {A : Type 0} → DexClient → Str → Str → GoError → Action S A
  fail_client m reason text e =
      update_dex_client_status_conditions w m (failed_condition reason text e ∷ []) >>= λ _. raise e

  -- The part of the creation that follows the read of the credential.
  unfoldable pub create_with_secret : Connection → DexClient → Str → Action S ReconcileResult
  create_with_secret c m secret = do
    answer ←
        create_client w c m.spec.redirect_uris m.spec.trusted_peers m.spec.public m.name
          m.spec.client_id m.spec.logo_url secret
    elim answer [
      | inl _ ↦
          update_dex_client_status_conditions w m (
            done_condition (lit "Created") (lit "Dex client is created")
            ∷ created_condition (lit "Created") (lit "oauth2client is created")
            ∷ [])
          returning done
      | inr e ↦
          if e.already_exists
          then update_dex_client_status_conditions w m
              (created_condition (lit "Exists") (lit "oauth2client found") ∷ [])
            returning (record { requeue = true; requeue_after = 0 })
          else fail_client m (lit "DexClientCreateFailed") (lit "failed creating client. error: ")
              e.api_error
    ]

  unfoldable pub create_oauth2_client : Connection → DexClient → Action S ReconcileResult
  create_oauth2_client c m =
      branch (get_client_client_secret_from_ref w m) (λ secret. create_with_secret c m secret)
        (λ e.
          fail_client m (lit "DexClientSecretFailed") (lit "failed getting client secret. error: ")
            e)

  unfoldable pub update_oauth2_client : Connection → DexClient → Action S ReconcileResult
  update_oauth2_client c m =
      branch
        (update_client w c m.spec.client_id m.spec.redirect_uris m.spec.trusted_peers m.spec.public
          m.name m.spec.logo_url)
        (λ _.
          update_dex_client_status_conditions w m
            (done_condition (lit "Updated") (lit "Dex client is updated") ∷ [])
          returning done)
        (λ e. fail_client m (lit "DexClientUpdateFailed") (lit "failed updating client. error: ") e)

  -- A client that dex does not know counts as deleted.
  unfoldable pub delete_oauth2_client : Connection → DexClient → Action S ReconcileResult
  delete_oauth2_client c m = do
    answer ← delete_client w c m.spec.client_id
    elim answer [ none ↦ pure done | some e ↦ if e.not_found then pure done else raise e.api_error ]
