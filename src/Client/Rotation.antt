-- ===== src/Client/Rotation.antt =====
-- What dex has after a pass that found that the credential of a client has changed.
use dex_operator.Common.{
  ◌≡◌, refl, ◌∙◌, ap, sym, subst, true, false, Option, none, some, Str, ok, inl, inr, Action,
  ignore, ◌>>=◌, ◌>>◌, is_empty, arith, Keeps, Keeps-bind, Keeps-option, Keeps-pure, keeps_rules,
  lookup, lit,
}
use dex_operator.Api.{DexClient}
use dex_operator.World.{World, View, ApiServer, DexLaws, Connection, OauthClient}
use dex_operator.World.Frames.{part, get_secret-Keeps}
use dex_operator.Conditions.{is_oauth2_client_created}
use dex_operator.Secrets.Frames.{add_label-Keeps}
use dex_operator.Server.Reconcile.{ReconcileResult, done}
use dex_operator.Client.Credential.{
  SecretCheck, check_and_add_label_to_client_secret, has_client_secret_been_updated,
  get_client_client_secret_from_ref,
}
use dex_operator.Client.Oauth.{create_oauth2_client, delete_oauth2_client}
use dex_operator.Client.Reconcile.{sync_oauth2_client}
use dex_operator.Client.Removal.{delete_client-Gone}
use dex_operator.Client.Registration.{oauth_of, Registered, create_oauth2_client-Registered}

-- The clients that dex has.
abbrev clients_of : View → Str → Str → Option OauthClient
clients_of v = v.dex

module _ {S : Type 0} {w : World S} {view : S → View} (L : ApiServer w view)
    (D : DexLaws w view) where
  credential-Keeps :
      (m : DexClient) → Keeps (part view clients_of) (get_client_client_secret_from_ref w m)
  unfolding get_client_client_secret_from_ref check_and_add_label_to_client_secret
  credential-Keeps m = Keeps-bind _ _ (get_secret-Keeps L clients_of _) λ x.
      Keeps-bind _ _ (add_label-Keeps L clients_of (λ y v. refl) _ x) λ labelled.
        Keeps-option (lookup (lit "clientSecret") labelled.content) _ _ (search keeps_rules)
          λ secret. Keeps-pure _

  -- The two calls for a credential that has changed.
  abbrev renew : Connection → DexClient → Action S (Unit {0})
  renew c m = ignore (delete_oauth2_client w c m) >> ignore (create_oauth2_client w c m)

  -- Where dex has removed the client, a creation that succeeds makes it anew.
  created_anew :
      (c : Connection) (m : DexClient) (secret : Str) (s s' : S) {r : ReconcileResult}
      → (view s).dex c.target m.spec.client_id ≡ none
      → is_empty m.spec.client_id ≡ false
      → is_empty secret ≡ false
      → Registered D c m secret r s s'
      → (view s').dex c.target m.spec.client_id ≡ some (oauth_of m secret)
  created_anew c m secret s s' gone id cred (inl (is_done, stored)) = stored id cred
  created_anew c m secret s s' gone id cred (inr (is_again, (d, before, after))) =
      absurd (ground arith)

  same_text : {a b : Str} → ok a ≡ ok b → a ≡ b
  same_text same = ground arith

  pass_ends :
      (c : Connection) (m : DexClient) (s : S) {check : SecretCheck} {r r' : ReconcileResult}
      → (has_client_secret_been_updated w m s).0 ≡ ok check
      → check.updated ≡ true
      → is_oauth2_client_created check.client.status.conditions ≡ true
      → (delete_oauth2_client w c check.client (has_client_secret_been_updated w m s).1).0 ≡ ok r
      → (create_oauth2_client w c check.client
          (delete_oauth2_client w c check.client (has_client_secret_been_updated w m s).1).1).0
        ≡ ok r'
      → sync_oauth2_client w c m s ≡ (
        ok done,
        (create_oauth2_client w c check.client
            (delete_oauth2_client w c check.client (has_client_secret_been_updated w m s).1).1).1,
      )
  unfolding sync_oauth2_client ◌>>=◌ ignore
  pass_ends c m s checked changed created deleted made = ground arith

  -- When the check answers that the credential of a created client has changed, and dex answers
  -- the deletion, and the creation succeeds, then at the end of the pass dex has the client with
  -- the credential that the creation has read, if neither is empty.
  pub sync_oauth2_client-rotates :
      (c : Connection) (m : DexClient) (s : S) {check : SecretCheck} {r r' : ReconcileResult}
      {secret : Str}
      → (has_client_secret_been_updated w m s).0 ≡ ok check
      → check.updated ≡ true
      → is_oauth2_client_created check.client.status.conditions ≡ true
      → (delete_oauth2_client w c check.client (has_client_secret_been_updated w m s).1).0 ≡ ok r
      → (create_oauth2_client w c check.client
          (delete_oauth2_client w c check.client (has_client_secret_been_updated w m s).1).1).0
        ≡ ok r'
      → (get_client_client_secret_from_ref w check.client
          (delete_oauth2_client w c check.client (has_client_secret_been_updated w m s).1).1).0
        ≡ ok secret
      → is_empty check.client.spec.client_id ≡ false
      → is_empty secret ≡ false
      → ((sync_oauth2_client w c m s).0 ≡ ok done)
        × ((view (sync_oauth2_client w c m s).1).dex c.target check.client.spec.client_id
            ≡ some (oauth_of check.client secret))
  sync_oauth2_client-rotates c m s {check} {r' = r₁} {secret = secret} checked changed created
        deleted made read id cred =
      let n = check.client in
      let s₁ = (has_client_secret_been_updated w m s).1 in
      let s₂ = (delete_oauth2_client w c n s₁).1 in
      let ends = pass_ends c m s checked changed created deleted made in
      let (secret', read', registered) = create_oauth2_client-Registered D c n s₂ made in
      let same : secret' ≡ secret = same_text (sym read' ∙ read) in
      let gone : (view (get_client_client_secret_from_ref w n s₂).1).dex c.target n.spec.client_id
          ≡ none =
        ap (λ f. f c.target n.spec.client_id) ((credential-Keeps n).same s₂)
        ∙ delete_client-Gone D c n s₁ deleted in
      rw ends (
        refl,
        created_anew c n secret (get_client_client_secret_from_ref w n s₂).1
            (create_oauth2_client w c n s₂).1 gone id cred
            (subst
              (λ x.
                Registered D c n x r₁ (get_client_client_secret_from_ref w n s₂).1
                  (create_oauth2_client w c n s₂).1)
              same registered),
      )
