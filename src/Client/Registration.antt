-- ===== src/Client/Registration.antt =====
-- What dex has after `CreateOAuth2Client`.
use dex_operator.Common.{
  ◌≡◌, refl, ◌∙◌, ap, sym, true, false, some, List, Str, [], ◌∷◌, ok, ◌⊎◌, inl, inr, Action, ◌>>=◌,
  ◌returning◌, bind-eq-ok, branch-eq-ok, returning-eq-ok, Bool-cases, arith, if◌then◌else◌,
  is_empty, lit, str_eq,
}
use dex_operator.Api.{Condition, DexClient}
use dex_operator.World.{
  World, View, DexLaws, Connection, OauthClient, CreateClientReq, CreateClientResp,
  put_client_status,
}
use dex_operator.World.Frames.{Writes-Keeps}
use dex_operator.Conditions.{merge_status_conditions, update_dex_client_status_conditions}
use dex_operator.DexApi.{create_client, CreateClientError}
use dex_operator.Server.Reconcile.{ReconcileResult, done}
use dex_operator.Client.Credential.{get_client_client_secret_from_ref}
use dex_operator.Client.Oauth.{
  create_with_secret, create_oauth2_client, fail_client, done_condition, created_condition,
}
use dex_operator.Client.Marks.{fail-not_ok}

-- The client that a DexClient and its credential describe.
abbrev pub oauth_of : DexClient → Str → OauthClient
oauth_of m secret = record {
  id = m.spec.client_id;
  secret = secret;
  redirect_uris = m.spec.redirect_uris;
  trusted_peers = m.spec.trusted_peers;
  public = m.spec.public;
  name = m.name;
  logo_url = m.spec.logo_url;
}

module _ {S : Type 0} (w : World S) where
  -- The call of dex, for a DexClient.
  abbrev creation : Connection → DexClient → Str → Action S (OauthClient ⊎ CreateClientError)
  creation c m secret =
      create_client w c m.spec.redirect_uris m.spec.trusted_peers m.spec.public m.name
        m.spec.client_id m.spec.logo_url secret

  abbrev asked : DexClient → Str → CreateClientReq
  asked m secret = record { client = oauth_of m secret }

  created :
      (c : Connection) (m : DexClient) (secret : Str) (s : S) {d : OauthClient}
      → (creation c m secret s).0 ≡ ok (inl d)
      → (r : CreateClientResp) × ((w.create_client c (asked m secret) s).0 ≡ ok r)
        × (r.already_exists ≡ false)
        × ((creation c m secret s).1 ≡ (w.create_client c (asked m secret) s).1)
  unfolding create_client ◌>>=◌
  created c m secret s answer = ground arith

  existed :
      (c : Connection) (m : DexClient) (secret : Str) (s : S) {e : CreateClientError}
      → (creation c m secret s).0 ≡ ok (inr e)
      → e.already_exists ≡ true
      → (r : CreateClientResp) × ((w.create_client c (asked m secret) s).0 ≡ ok r)
        × (r.already_exists ≡ true)
        × ((creation c m secret s).1 ≡ (w.create_client c (asked m secret) s).1)
  unfolding create_client ◌>>=◌
  existed c m secret s answer exists = ground arith

-- What `CreateOAuth2Client` asks for where dex had the client.
abbrev pub again : ReconcileResult
again = record { requeue = true; requeue_after = 0 }

module _ {S : Type 0} {w : World S} {view : S → View} (D : DexLaws w view) where
  reported :
      (m : DexClient) (cs : List Condition) (a : ReconcileResult) (s : S) {r : ReconcileResult}
      → ((update_dex_client_status_conditions w m cs returning a) s).0 ≡ ok r
      → (r ≡ a)
        × ((view ((update_dex_client_status_conditions w m cs returning a) s).1).dex ≡ (view s).dex)
  unfolding update_dex_client_status_conditions
  reported m cs a s {r} good =
      let (n, stored, same) =
        returning-eq-ok (update_dex_client_status_conditions w m cs) a s good in
      let is_a : ok a ≡ ok r = sym (ap (λ x. x.0) same) ∙ good in
      let sent : DexClient = record m {
        status = record m.status { conditions = merge_status_conditions w m.status.conditions cs };
      } in
      let kept =
        Writes-Keeps view (λ v. v.dex) (w.update_dex_client_status sent) (put_client_status sent)
          (D.update_client_status_writes sent) (λ v. refl) in
      (ground arith, rw same (kept.same s))

  -- What dex has under the identifier of the DexClient, in the world `s` after a call that found
  -- the world `before`.
  abbrev pub Registered : Connection → DexClient → Str → ReconcileResult → S → S → Type 0
  Registered c m secret r before s =
      ((r ≡ done)
        × (is_empty m.spec.client_id ≡ false
            → is_empty secret ≡ false
            → (view s).dex c.target m.spec.client_id ≡ some (oauth_of m secret)))
      ⊎ ((r ≡ again)
          × ((d : OauthClient) × ((view before).dex c.target m.spec.client_id ≡ some d)
              × ((view s).dex c.target m.spec.client_id ≡ some d)))

  -- What follows the answer of dex.
  abbrev followed : DexClient → OauthClient ⊎ CreateClientError → Action S ReconcileResult
  followed m (inl _) =
      update_dex_client_status_conditions w m (
        done_condition (lit "Created") (lit "Dex client is created")
        ∷ created_condition (lit "Created") (lit "oauth2client is created")
        ∷ [])
      returning done
  followed m (inr e) =
      if e.already_exists
      then update_dex_client_status_conditions w m
          (created_condition (lit "Exists") (lit "oauth2client found") ∷ [])
        returning again
      else fail_client w m (lit "DexClientCreateFailed") (lit "failed creating client. error: ")
          e.api_error

  with_secret-Registered :
      (c : Connection) (m : DexClient) (secret : Str) (s : S) {r : ReconcileResult}
      → (create_with_secret w c m secret s).0 ≡ ok r
      → Registered c m secret r s (create_with_secret w c m secret s).1
  unfolding create_with_secret
  with_secret-Registered c m secret s {r} good =
      let (answer, got, same, rest) = bind-eq-ok (creation w c m secret) (followed m) s good in
      rw same (by_answer answer got rest)
    where
      by_answer :
          (answer : OauthClient ⊎ CreateClientError)
          → (creation w c m secret s).0 ≡ ok answer
          → (followed m answer (creation w c m secret s).1).0 ≡ ok r
          → Registered c m secret r s (followed m answer (creation w c m secret s).1).1
      by_answer (inl d) got rest =
          let (resp, told, fresh, same) = created w c m secret s got in
          let (is_done, kept) = reported m _ done _ rest in
          let law = (rw told at (D.create_client_writes c (asked w m secret) s)) in
          inl (
            is_done,
            λ id cred.
                rw
                  (
                    kept,
                    same,
                    law.1 fresh,
                    D.create_client_answers c (asked w m secret) s told fresh id cred,
                  )
                  (ground arith),
          )
      by_answer (inr e) got rest = elim (Bool-cases e.already_exists) [
        | inl exists ↦
            let (resp, told, known, same) = existed w c m secret s got exists in
            let (is_again, kept) = reported m _ again _ (rw exists at rest) in
            let law = (rw told at (D.create_client_writes c (asked w m secret) s)) in
            let (d, stored) = (law.0 known).1 in
            rw exists (
              inr (
                is_again,
                (
                  d,
                  stored,
                  ap (λ f. f c.target m.spec.client_id) kept ∙ rw (same, (law.0 known).0) stored,
                ),
              ))
        | inr other ↦ absurd (fail-not_ok w m _ _ e.api_error _ (rw other at rest))
      ]

  -- When `CreateOAuth2Client` succeeds, the credential was read; and either dex reported a new
  -- client and now has the one that the DexClient and the credential describe, if neither the
  -- identifier nor the credential is empty, or dex had a client of the identifier, which it still
  -- has, and a requeue is asked for.
  pub create_oauth2_client-Registered :
      (c : Connection) (m : DexClient) (s : S) {r : ReconcileResult}
      → (create_oauth2_client w c m s).0 ≡ ok r
      → (secret : Str) × ((get_client_client_secret_from_ref w m s).0 ≡ ok secret)
        × Registered c m secret r
            (get_client_client_secret_from_ref w m s).1
            (create_oauth2_client w c m s).1
  unfolding create_oauth2_client
  create_oauth2_client-Registered c m s good =
      elim (branch-eq-ok (get_client_client_secret_from_ref w m) _ _ s good) [
        | inl (secret, found, same, rest) ↦
            (secret, found, rw same (with_secret-Registered c m secret _ rest))
        | inr (e, failed, same, rest) ↦ absurd (fail-not_ok w m _ _ e _ rest)
      ]
