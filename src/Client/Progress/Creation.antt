-- ===== src/Client/Progress/Creation.antt =====
-- On a cluster where calls do not fail, the last part of a pass over a DexClient makes its client.
use dex_operator.Common.{
  ◌≡◌, refl, ◌∙◌, ap, true, Str, str_eq, inl, Action, ignore, ◌returning◌, if◌then◌else◌, Does,
  Does-pure, Does-branch, Does-bind, Does-given, Does-ignore, Does-weaken, arith,
}
use dex_operator.Api.{Key, DexClient, DexClientSpec, client_key}
use dex_operator.World.{
  World, View, put_client_status, put_oauth, ApiServer, DexLaws, Connection, OauthClient,
}
use dex_operator.World.Facts.{same_key_refl}
use dex_operator.World.Stable.{Seen}
use dex_operator.World.Reliable.{Reliable}
use dex_operator.World.Reliable.Calls.{client_status-Does, create_client-Does}
use dex_operator.Conditions.{
  ExternLaws, is_oauth2_client_created, merge_status_conditions,
  update_dex_client_status_conditions,
}
use dex_operator.Server.Reconcile.{done}
use dex_operator.DexApi.{create_client}
use dex_operator.Client.Credential.{SecretCheck}
use dex_operator.Client.Oauth.{create_with_secret, create_oauth2_client}
use dex_operator.Client.Marks.{set_created}
use dex_operator.Client.Reconcile.{sync_oauth2_client}
use dex_operator.Client.Registration.{oauth_of}
use dex_operator.Client.Removal.Pass.{address}
use dex_operator.Client.Progress.{
  Request, Complete, Ready, Unregistered, Checked, Made, Met, Stands,
}
use dex_operator.Client.Progress.Credential.{check-Does, credential-Does}

module _ {S : Type 0} {w : World S} {view : S → View} (L : ApiServer w view) (D : DexLaws w view)
    (E : ExternLaws w) (R : Reliable w view) (q : Request) (K : Complete w q) where
  same_oauth :
      (n : DexClient) → Stands q n → oauth_of n q.credential ≡ oauth_of q.client q.credential
  same_oauth n (key, spec, status) =
      let described : DexClientSpec → Str → OauthClient = λ x name. record {
        id = x.client_id;
        secret = q.credential;
        redirect_uris = x.redirect_uris;
        trusted_peers = x.trusted_peers;
        public = x.public;
        name = name;
        logo_url = x.logo_url;
      } in
      ap (λ x. described x n.name) spec ∙ ap (λ (k : Key). described q.client.spec k.name) key

  put_oauth-Made :
      (target : Str) (d : OauthClient) (v : View)
      → target ≡ address q.client
      → d ≡ oauth_of q.client q.credential
      → Unregistered q v
      → Made q (put_oauth target d v)
  put_oauth-Made target d v reached is (stored, absent) = (stored, rw (reached, is) (ground arith))

  asked-Does :
      (c : Connection) (n : DexClient)
      → c.target ≡ address q.client
      → Stands q n
      → Does
          (Seen view (Unregistered q))
          (create_client w c n.spec.redirect_uris n.spec.trusted_peers n.spec.public n.name
            n.spec.client_id n.spec.logo_url q.credential)
          (λ answer s. ((d : OauthClient) × (answer ≡ inl d)) × Made q (view s))
  unfolding create_client
  asked-Does c n reached stands =
      let id : n.spec.client_id ≡ q.client.spec.client_id =
        ap (λ (x : DexClientSpec). x.client_id) stands.1 in
      Does-branch _ _ _
        (create_client-Does D R (Unregistered q) (Made q) c
          (record { client = oauth_of n q.credential })
          (λ v (stored, absent). rw (reached, id) absent) (rw id K.id_not_empty)
          K.credential_not_empty
          (λ v rest.
            put_oauth-Made c.target (oauth_of n q.credential) v reached (same_oauth n stands) rest))
        λ r.
          Does-given _ (λ s (fresh, made). fresh)
            λ fresh.
              rw fresh (Does-pure (inl r.client) (λ s (fresh, made). ((r.client, refl), made)))

  flagged :
      (sent : DexClient) (v : View)
      → client_key sent ≡ client_key q.client
      → is_oauth2_client_created sent.status.conditions ≡ true
      → Made q v
      → Met q (put_client_status sent v)
  flagged sent v key created ((old, stored), made) =
      ((record old { status = sent.status }, rw (key, same_key_refl, stored) refl, created), made)

  status-Does :
      (sent : DexClient)
      → client_key sent ≡ client_key q.client
      → is_oauth2_client_created sent.status.conditions ≡ true
      → Does
          (Seen view (Made q))
          (w.update_dex_client_status sent returning done)
          (λ r s. Met q (view s))
  status-Does sent key created =
      Does-bind _ _
        (client_status-Does D R (Made q) (Met q) sent
          (λ v ((n, stored), made). (n, ap v.dex_clients key ∙ stored))
          (λ v made. flagged sent v key created made))
        λ n. Does-pure done (λ s met. met)

  with_secret-Does :
      (c : Connection) (n : DexClient)
      → c.target ≡ address q.client
      → Stands q n
      → Does
          (Seen view (Unregistered q))
          (create_with_secret w c n q.credential)
          (λ r s. Met q (view s))
  unfolding create_with_secret update_dex_client_status_conditions merge_status_conditions
  with_secret-Does c n reached stands = Does-bind _ _ (asked-Does c n reached stands) λ answer.
      Does-given _ (λ s (is, made). is)
        λ (d, is). rw is (
          Does-weaken _ (status-Does _ stands.0 (set_created E _ _ _)) (λ s (same, made). made)
            (λ r s met. met))

  create-Does :
      (c : Connection) (n : DexClient)
      → c.target ≡ address q.client
      → Stands q n
      → Does (Seen view (Checked q)) (create_oauth2_client w c n) (λ r s. Met q (view s))
  unfolding create_oauth2_client
  create-Does c n reached stands = Does-branch _ _ _ (credential-Does L D E R q K n stands) λ t.
      Does-given _ (λ s (is, rest). is)
        λ is. rw is (
          Does-weaken _ (with_secret-Does c n reached stands) (λ s (same, rest). rest)
            (λ r s met. met))

  chosen-Does :
      (c : Connection) (check : SecretCheck) (there : Action S (Unit {0}))
      → c.target ≡ address q.client
      → Stands q check.client
      → Does
          (Seen view (Checked q))
          (if is_oauth2_client_created check.client.status.conditions
            then there
            else ignore (create_oauth2_client w c check.client))
          (λ u s. Met q (view s))
  chosen-Does c check there reached stands =
      rw stands.2 (Does-ignore _ (create-Does c check.client reached stands) (λ r s met. met))

  -- The last part of a pass: whatever the annotation says, the client is made.
  pub sync-Does :
      (c : Connection)
      → c.target ≡ address q.client
      → Does
          (Seen view (Ready q))
          (sync_oauth2_client w c q.client)
          (λ r s. (r ≡ done) × Met q (view s))
  unfolding sync_oauth2_client
  sync-Does c reached = Does-bind _ _ (check-Does L D E R q K) λ check.
      Does-given _ (λ s (stands, checked). stands)
        λ stands.
          Does-bind _ _
            (Does-weaken _ (chosen-Does c check _ reached stands) (λ s (same, checked). checked)
              (λ u s met. met))
            λ _. Does-pure done (λ s met. (refl, met))
