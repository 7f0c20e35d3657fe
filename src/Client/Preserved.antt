-- ===== src/Client/Preserved.antt =====
-- The operations on a DexClient keep every stable property of what is stored.
pub mod Pass
use dex_operator.Common.{
  ◌≡◌, ◌∙◌, ap, Bool, false, List, Str, lit, lookup, str_eq, GoError, Action, ◌>>=◌, Preserves,
  Preserves-bind, Preserves-branch, Preserves-option, Preserves-either, Preserves-pure, Gives,
  Gives-branch, Gives-bind, Gives-pure, Gives-test, Preserves-test, ◌&&◌, true, none, Option-cases,
  preserves_rules, raise, Bool-cases, inl, inr, arith,
}
use dex_operator.Api.{Key, Secret, Condition, DexClient}
use dex_operator.World.{World, View, ApiServer, DexLaws, Connection, put_client}
use dex_operator.World.Stable.{
  ClientStable, Seen, Reads-Preserves, Writes-Preserves, get_secret-Preserves,
  update_secret-Preserves, client_status-Preserves, dial-Preserves, close-Preserves,
  create_client-Preserves, update_client-Preserves, delete_client-Preserves,
}
use dex_operator.World.Updates.{ClientUpdates}
use dex_operator.Conditions.{update_dex_client_status_conditions}
use dex_operator.Secrets.Preserved.{add_label-Preserves}
use dex_operator.DexApi.{
  Options, new_client_pem, create_client, update_client, delete_client, close_connection,
}
use dex_operator.Client.Credential.{
  check_and_add_label_to_client_secret, get_hash_for_a_secret, store_hash, with_hash,
  has_client_secret_been_updated, get_client_client_secret_from_ref,
  dex_client_secret_hash_annotation,
}
use dex_operator.Client.Oauth.{
  fail_client, create_with_secret, create_oauth2_client, update_oauth2_client, delete_oauth2_client,
}
use dex_operator.Client.Removal.Pass.{after_finalizer}
use dex_operator.Client.Reconcile.{
  reconcile, reconcile_client, reconcile_with_secret, reconcile_connected, sync_oauth2_client,
  ensure_client_finalizer, drop_finalizer, is_deleted, dex_client_finalizer,
}

module _ {S : Type 0} {w : World S} {view : S → View} (L : ApiServer w view) (D : DexLaws w view)
    {P : View → Type 0} (C : ClientStable P) where
  pub conditions-Preserves :
      (m : DexClient) (cs : List Condition)
      → Preserves (Seen view P) (update_dex_client_status_conditions w m cs)
  unfolding update_dex_client_status_conditions
  conditions-Preserves m cs = client_status-Preserves D C _

  pub fail-Preserves :
      {A : Type 0} (m : DexClient) (reason text : Str) (e : GoError)
      → Preserves (Seen view P) (fail_client w {A = A} m reason text e)
  unfolding fail_client
  fail-Preserves m reason text e = search (preserves_rules, conditions-Preserves)

  pub label-Preserves :
      (x : Secret) → Preserves (Seen view P) (check_and_add_label_to_client_secret w x)
  unfolding check_and_add_label_to_client_secret
  label-Preserves x = add_label-Preserves L C.secret _ x

  pub hash-Preserves : (m : DexClient) → Preserves (Seen view P) (get_hash_for_a_secret w m)
  unfolding get_hash_for_a_secret
  hash-Preserves m = search (preserves_rules, get_secret-Preserves L C.secret)

  pub credential-Preserves :
      (m : DexClient) → Preserves (Seen view P) (get_client_client_secret_from_ref w m)
  unfolding get_client_client_secret_from_ref
  credential-Preserves m = Preserves-bind _ _ (get_secret-Preserves L C.secret _) λ x.
      Preserves-bind _ _ (label-Preserves x) λ labelled.
        Preserves-option (lookup (lit "clientSecret") labelled.content) _ _ (search preserves_rules)
          λ secret. Preserves-pure _

  call_create-Preserves :
      (c : Connection) (redirect_uris trusted_peers : List Str) (public : Bool)
      (name id logo_url secret : Str)
      → Preserves
          (Seen view P)
          (create_client w c redirect_uris trusted_peers public name id logo_url secret)
  unfolding create_client
  call_create-Preserves c redirect_uris trusted_peers public name id logo_url secret =
      search (preserves_rules, create_client-Preserves D C)

  call_update-Preserves :
      (c : Connection) (client_id : Str) (redirect_uris trusted_peers : List Str) (public : Bool)
      (name logo_url : Str)
      → Preserves
          (Seen view P)
          (update_client w c client_id redirect_uris trusted_peers public name logo_url)
  unfolding update_client
  call_update-Preserves c client_id redirect_uris trusted_peers public name logo_url =
      search (preserves_rules, update_client-Preserves D C)

  call_delete-Preserves :
      (c : Connection) (id : Str) → Preserves (Seen view P) (delete_client w c id)
  unfolding delete_client
  call_delete-Preserves c id = search (preserves_rules, delete_client-Preserves D C)

  pub create_oauth2-Preserves :
      (c : Connection) (m : DexClient) → Preserves (Seen view P) (create_oauth2_client w c m)
  unfolding create_oauth2_client create_with_secret
  create_oauth2-Preserves c m =
      Preserves-branch _ _ _ (credential-Preserves m)
        (λ secret. Preserves-bind _ _ (call_create-Preserves c _ _ _ _ _ _ secret) λ answer.
          Preserves-either answer _ _ (λ d. search (preserves_rules, conditions-Preserves))
            (λ e. search (preserves_rules, conditions-Preserves, fail-Preserves)))
        (λ e. fail-Preserves m _ _ e)

  pub update_oauth2-Preserves :
      (c : Connection) (m : DexClient) → Preserves (Seen view P) (update_oauth2_client w c m)
  unfolding update_oauth2_client
  update_oauth2-Preserves c m =
      search (preserves_rules, call_update-Preserves, conditions-Preserves, fail-Preserves)

  pub delete_oauth2-Preserves :
      (c : Connection) (m : DexClient) → Preserves (Seen view P) (delete_oauth2_client w c m)
  unfolding delete_oauth2_client
  delete_oauth2-Preserves c m =
      Preserves-bind _ _ (call_delete-Preserves c m.spec.client_id)
        λ answer. Preserves-option answer _ _ (Preserves-pure _) λ e. search preserves_rules

  pub connect-Preserves : (o : Options) → Preserves (Seen view P) (new_client_pem w o)
  unfolding new_client_pem
  connect-Preserves o = search (preserves_rules, dial-Preserves D C)

  pub hang_up-Preserves : (c : Connection) → Preserves (Seen view P) (close_connection w c)
  unfolding close_connection
  hang_up-Preserves c = search (preserves_rules, close-Preserves D C)
