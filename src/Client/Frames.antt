-- ===== src/Client/Frames.antt =====
-- The operations on a DexClient leave the connections to dex alone.
use dex_operator.Common.{
  ℕ, ◌≡◌, refl, ap, Bool, false, List, Str, lit, Result, ok, err, panic, GoError, Action, Keeps,
  Keeps-branch, Keeps-bind, Keeps-option, Keeps-either, Keeps-pure, keeps_rules, lookup, str_eq,
  Bool-cases, inl, inr,
}
use dex_operator.Api.{Secret, Condition, DexClient}
use dex_operator.World.{
  World, View, ApiServer, DexLaws, Connection, CreateClientReq, CreateClientResp, UpdateClientReq,
  DeleteClientReq, NotFoundResp, Created, Deleted, put_client, put_client_status,
}
use dex_operator.World.Frames.{part, Writes-Keeps, get_secret-Keeps, update_secret-Keeps}
use dex_operator.Conditions.{update_dex_client_status_conditions}
use dex_operator.Secrets.{add_label}
use dex_operator.DexApi.{create_client, update_client, delete_client}
use dex_operator.Client.Credential.{
  check_and_add_label_to_client_secret, get_hash_for_a_secret, store_hash,
  has_client_secret_been_updated, get_client_client_secret_from_ref,
  dex_client_secret_hash_annotation,
}
use dex_operator.Client.Oauth.{
  fail_client, create_with_secret, create_oauth2_client, update_oauth2_client, delete_oauth2_client,
}
use dex_operator.Client.Reconcile.{
  reconcile_connected, sync_oauth2_client, ensure_client_finalizer, drop_finalizer,
}

-- How many connections are open.
abbrev pub open_connections : View → ℕ
open_connections v = v.connections

module _ {S : Type 0} {w : World S} {view : S → View} (L : ApiServer w view)
    (D : DexLaws w view) where
  abbrev pub Balanced : {A : Type 0} → Action S A → Type 0
  Balanced = Keeps (part view open_connections)

  Created-connections :
      (target id : Str) (r : Result CreateClientResp) (v v' : View)
      → Created target id r v v'
      → v'.connections ≡ v.connections
  Created-connections target id (ok r) v v' h = elim (Bool-cases r.already_exists) [
    | inl exists ↦ ap open_connections (h.0 exists).0
    | inr fresh ↦ ap open_connections (h.1 fresh)
  ]
  Created-connections target id (err e) v v' h = ap open_connections h
  Created-connections target id panic v v' h = ap open_connections h

  Deleted-connections :
      (target id : Str) (r : Result NotFoundResp) (v v' : View)
      → Deleted target id r v v'
      → v'.connections ≡ v.connections
  Deleted-connections target id (ok r) v v' h = elim (Bool-cases r.not_found) [
    | inl missing ↦ ap open_connections (h.0 missing).0
    | inr found ↦ ap open_connections (h.1 found)
  ]
  Deleted-connections target id (err e) v v' h = ap open_connections h
  Deleted-connections target id panic v v' h = ap open_connections h

  pub store_client : (m : DexClient) → Balanced (w.update_dex_client m)
  store_client m =
      Writes-Keeps view open_connections _ (put_client m) (D.update_client_writes m) (λ v. refl)

  store_status : (m : DexClient) → Balanced (w.update_dex_client_status m)
  store_status m =
      Writes-Keeps view open_connections _ (put_client_status m) (D.update_client_status_writes m)
        (λ v. refl)

  store_secret : (x : Secret) → Balanced (w.update_secret x)
  store_secret = update_secret-Keeps L open_connections (λ x v. refl)

  grpc_create : (c : Connection) (req : CreateClientReq) → Balanced (w.create_client c req)
  grpc_create c req = record {
    same = λ s. Created-connections c.target req.client.id _ _ _ (D.create_client_writes c req s);
  }

  grpc_update : (c : Connection) (req : UpdateClientReq) → Balanced (w.update_client c req)
  grpc_update c req = record { same = λ s. ap open_connections (D.update_client_changes c req s) }

  grpc_delete : (c : Connection) (req : DeleteClientReq) → Balanced (w.delete_client c req)
  grpc_delete c req = record {
    same = λ s. Deleted-connections c.target req.id _ _ _ (D.delete_client_writes c req s);
  }

  pub conditions-Keeps :
      (m : DexClient) (cs : List Condition) → Balanced (update_dex_client_status_conditions w m cs)
  unfolding update_dex_client_status_conditions
  conditions-Keeps m cs = store_status _

  pub fail-Keeps :
      {A : Type 0} (m : DexClient) (reason text : Str) (e : GoError)
      → Balanced (fail_client w {A = A} m reason text e)
  unfolding fail_client
  fail-Keeps m reason text e = search (keeps_rules, conditions-Keeps)

  label-Keeps : (x : Secret) → Balanced (check_and_add_label_to_client_secret w x)
  unfolding check_and_add_label_to_client_secret add_label
  label-Keeps x = search (keeps_rules, store_secret)

  hash-Keeps : (m : DexClient) → Balanced (get_hash_for_a_secret w m)
  unfolding get_hash_for_a_secret
  hash-Keeps m = search (keeps_rules, get_secret-Keeps L open_connections)

  store_hash-Keeps : (m : DexClient) (hash : Str) (b : Bool) → Balanced (store_hash w m hash b)
  unfolding store_hash
  store_hash-Keeps m hash b = search (keeps_rules, store_client)

  check-Keeps : (m : DexClient) → Balanced (has_client_secret_been_updated w m)
  unfolding has_client_secret_been_updated
  check-Keeps m =
      Keeps-branch _ _ _ (hash-Keeps m)
        (λ hash.
          Keeps-option (lookup dex_client_secret_hash_annotation m.annotations) _ _
            (store_hash-Keeps m hash false) λ old. search (keeps_rules, store_hash-Keeps))
        (λ e. Keeps-pure _)

  credential-Keeps : (m : DexClient) → Balanced (get_client_client_secret_from_ref w m)
  unfolding get_client_client_secret_from_ref
  credential-Keeps m = Keeps-bind _ _ (get_secret-Keeps L open_connections _) λ x.
      Keeps-bind _ _ (label-Keeps x) λ labelled.
        Keeps-option (lookup (lit "clientSecret") labelled.content) _ _ (search keeps_rules)
          λ secret. Keeps-pure _

  create_client-Keeps :
      (c : Connection) (redirect_uris trusted_peers : List Str) (public : Bool)
      (name id logo_url secret : Str)
      → Balanced (create_client w c redirect_uris trusted_peers public name id logo_url secret)
  unfolding create_client
  create_client-Keeps c redirect_uris trusted_peers public name id logo_url secret =
      search (keeps_rules, grpc_create)

  update_client-Keeps :
      (c : Connection) (client_id : Str) (redirect_uris trusted_peers : List Str) (public : Bool)
      (name logo_url : Str)
      → Balanced (update_client w c client_id redirect_uris trusted_peers public name logo_url)
  unfolding update_client
  update_client-Keeps c client_id redirect_uris trusted_peers public name logo_url =
      search (keeps_rules, grpc_update)

  delete_client-Keeps : (c : Connection) (id : Str) → Balanced (delete_client w c id)
  unfolding delete_client
  delete_client-Keeps c id = search (keeps_rules, grpc_delete)

  create_oauth2-Keeps : (c : Connection) (m : DexClient) → Balanced (create_oauth2_client w c m)
  unfolding create_oauth2_client create_with_secret
  create_oauth2-Keeps c m =
      Keeps-branch _ _ _ (credential-Keeps m)
        (λ secret. Keeps-bind _ _ (create_client-Keeps c _ _ _ _ _ _ secret) λ answer.
          Keeps-either answer _ _ (λ d. search (keeps_rules, conditions-Keeps))
            (λ e. search (keeps_rules, conditions-Keeps, fail-Keeps)))
        (λ e. fail-Keeps m _ _ e)

  update_oauth2-Keeps : (c : Connection) (m : DexClient) → Balanced (update_oauth2_client w c m)
  unfolding update_oauth2_client
  update_oauth2-Keeps c m = search (keeps_rules, update_client-Keeps, conditions-Keeps, fail-Keeps)

  delete_oauth2-Keeps : (c : Connection) (m : DexClient) → Balanced (delete_oauth2_client w c m)
  unfolding delete_oauth2_client
  delete_oauth2-Keeps c m =
      Keeps-bind _ _ (delete_client-Keeps c m.spec.client_id)
        λ answer. Keeps-option answer _ _ (Keeps-pure _) λ e. search keeps_rules

  pub drop-Keeps : (m : DexClient) → Balanced (drop_finalizer w m)
  unfolding drop_finalizer
  drop-Keeps m = search (keeps_rules, store_client)

  pub ensure-Keeps : (m : DexClient) → Balanced (ensure_client_finalizer w m)
  unfolding ensure_client_finalizer
  ensure-Keeps m = search (keeps_rules, store_client)

  sync-Keeps : (c : Connection) (m : DexClient) → Balanced (sync_oauth2_client w c m)
  unfolding sync_oauth2_client
  sync-Keeps c m = Keeps-bind _ _ (check-Keeps m) λ check.
      search (keeps_rules, create_oauth2-Keeps, update_oauth2-Keeps, delete_oauth2-Keeps) depth 9

  pub connected-Keeps : (c : Connection) (m : DexClient) → Balanced (reconcile_connected w c m)
  unfolding reconcile_connected
  connected-Keeps c m = search (keeps_rules, delete_oauth2-Keeps, drop-Keeps, sync-Keeps)
