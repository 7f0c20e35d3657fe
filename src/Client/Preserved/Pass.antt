-- ===== src/Client/Preserved/Pass.antt =====
-- A pass over a DexClient keeps every stable property of what is stored.
use dex_operator.Common.{
  ◌≡◌, ◌∙◌, ap, Bool, false, Str, lookup, str_eq, Preserves, Preserves-bind, Preserves-branch,
  Preserves-option, Preserves-pure, Gives, Gives-branch, Gives-bind, Gives-pure, Gives-test,
  Preserves-test, ◌&&◌, true, none, Option-cases, preserves_rules, inl, inr, arith,
}
use dex_operator.Api.{Key, Secret, DexClient}
use dex_operator.World.{World, View, ApiServer, DexLaws, Connection, put_client}
use dex_operator.World.Stable.{
  ClientStable, Seen, Reads-Preserves, Writes-Preserves, get_secret-Preserves,
}
use dex_operator.World.Updates.{ClientUpdates}
use dex_operator.Client.Credential.{
  store_hash, with_hash, has_client_secret_been_updated, dex_client_secret_hash_annotation,
}
use dex_operator.Client.Removal.Pass.{after_finalizer}
use dex_operator.Client.Reconcile.{
  reconcile, reconcile_client, reconcile_with_secret, reconcile_connected, sync_oauth2_client,
  ensure_client_finalizer, drop_finalizer, is_deleted, dex_client_finalizer,
}
use dex_operator.Client.Preserved.{
  conditions-Preserves, fail-Preserves, hash-Preserves, create_oauth2-Preserves,
  update_oauth2-Preserves, delete_oauth2-Preserves, connect-Preserves, hang_up-Preserves,
}

not_deleted : (m : DexClient) → m.deletion_timestamp ≡ none → ¬ (is_deleted m ≡ true)
not_deleted m live deleted = absurd (ground arith)

and_left : (a b : Bool) → (a && b) ≡ true → a ≡ true
and_left a b both = ground arith

module _ {S : Type 0} {w : World S} {view : S → View} (L : ApiServer w view) (D : DexLaws w view)
    {P : View → Type 0} (C : ClientStable P) where
  module _ {Allowed : DexClient → Type 0} (U : ClientUpdates w dex_client_finalizer P Allowed) where
    update-Preserves : (m : DexClient) → Allowed m → Preserves (Seen view P) (w.update_dex_client m)
    update-Preserves m allowed =
        Writes-Preserves view P _ (put_client m) (D.update_client_writes m)
          (λ v. U.updated m v allowed)

    update-Gives : (m : DexClient) → Allowed m → Gives (Seen view P) Allowed (w.update_dex_client m)
    update-Gives m allowed = record {
      preserves = update-Preserves m allowed;
      value = λ s n h answer.
          let (key, spec, deletion, finalizers) = D.update_client_answers m n s answer in
          U.answered m n key spec deletion finalizers allowed;
    }

    read-Gives : (k : Key) → Gives (Seen view P) Allowed (w.get_dex_client k)
    read-Gives k = record {
      preserves = Reads-Preserves view P _ (D.get_client_reads k);
      value = λ s m h found.
          let (key, stored) = (rw found at (D.get_client_finds k s)) in
          U.read m (view s) (ap (view s).dex_clients key ∙ stored) h;
    }

    store_hash-Preserves :
        (m : DexClient) (hash : Str) (b : Bool)
        → Allowed m
        → Preserves (Seen view P) (store_hash w m hash b)
    unfolding store_hash
    store_hash-Preserves m hash b allowed =
        search (preserves_rules, update-Preserves (with_hash m hash) (U.annotated m _ allowed))

    check-Preserves :
        (m : DexClient) → Allowed m → Preserves (Seen view P) (has_client_secret_been_updated w m)
    unfolding has_client_secret_been_updated
    check-Preserves m allowed =
        Preserves-branch _ _ _ (hash-Preserves L D C m)
          (λ hash.
            Preserves-option (lookup dex_client_secret_hash_annotation m.annotations) _ _
              (store_hash-Preserves m hash false allowed)
              λ old. search (preserves_rules, store_hash-Preserves))
          (λ e. Preserves-pure _)

    sync-Preserves :
        (c : Connection) (m : DexClient)
        → Allowed m
        → Preserves (Seen view P) (sync_oauth2_client w c m)
    unfolding sync_oauth2_client
    sync-Preserves c m allowed = Preserves-bind _ _ (check-Preserves m allowed) λ check.
        search
          (
            preserves_rules,
            create_oauth2-Preserves L D C,
            update_oauth2-Preserves L D C,
            delete_oauth2-Preserves L D C,
          )
          depth 9

    drop-Preserves :
        (m : DexClient)
        → is_deleted m ≡ true
        → Allowed m
        → Preserves (Seen view P) (drop_finalizer w m)
    unfolding drop_finalizer
    drop-Preserves m deleted allowed = elim (Option-cases m.deletion_timestamp) [
      | inl live ↦ absurd (not_deleted m live deleted)
      | inr (t, is) ↦ search (preserves_rules, update-Preserves _ (U.released m t is allowed))
    ]

    connected-Preserves :
        (c : Connection) (m : DexClient)
        → Allowed m
        → Preserves (Seen view P) (reconcile_connected w c m)
    unfolding reconcile_connected
    connected-Preserves c m allowed =
        Preserves-test _ _ _
          (λ deleted.
            Preserves-bind _ _ (delete_oauth2-Preserves L D C c m)
              (λ _. drop-Preserves m deleted allowed))
          (λ live. sync-Preserves c m allowed)

    with_secret-Preserves :
        (m : DexClient) (x : Secret)
        → Allowed m
        → Preserves (Seen view P) (reconcile_with_secret w m x)
    unfolding reconcile_with_secret
    with_secret-Preserves m x allowed = search (
      preserves_rules,
      connect-Preserves L D C,
      hang_up-Preserves L D C,
      connected-Preserves,
      fail-Preserves L D C,
    )

    pub ensure-Gives :
        (m : DexClient) → Allowed m → Gives (Seen view P) Allowed (ensure_client_finalizer w m)
    unfolding ensure_client_finalizer
    ensure-Gives m allowed =
        Gives-test _ _ _ (λ has. Gives-pure m allowed)
          (λ misses. update-Gives _ (U.finalized m misses allowed))

    after_finalizer-Preserves :
        (m : DexClient) → Allowed m → Preserves (Seen view P) (after_finalizer w m)
    after_finalizer-Preserves m allowed = search (
      preserves_rules,
      get_secret-Preserves L C.secret,
      with_secret-Preserves,
      conditions-Preserves L D C,
      fail-Preserves L D C,
    )

    client-Preserves : (m : DexClient) → Allowed m → Preserves (Seen view P) (reconcile_client w m)
    unfolding reconcile_client
    client-Preserves m allowed =
        Preserves-test _ _ _ (λ over. drop-Preserves m (and_left _ _ over) allowed)
          (λ goes_on.
            Gives-bind (ensure_client_finalizer w m) (after_finalizer w) (ensure-Gives m allowed)
              after_finalizer-Preserves)

    -- A whole pass keeps such a property, whichever way it ends.
    pub reconcile-Preserves : (k : Key) → Preserves (Seen view P) (reconcile w k)
    unfolding reconcile
    reconcile-Preserves k =
        Gives-branch _ _ _ (read-Gives k) client-Preserves (λ e. search preserves_rules)
