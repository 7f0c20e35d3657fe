-- ===== src/Client/Removal.antt =====
-- What the deletion of a DexClient leaves: in dex, and of the DexClient itself.
pub mod Pass
use Prim.Native.Nat.{◌-◌}
use mathlib.Core.Option
use dex_operator.Common.{
  ℕ, List, ◌≡◌, ◌≢◌, refl, ◌∙◌, ap, sym, subst, Bool, true, false, not, ◌&&◌, Option, none, some,
  Str, [], ◌∷◌, ok, err, GoError, Action, branch, pure, raise, finally, ◌>>=◌, ◌returning◌,
  bind-eq-ok, branch-eq-ok, returning-eq-ok, handle-raise-eq-ok, pure-eq-ok, unless_missing-eq-ok,
  Bool-cases, arith, if◌then◌else◌, inl, inr, ◌==◌, str_eq, lit,
}
use dex_operator.Api.{Key, Secret, empty_secret, DexClient, client_key}
use dex_operator.World.{
  World, View, ApiServer, DexLaws, Connection, NotFoundResp, Deleted, put_client, updated_client,
}
use dex_operator.World.Facts.{wrote, same_key_refl}
use dex_operator.Conditions.{ExternLaws, update_dex_client_status_conditions}
use dex_operator.DexApi.{Options, new_client_pem, delete_client, close_connection}
use dex_operator.Server.Reconcile.{ReconcileResult, done}
use dex_operator.Client.Credential.{get_mtls_secret}
use dex_operator.Client.Oauth.{delete_oauth2_client, fail_client}
use dex_operator.Client.Deletion.{request_of}
use dex_operator.Client.Marks.{fail-not_ok}
use dex_operator.Client.Reconcile.{
  dex_client_finalizer, is_deleted, was_created, dex_api_options, drop_finalizer,
  ensure_client_finalizer, reconcile_connected, reconcile_with_secret, reconcile_client,
  wait_for_mtls, waiting_condition, reconcile,
}

left_over :
    (d : Option ℕ) (fs : List Str) (x : DexClient) {n : DexClient}
    → elim d [ none ↦ some x | some _ ↦ elim fs [ [] ↦ none | _ ↦ some x ] ] ≡ some n
    → n ≡ x
left_over none fs x stored = ground arith
left_over (some t) [] x stored = absurd (ground arith)
left_over (some t) (f ∷ fs) x stored = ground arith

-- A DexClient that is still stored after an update has the finalizers that were sent.
updated-finalizers :
    (sent : DexClient) (old : Option DexClient) {n : DexClient}
    → Option.bind old (updated_client sent) ≡ some n
    → n.finalizers ≡ sent.finalizers
unfolding Option.bind
updated-finalizers sent none stored = absurd (ground arith)
updated-finalizers sent (some o) stored =
    ap (λ (x : DexClient). x.finalizers)
      (left_over sent.deletion_timestamp sent.finalizers (record sent { status = o.status }) stored)

module _ {S : Type 0} {w : World S} {view : S → View} (D : DexLaws w view) where
  -- Dex has no client of the identifier at the address.
  abbrev pub Gone : Str → Str → S → Type 0
  Gone target id s = (view s).dex target id ≡ none

  answered :
      (c : Connection) (m : DexClient) (s : S) {r : ReconcileResult}
      → (delete_oauth2_client w c m s).0 ≡ ok r
      → (answer : NotFoundResp) × ((w.delete_client c (request_of m) s).0 ≡ ok answer)
        × ((delete_oauth2_client w c m s).1 ≡ (w.delete_client c (request_of m) s).1)
  unfolding delete_oauth2_client delete_client ◌>>=◌
  answered c m s good = ground arith

  pub delete_client-Gone :
      (c : Connection) (m : DexClient) (s : S) {r : ReconcileResult}
      → (delete_oauth2_client w c m s).0 ≡ ok r
      → Gone c.target m.spec.client_id (delete_oauth2_client w c m s).1
  delete_client-Gone c m s good =
      let (answer, deleted, same) = answered c m s good in
      let law = (rw deleted at (D.delete_client_writes c (request_of m) s)) in
      elim (Bool-cases answer.not_found) [
        | inl missing ↦ rw (same, (law.0 missing).0) (law.0 missing).1
        | inr found ↦ rw (same, law.1 found) (ground arith)
      ]

module _ {S : Type 0} {w : World S} {view : S → View} (L : ApiServer w view) (D : DexLaws w view)
    (E : ExternLaws w) where
  -- What is stored of the DexClient, if anything, does not have the finalizer.
  abbrev pub Released : DexClient → S → Type 0
  Released m s =
      (n : DexClient)
      → (view s).dex_clients (client_key m) ≡ some n
      → w.contains_finalizer n.finalizers dex_client_finalizer ≡ false

  drop-Released :
      (m : DexClient) (s : S) {r : ReconcileResult}
      → (drop_finalizer w m s).0 ≡ ok r
      → Released m (drop_finalizer w m s).1
  unfolding drop_finalizer
  drop-Released m s good n found =
      let sent : DexClient = record m {
        finalizers = w.remove_finalizer m.finalizers dex_client_finalizer;
      } in
      let (n', updated, same) = returning-eq-ok (w.update_dex_client sent) done s good in
      let after =
        wrote view (w.update_dex_client sent) (put_client sent) s (D.update_client_writes sent)
          updated in
      let stored =
        sym (ap (λ (v : View). v.dex_clients (client_key m)) after ∙ rw same_key_refl)
        ∙ ap (λ t. (view t).dex_clients (client_key m)) (sym (ap (λ x. x.1) same))
        ∙ found in
      let removed : w.contains_finalizer sent.finalizers dex_client_finalizer ≡ false =
        E.contains-remove m.finalizers dex_client_finalizer dex_client_finalizer ∙ ground arith in
      rw (updated-finalizers sent ((view s).dex_clients (client_key m)) stored) removed

  drop-dex :
      (m : DexClient) (s : S) {r : ReconcileResult}
      → (drop_finalizer w m s).0 ≡ ok r
      → (view (drop_finalizer w m s).1).dex ≡ (view s).dex
  unfolding drop_finalizer
  drop-dex m s good =
      let sent : DexClient = record m {
        finalizers = w.remove_finalizer m.finalizers dex_client_finalizer;
      } in
      let (n', updated, same) = returning-eq-ok (w.update_dex_client sent) done s good in
      rw same (
        ap (λ (v : View). v.dex)
          (wrote view (w.update_dex_client sent) (put_client sent) s (D.update_client_writes sent)
            updated))

  -- The two results of an operation on a DexClient whose client of dex is removed.
  abbrev pub Cleared : Str → DexClient → S → Type 0
  Cleared target m s = Gone D target m.spec.client_id s × Released m s

  pub connected-Cleared :
      (c : Connection) (m : DexClient) (s : S) {r : ReconcileResult}
      → is_deleted m ≡ true
      → (reconcile_connected w c m s).0 ≡ ok r
      → Cleared c.target m (reconcile_connected w c m s).1
  unfolding reconcile_connected
  connected-Cleared c m s deleted good =
      let good' : ((delete_oauth2_client w c m >>= λ _. drop_finalizer w m) s).0 ≡ ok _ =
        (rw deleted at good) in
      let (r', gone, same, rest) =
        bind-eq-ok (delete_oauth2_client w c m) (λ _. drop_finalizer w m) s good' in
      rw (deleted, same)
        (
          ap (λ f. f c.target m.spec.client_id) (drop-dex m _ rest)
              ∙ delete_client-Gone D c m s gone,
          drop-Released m _ rest,
        )
