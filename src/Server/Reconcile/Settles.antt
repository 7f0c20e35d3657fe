-- ===== src/Server/Reconcile/Settles.antt =====
-- The end of a DexServer that is being deleted, over repeated passes.
use dex_operator.Common.{
  ℕ, zero, suc, ◌≡◌, refl, ◌∙◌, ap, sym, true, false, Option, none, some, Result, ok, err, [],
  GoError, Action, pure, raise, ◌>>=◌, branch-eq-ok, unless_missing-eq-ok, inl, inr, branch-err,
  arith, if◌then◌else◌,
}
use mathlib.Core.Option
use dex_operator.Api.{Key, DexServer, server_key}
use dex_operator.World.{World, View, ApiServer, updated_server}
use dex_operator.Server.Resources.{cluster_role_binding_name}
use dex_operator.Server.Reconcile.{
  ReconcileResult, reconcile, reconcile_live, reconcile_deletion, done, dex_server_finalizer,
}
use dex_operator.Server.Reconcile.Cleanup.{without_finalizer, reconcile_deletion-cleans}

-- One pass after the other over the same key; the last one's result.
unfoldable pub passes : {S : Type 0} → World S → Key → ℕ → S → Result ReconcileResult × S
passes w k zero s = reconcile w k s
passes w k (suc n) s = passes w k n (reconcile w k s).1

some_of : {m n : DexServer} → some m ≡ some n → m ≡ n
some_of same = ground arith

none_or_some : {m : DexServer} → ¬ (none ≡ some m)
none_or_some bad = ground arith

pub chosen_branch :
    {A : Type 0} (o : Option ℕ) (a b : A) {t : ℕ}
    → o ≡ some t
    → elim o [ none ↦ a | some _ ↦ b ] ≡ b
chosen_branch o a b is = rw is refl

module _ {S : Type 0} {w : World S} {view : S → View} (L : ApiServer w view) where
  -- The API server answers that the key is missing, whenever nothing is stored under it.
  abbrev pub Answers : Key → Type 0
  Answers k =
      (s : S)
      → (view s).dex_servers k ≡ none
      → (e : GoError) × ((w.get_dex_server k s).0 ≡ err e) × (e.not_found ≡ true)

  -- A pass over a key under which nothing is stored is done at once.
  missing-pass :
      (k : Key) (s : S)
      → Answers k
      → (view s).dex_servers k ≡ none
      → ((reconcile w k s).0 ≡ ok done) × (view (reconcile w k s).1 ≡ view s)
  unfolding reconcile ◌>>=◌
  missing-pass k s answers gone =
      let (e, failed, missing) = answers s gone in
      let same =
        branch-err (w.get_dex_server k)
          (λ m. elim m.deletion_timestamp [
            | none ↦ reconcile_live w m
            | some _ ↦ reconcile_deletion w m
          ])
          (λ d. if d.not_found then pure done else raise d) s failed in
      rw (same, missing) (refl, L.get_server_reads k s)

  updated-none :
      (m old : DexServer) {t : ℕ}
      → m.deletion_timestamp ≡ some t
      → m.finalizers ≡ []
      → updated_server m old ≡ none
  updated-none m old deleted last = rw (deleted, last) refl

  -- What the branch for a deletion does once the resource is read.
  abbrev pub by_deletion : DexServer → Action S ReconcileResult
  by_deletion m = elim m.deletion_timestamp [
    | none ↦ reconcile_live w m
    | some _ ↦ reconcile_deletion w m
  ]

  deletion-pass :
      (k : Key) (m : DexServer) (s : S) {t : ℕ} {r : ReconcileResult}
      → (view s).dex_servers k ≡ some m
      → m.deletion_timestamp ≡ some t
      → (reconcile w k s).0 ≡ ok r
      → (server_key m ≡ k)
        × (reconcile w k s ≡ reconcile_deletion w m (w.get_dex_server k s).1)
        × ((reconcile_deletion w m (w.get_dex_server k s).1).0 ≡ ok r)
  unfolding reconcile
  deletion-pass k m s stored deleted good =
      elim (branch-eq-ok (w.get_dex_server k) by_deletion _ s good) [
        | inl (n, found, same, rest) ↦
            let (key, at_k) = (rw found at (L.get_server_finds k s)) in
            let is_m : n ≡ m = some_of (sym at_k ∙ stored) in
            let s₁ = (w.get_dex_server k s).1 in
            let chosen : by_deletion n ≡ reconcile_deletion w m =
              ap by_deletion is_m
              ∙ chosen_branch m.deletion_timestamp (reconcile_live w m) (reconcile_deletion w m)
                  deleted in
            (
              ap server_key (sym is_m) ∙ key,
              same ∙ ap (λ f. f s₁) chosen,
              ap (λ f. (f s₁).0) (sym chosen) ∙ rest,
            )
        | inr (e, failed, same, rest) ↦
            let missing = (rw failed at (L.get_server_finds k s)) in
            let (is_missing, _, _) =
              unless_missing-eq-ok e e (pure done) (w.get_dex_server k s).1 rest in
            absurd (none_or_some (sym (missing is_missing) ∙ stored))
      ]

  deletion-Gone :
      (k : Key) (m : DexServer) (s : S) {t : ℕ} {r : ReconcileResult}
      → (view s).dex_servers k ≡ some m
      → m.deletion_timestamp ≡ some t
      → w.remove_finalizer m.finalizers dex_server_finalizer ≡ []
      → (reconcile w k s).0 ≡ ok r
      → ((view (reconcile w k s).1).bindings (cluster_role_binding_name m) ≡ false)
        × ((view (reconcile w k s).1).dex_servers k ≡ none)
  unfolding Option.bind
  deletion-Gone k m s stored deleted last good =
      let (key, same, cleaned) = deletion-pass k m s stored deleted good in
      let (unbound, after) = reconcile_deletion-cleans L m _ cleaned in
      let updated = updated_server (without_finalizer w m) in
      rw same (
        unbound,
        ap (view (reconcile_deletion w m (w.get_dex_server k s).1).1).dex_servers (sym key)
            ∙ after
            ∙ ap (λ (v : View). Option.bind (v.dex_servers (server_key m)) updated)
                (L.get_server_reads k s)
            ∙ ap (λ j. Option.bind ((view s).dex_servers j) updated) key
            ∙ ap (λ o. Option.bind o updated) stored
            ∙ updated-none (without_finalizer w m) m deleted last,
      )

  later_passes :
      (k : Key) (n : ℕ) (s : S)
      → Answers k
      → (view s).dex_servers k ≡ none
      → ((passes w k n s).0 ≡ ok done) × (view (passes w k n s).1 ≡ view s)
  unfolding passes
  later_passes k zero s answers gone = missing-pass k s answers gone
  later_passes k (suc n) s answers gone =
      let (_, same) = missing-pass k s answers gone in
      let (last, kept) =
        later_passes k n (reconcile w k s).1 answers
          (ap (λ (v : View). v.dex_servers k) same ∙ gone) in
      (last, kept ∙ same)

  -- When a pass over a stored DexServer that is being deleted, and has no other finalizer than
  -- the cleanup's, succeeds, nothing is stored under its key any more, and its cluster role
  -- binding is gone; and where the API server answers reads of missing resources, every later
  -- pass over the key is done at once, asks for no requeue, and changes nothing that is stored.
  pub deletion-settles :
      (k : Key) (m : DexServer) (s : S) {t : ℕ} {r : ReconcileResult}
      → (view s).dex_servers k ≡ some m
      → m.deletion_timestamp ≡ some t
      → w.remove_finalizer m.finalizers dex_server_finalizer ≡ []
      → (reconcile w k s).0 ≡ ok r
      → Answers k
      → ((view (reconcile w k s).1).bindings (cluster_role_binding_name m) ≡ false)
        × ((view (reconcile w k s).1).dex_servers k ≡ none)
        × ((n : ℕ)
            → ((passes w k (suc n) s).0 ≡ ok done)
              × (view (passes w k (suc n) s).1 ≡ view (reconcile w k s).1))
  unfolding passes
  deletion-settles k m s stored deleted last good answers =
      let (unbound, gone) = deletion-Gone k m s stored deleted last good in
      (unbound, gone, λ n. later_passes k n (reconcile w k s).1 answers gone)
