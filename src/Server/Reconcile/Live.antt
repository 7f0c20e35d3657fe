-- ===== src/Server/Reconcile/Live.antt =====
-- `Reconcile` as a whole, for a DexServer that is not being deleted.
use dex_operator.Common.{
  ◌≡◌, refl, ◌∙◌, ap, true, Option, none, Str, ok, Keeps, keeps_rules, bind-eq-ok, pure-eq-ok,
  ◌>>=◌, Bool-cases, inl, inr, arith, List, some, subst,
}
use dex_operator.Api.{Key, Condition, DexServer, server_key}
use mathlib.Core.Option
use dex_operator.World.{World, View, Values, ApiServer, put_server, same_key}
use dex_operator.World.Facts.{wrote, same_key_refl}
use dex_operator.World.Stable.{ServerStable}
use dex_operator.World.Forms.{StoredServer}
use dex_operator.Server.Reconcile.Preserved.{sync_all-Preserves, report-Preserves}
use dex_operator.World.Frames.{part, update_status-Keeps, get_deployment-Keeps}
use dex_operator.Certs.{hour}
use dex_operator.Conditions.{ExternLaws, update_dex_server_status_conditions}
use dex_operator.Server.Reconcile.{
  ReconcileResult, dex_server_finalizer, ensure_finalizer, sync_all, report_applied, reconcile_live,
  reconcile, get_dex_server_deployment_condition,
}

pub reconcile-live :
    {S : Type 0} (w : World S) (key : Key) (m : DexServer) (s : S)
    → (w.get_dex_server key s).0 ≡ ok m
    → m.deletion_timestamp ≡ none
    → reconcile w key s ≡ reconcile_live w m (w.get_dex_server key s).1
unfolding reconcile ◌>>=◌
reconcile-live w key m s found live = ground arith

abbrev applied_templates : View → Str → Option Values
applied_templates v = v.applied

module _ {S : Type 0} {w : World S} {view : S → View} (L : ApiServer w view) where
  conditions-Keeps :
      (m : DexServer) (cs : List Condition)
      → Keeps (part view applied_templates) (update_dex_server_status_conditions w m cs)
  unfolding update_dex_server_status_conditions
  conditions-Keeps m cs = update_status-Keeps L applied_templates _ (λ v. refl)

  condition-Keeps :
      (m : DexServer)
      → Keeps (part view applied_templates) (get_dex_server_deployment_condition w m)
  unfolding get_dex_server_deployment_condition
  condition-Keeps m = search (keeps_rules, get_deployment-Keeps L applied_templates)

  report-Keeps : (m : DexServer) → Keeps (part view applied_templates) (report_applied w m)
  unfolding report_applied
  report-Keeps m = search (keeps_rules, conditions-Keeps, condition-Keeps)

  report-requeues :
      (m : DexServer) (s : S) {r : ReconcileResult}
      → (report_applied w m s).0 ≡ ok r
      → r ≡ record { requeue = true; requeue_after = hour }
  unfolding report_applied ◌>>=◌
  report-requeues m s done = ground arith

module _ {S : Type 0} {w : World S} {view : S → View} (L : ApiServer w view)
    (E : ExternLaws w) where
  -- The finalizer is there after the step that ensures it.
  pub finalizer_ensured :
      (m n : DexServer) (s : S)
      → (ensure_finalizer w m s).0 ≡ ok n
      → (server_key n ≡ server_key m)
        × (n.spec ≡ m.spec)
        × (w.contains_finalizer n.finalizers dex_server_finalizer ≡ true)
  unfolding ensure_finalizer ◌>>=◌
  finalizer_ensured m n s done =
      elim (Bool-cases (w.contains_finalizer m.finalizers dex_server_finalizer)) [
        | inl there ↦
            let is_m : n ≡ m = pure-eq-ok m n s (rw there at done) in
            (ap server_key is_m, ap (λ x. x.spec) is_m, rw is_m there)
        | inr missing ↦
            let sent : DexServer = record m {
              finalizers = w.add_finalizer m.finalizers dex_server_finalizer;
            } in
            let (key, finalizers, spec) = L.update_server_answers sent n s (rw missing at done) in
            (
              key,
              spec,
              rw finalizers (
                  E.contains-add m.finalizers dex_server_finalizer dex_server_finalizer
                  ∙ ground arith),
            )
      ]

  abbrev HasFinalizer : DexServer → Type 0
  HasFinalizer n = w.contains_finalizer n.finalizers dex_server_finalizer ≡ true

  finalized :
      (m : DexServer)
      → HasFinalizer (record m { finalizers = w.add_finalizer m.finalizers dex_server_finalizer })
  finalized m = E.contains-add m.finalizers dex_server_finalizer dex_server_finalizer ∙ ground arith

  -- What is stored has the finalizer after the step that ensures it.
  finalizer_stored :
      (m n : DexServer) (s : S)
      → (view s).dex_servers (server_key m) ≡ some m
      → m.deletion_timestamp ≡ none
      → (ensure_finalizer w m s).0 ≡ ok n
      → StoredServer (server_key m) HasFinalizer (view (ensure_finalizer w m s).1)
  unfolding ensure_finalizer ◌>>=◌ Option.bind
  finalizer_stored m n s stored live done =
      elim (Bool-cases (w.contains_finalizer m.finalizers dex_server_finalizer)) [
        | inl there ↦ (m, rw there stored, there)
        | inr missing ↦
            let sent : DexServer = record m {
              finalizers = w.add_finalizer m.finalizers dex_server_finalizer;
            } in
            (
              record sent { status = m.status },
              rw missing (
                  ap (λ (v : View). v.dex_servers (server_key m))
                    (wrote view (w.update_dex_server sent) (put_server sent) s
                      (L.update_server_writes sent) (rw missing at done))
                  ∙ rw (same_key_refl, stored, live) refl),
              finalized m,
            )
      ]

  HasFinalizer-Stable : (k : Key) → ServerStable (StoredServer k HasFinalizer)
  HasFinalizer-Stable k = record {
    secret = λ y v h. h;
    applied = λ file values v h. h;
    binding = λ n v h. h;
    server_status = λ m v (n, stored, q). elim (Bool-cases (same_key k (server_key m))) [
      | inl same ↦ (record n { status = m.status }, rw (same, stored) refl, q)
      | inr other ↦ (n, rw other stored, q)
    ];
  }

  -- When `Reconcile` succeeds for a DexServer that was found and is not being deleted, the step that
  -- ensures the finalizer went through; the eight calls went through with success from the world
  -- that this step left, for an object with the key and the spec of the one that was found; what
  -- was made of the templates is what they made; the DexServer that is stored then has the
  -- finalizer; and the resource is requeued after an hour.
  pub reconcile-installs :
      (key : Key) (m : DexServer) (s : S) {r : ReconcileResult}
      → (w.get_dex_server key s).0 ≡ ok m
      → m.deletion_timestamp ≡ none
      → (reconcile w key s).0 ≡ ok r
      → (n : DexServer) × ((ensure_finalizer w m (w.get_dex_server key s).1).0 ≡ ok n)
        × (server_key n ≡ key)
        × (n.spec ≡ m.spec)
        × ((sync_all w n (ensure_finalizer w m (w.get_dex_server key s).1).1).0 ≡ ok tt)
        × ((view (reconcile w key s).1).applied
            ≡ (view (sync_all w n (ensure_finalizer w m (w.get_dex_server key s).1).1).1).applied)
        × ((stored : DexServer) × ((view (reconcile w key s).1).dex_servers key ≡ some stored)
            × (w.contains_finalizer stored.finalizers dex_server_finalizer ≡ true))
        × (r ≡ record { requeue = true; requeue_after = hour })
  unfolding reconcile_live
  reconcile-installs key m s found live done =
      let is_live = reconcile-live w key m s found live in
      let (n, ensured, same, rest) = bind-eq-ok (ensure_finalizer w m) _ _ (rw is_live at done) in
      let (u, synced, same', reported) =
        bind-eq-ok (sync_all w n) (λ _. report_applied w n) _ rest in
      let (k, spec, finalizer) = finalizer_ensured m n _ ensured in
      let (is_key, there) = (rw found at (L.get_server_finds key s)) in
      let s₁ = (w.get_dex_server key s).1 in
      let there₁ : (view s₁).dex_servers (server_key m) ≡ some m =
        ap (λ (v : View). v.dex_servers (server_key m)) (L.get_server_reads key s)
        ∙ ap (view s).dex_servers is_key
        ∙ there in
      let C = HasFinalizer-Stable (server_key m) in
      let kept =
        (report-Preserves L C n).after _
          ((sync_all-Preserves L C n).after _ (finalizer_stored m n s₁ there₁ live ensured)) in
      (
        n,
        ensured,
        k ∙ is_key,
        spec,
        synced,
        rw (is_live, same, same') ((report-Keeps L n).same _),
        subst (λ j. StoredServer j HasFinalizer (view (reconcile w key s).1)) is_key
            (rw (is_live, same, same') kept),
        report-requeues L n _ reported,
      )
