-- ===== src/Server/Reconcile/Steps.antt =====
-- One step of `Reconcile`, and the conditions that are stored at its end.
use dex_operator.Common.{
  ◌≡◌, refl, ◌∙◌, ap, [], ◌∷◌, Bool, true, false, Option, none, some, ok, err, Str, lit, str_eq,
  ◌==◌, GoError, Action, pure, raise, ◌>>=◌, bind-eq-ok, returning-eq-ok, branch-eq-ok, branch-err,
  bind-ok, branch-ok, sym, subst, inl, inr, arith, ◌⊎◌, ◌++◌, panic, Result, branch,
}
use mathlib.Core.Option
use dex_operator.Api.{
  Condition, ConditionStatus, condition_true, condition_false, Deployment, DexServer, server_key,
  dex_server_condition_applied, dex_server_deployment_available,
}
use dex_operator.World.{World, View, ApiServer, put_server_status}
use dex_operator.World.Facts.{wrote, same_key_refl}
use dex_operator.Certs.{hour}
use dex_operator.Conditions.{
  ExternLaws, find_condition, merge_status_conditions, update_dex_server_status_conditions,
}
use dex_operator.Server.Reconcile.{
  ReconcileResult, failed_condition, applied_condition, deployment_condition, reconcile_step,
  report_applied, get_dex_server_deployment_condition,
}

module _ {S : Type 0} (w : World S) where
  -- A step that succeeded is the call itself.
  pub reconcile_step-eq-ok :
      (m : DexServer) (reason text : Str) (sync : DexServer → Action S (Unit {0})) (s : S)
      → (reconcile_step w m reason text sync s).0 ≡ ok tt
      → ((sync m s).0 ≡ ok tt) × (reconcile_step w m reason text sync s ≡ sync m s)
  unfolding reconcile_step ◌>>=◌
  reconcile_step-eq-ok m reason text sync s done = elim (branch-eq-ok (sync m) pure _ s done) [
    | inl (u, good, same, _) ↦ (good, same ∙ ap (λ r. (r, (sync m s).1)) (sym good))
    | inr (e, failed, same, bad) ↦
        let (n, stored, _, wrong) =
          bind-eq-ok (update_dex_server_status_conditions w m (failed_condition reason text e ∷ []))
            (λ _. raise e) (sync m s).1 bad in
        absurd (ground arith)
  ]

Result-cases :
    {A : Type 0} (r : Result A)
    → ((a : A) × (r ≡ ok a)) ⊎ ((e : GoError) × (r ≡ err e)) ⊎ (r ≡ panic)
Result-cases (ok a) = inl (a, refl)
Result-cases (err e) = inr (inl (e, refl))
Result-cases panic = inr (inr refl)

-- The two types of conditions are different.
available_is_not_applied : (dex_server_deployment_available == dex_server_condition_applied) ≡ false
unfolding lit str_eq
available_is_not_applied = refl

-- The type, the status, the reason and the message of a condition.
abbrev pub Tells : Condition → Str → ConditionStatus → Str → Str → Type 0
Tells c type status reason message =
    (c.type ≡ type) × (c.status ≡ status) × (c.reason ≡ reason) × (c.message ≡ message)

-- The condition Available that the status of a deployment asks for.
abbrev pub TellsDeployment : Condition → Bool × Option GoError → Type 0
TellsDeployment c (true, _) =
    Tells c (lit "Available") condition_true (lit "Available")
      (lit "DexServer deployment is available")
TellsDeployment c (false, some e) =
    Tells c (lit "Available") condition_false (lit "NotAvailable")
      (lit "DexServer deployment is currently unavailable, " ++ e.message)
TellsDeployment c (false, none) =
    Tells c (lit "Available") condition_false (lit "NotAvailable")
      (lit "DexServer deployment is currently unavailable")

deployment_condition-told : (x : Bool × Option GoError) → TellsDeployment (deployment_condition x) x
unfolding deployment_condition lit
deployment_condition-told (true, _) = (refl, refl, refl, refl)
deployment_condition-told (false, some e) = (refl, refl, refl, refl)
deployment_condition-told (false, none) = (refl, refl, refl, refl)

module _ {S A B : Type 0} (m : Action S A) (s : S) where
  branch-panic :
      (f : A → Action S B) (h : GoError → Action S B) → (m s).0 ≡ panic → (branch m f h s).0 ≡ panic
  unfolding ◌>>=◌
  branch-panic f h panicked = ground arith

  bind-panic : (f : A → Action S B) → (m s).0 ≡ panic → ((m >>= f) s).0 ≡ panic
  unfolding ◌>>=◌
  bind-panic f panicked = ground arith

  bind-err : (f : A → Action S B) {e : GoError} → (m s).0 ≡ err e → (m >>= f) s ≡ (err e, (m s).1)
  unfolding ◌>>=◌
  bind-err f failed = ground arith

pure_after :
    {S : Type 0} (m : Action S (Unit {0})) (s : S) → (m s).0 ≡ ok tt → pure tt (m s).1 ≡ m s
unfolding ◌>>=◌
pure_after m s good = ap (λ r. (r, (m s).1)) (sym good)

module _ {S : Type 0} {w : World S} {view : S → View} (L : ApiServer w view)
    (E : ExternLaws w) where
  -- A stored condition is found.
  stored_condition :
      (m : DexServer) (c : Condition) (s : S) {n : DexServer}
      → (update_dex_server_status_conditions w m (c ∷ []) s).0 ≡ ok n
      → (server_key n ≡ server_key m)
        × (n.status.conditions ≡ w.set_status_condition m.status.conditions c)
        × ((view (update_dex_server_status_conditions w m (c ∷ []) s).1).dex_servers (server_key m)
            ≡ Option.map
                (λ (old : DexServer). record old { status = n.status })
                ((view s).dex_servers (server_key m)))
  unfolding update_dex_server_status_conditions merge_status_conditions
  stored_condition m c s {n} done =
      let sent : DexServer = record m {
        status = record m.status { conditions = w.set_status_condition m.status.conditions c };
      } in
      let (key, status) = L.update_status_answers sent n s done in
      let after =
        wrote view (w.update_dex_server_status sent) (put_server_status sent) s
          (L.update_status_writes sent) done in
      (
        key,
        ap (λ st. st.conditions) status,
        ap (λ (v : View). v.dex_servers (server_key m)) after ∙ rw (same_key_refl, status) refl,
      )

  -- What comes of a step whose call failed with `e` and left the world `s`. The condition Applied
  -- with the status False, the reason of the step and its text before the message of the error is
  -- sent: it is stored, and `e` is returned, or storing it fails, and that error is returned.
  abbrev pub Reported : DexServer → Str → Str → GoError → S → Result (Unit {0}) × S → Type 0
  Reported m reason text e s (r, s') =
      (c : Condition) × Tells c (lit "Applied") condition_false reason (text ++ e.message)
      × (((n : DexServer) × ((update_dex_server_status_conditions w m (c ∷ []) s).0 ≡ ok n)
            × (r ≡ err e)
            × ((view s').dex_servers (server_key m)
                ≡ Option.map (λ (old : DexServer). record old { status = n.status })
                    ((view s).dex_servers (server_key m)))
            × (find_condition (lit "Applied") n.status.conditions ≡ some c))
          ⊎ ((d : GoError) × ((update_dex_server_status_conditions w m (c ∷ []) s).0 ≡ err d)
              × (r ≡ err d)
              × (view s' ≡ view s))
          ⊎ (((update_dex_server_status_conditions w m (c ∷ []) s).0 ≡ panic) × (r ≡ panic)))

  unstored :
      (m : DexServer) (c : Condition) (s : S) {d : GoError}
      → (update_dex_server_status_conditions w m (c ∷ []) s).0 ≡ err d
      → view (update_dex_server_status_conditions w m (c ∷ []) s).1 ≡ view s
  unfolding update_dex_server_status_conditions
  unstored m c s failed = L.update_status_writes _ s ∙ rw failed refl

  reported :
      (m : DexServer) (reason text : Str) (e : GoError) (s : S)
      → Reported m reason text e s (
          (update_dex_server_status_conditions w m (failed_condition reason text e ∷ []) >>= λ _.
          raise {A = Unit {0}} e)
            s)
  unfolding ◌>>=◌
  reported m reason text e s =
      let c = failed_condition reason text e in
      let store = update_dex_server_status_conditions w m (c ∷ []) in
      let told : Tells c (lit "Applied") condition_false reason (text ++ e.message) =
        (refl, refl, refl, refl) in
      elim (Result-cases (store s).0) [
        | inl (n, stored) ↦
            let (key, conditions, after) = stored_condition m c s stored in
            let same = bind-ok {B = Unit {0}} store (λ _. raise e) s stored in
            (
              c,
              told,
              inl (
                n,
                stored,
                ap (λ x. x.0) same,
                ap (λ x. (view x.1).dex_servers (server_key m)) same ∙ after,
                rw conditions (E.find-set _ c _ ∙ ground arith),
              ),
            )
        | inr (inl (d, failed)) ↦
            let same = bind-err {B = Unit {0}} store s (λ _. raise e) failed in
            (
              c,
              told,
              inr (
                  inl (
                    d,
                    failed,
                    ap (λ x. x.0) same,
                    ap (λ x. view x.1) same ∙ unstored m c s failed,
                  )),
            )
        | inr (inr panicked) ↦ (
          c,
          told,
          inr (inr (panicked, bind-panic {B = Unit {0}} store s (λ _. raise e) panicked)),
        )
      ]

  -- A step whose call succeeds is the call. A step whose call fails returns the error of the call
  -- and leaves the condition Applied with status False, the reason of the step, and the text of the
  -- step before the message of the error, if that condition can be stored; if it cannot, it returns
  -- the error of storing it. A step panics where one of the two calls does.
  pub reconcile_step-reports :
      (m : DexServer) (reason text : Str) (sync : DexServer → Action S (Unit {0})) (s : S)
      → (((sync m s).0 ≡ ok tt) × (reconcile_step w m reason text sync s ≡ sync m s))
        ⊎ ((e : GoError) × ((sync m s).0 ≡ err e)
            × Reported m reason text e (sync m s).1 (reconcile_step w m reason text sync s))
        ⊎ (((sync m s).0 ≡ panic) × ((reconcile_step w m reason text sync s).0 ≡ panic))
  unfolding reconcile_step
  reconcile_step-reports m reason text sync s =
      let report : GoError → Action S (Unit {0}) = λ d.
        update_dex_server_status_conditions w m (failed_condition reason text d ∷ []) >>= λ _.
        raise d in
      elim (Result-cases (sync m s).0) [
        | inl (u, good) ↦
            inl (good, branch-ok (sync m) pure report s good ∙ pure_after (sync m) s good)
        | inr (inl (e, failed)) ↦ inr (
            inl (
              e,
              failed,
              subst (Reported m reason text e (sync m s).1)
                  (sym (branch-err (sync m) pure report s failed))
                  (reported m reason text e (sync m s).1),
            ))
        | inr (inr panicked) ↦ inr (inr (panicked, branch-panic (sync m) s pure report panicked))
      ]

  deployment_condition-type :
      (x : Bool × Option GoError) → (deployment_condition x).type ≡ dex_server_deployment_available
  unfolding deployment_condition
  deployment_condition-type (true, _) = refl
  deployment_condition-type (false, some e) = refl
  deployment_condition-type (false, none) = refl

  condition_read :
      (m : DexServer) (s : S) {c : Condition}
      → (get_dex_server_deployment_condition w m s).0 ≡ ok c
      → (d : Deployment) × ((w.get_deployment (server_key m) s).0 ≡ ok d)
        × (c ≡ deployment_condition (w.get_deployment_status d))
        × (view (get_dex_server_deployment_condition w m s).1 ≡ view s)
  unfolding get_dex_server_deployment_condition ◌>>=◌
  condition_read m s done =
      let (d, got, same, last) = bind-eq-ok (w.get_deployment (server_key m)) _ s done in
      (d, got, ground arith, rw same (L.get_deployment_reads (server_key m) s))

  result_of : {x r : ReconcileResult} → ok x ≡ ok r → r ≡ x
  result_of same = ground arith

  with_status : DexServer → DexServer → DexServer
  with_status n old = record old { status = n.status }

  -- When the end of a pass succeeds for a stored DexServer, the resource is requeued after an
  -- hour, and what is then stored has the condition Applied with the status True, and the condition
  -- Available with the status, the reason and the message that the deployment of the DexServer asks
  -- for, as it was read after the first of the two conditions was stored.
  pub report_applied-stores :
      (m old : DexServer) (s : S) {r : ReconcileResult}
      → (report_applied w m s).0 ≡ ok r
      → (view s).dex_servers (server_key m) ≡ some old
      → (r ≡ record { requeue = true; requeue_after = hour })
        × ((n : DexServer) × (d : Deployment) × (applied available : Condition) × ((view
                  (report_applied w m s).1).dex_servers
                (server_key m)
              ≡ some n)
            × (find_condition (lit "Applied") n.status.conditions ≡ some applied)
            × Tells applied
                (lit "Applied")
                condition_true
                (lit "Applied")
                (lit "DexServer is applied")
            × ((w.get_deployment
                  (server_key m)
                  (update_dex_server_status_conditions w m (applied ∷ []) s).1).0
                ≡ ok d)
            × (find_condition (lit "Available") n.status.conditions ≡ some available)
            × TellsDeployment available (w.get_deployment_status d))
  unfolding report_applied with_status
  report_applied-stores m old s done there =
      let (a, stored, same, rest) =
        bind-eq-ok (update_dex_server_status_conditions w m (applied_condition ∷ [])) _ s done in
      let (key, conditions, after) = stored_condition m applied_condition s stored in
      let (c, read, same', rest') = bind-eq-ok (get_dex_server_deployment_condition w a) _ _ rest in
      let (d, got, is_c, kept) = condition_read a _ read in
      let (n, stored', same₂) =
        returning-eq-ok (update_dex_server_status_conditions w a (c ∷ []))
          (record { requeue = true; requeue_after = hour }) _ rest' in
      let (key', conditions', after') = stored_condition a c _ stored' in
      let type : c.type ≡ dex_server_deployment_available =
        ap (λ x. x.type) is_c ∙ deployment_condition-type _ in
      (
        result_of (rw (same, same', same₂) at done),
        (
          record old { status = n.status },
          d,
          applied_condition,
          c,
          rw (same, same', same₂)
              ((rw key at after')
                ∙ ap (λ (v : View). Option.map (with_status n) (v.dex_servers (server_key m))) kept
                ∙ ap (Option.map (with_status n)) (after ∙ ap (Option.map (with_status a)) there)),
          rw conditions' (
              E.find-set a.status.conditions c _
              ∙ rw (type, available_is_not_applied)
                  (rw conditions (E.find-set _ applied_condition _ ∙ ground arith))),
          (refl, refl, refl, refl),
          rw key at got,
          rw conditions' (E.find-set a.status.conditions c _ ∙ rw type (ground arith)),
          subst (λ x. TellsDeployment x (w.get_deployment_status d)) (sym is_c)
              (deployment_condition-told (w.get_deployment_status d)),
        ),
      )
