-- ===== src/Client/Outcomes.antt =====
-- What becomes of errors of the three operations on the client of dex, and what the check of the
-- secret answers.
use dex_operator.Common.{
  ◌≡◌, ◌≢◌, ◌↔◌, refl, ◌∙◌, Bool, true, false, Option, none, some, Str, Result, ok, err, panic,
  GoError, Action, branch, pure, raise, ignore, ◌>>=◌, lookup, ◌==◌, str_eq, if◌then◌else◌, arith,
  bind-eq-ok, pure-eq-ok, Bool-cases, branch-ok, ap, sym, inl, inr,
}
use dex_operator.Api.{DexClient}
use dex_operator.World.{World, Connection}
use dex_operator.Server.Reconcile.{ReconcileResult, done}
use dex_operator.Client.Credential.{
  SecretCheck, dex_client_secret_hash_annotation, store_hash, get_hash_for_a_secret,
  has_client_secret_been_updated,
}
use dex_operator.Client.Reconcile.{sync_oauth2_client}

-- The call returns no error: it gives a value, or panics.
record Silent {S A : Type 0} (m : Action S A) : Type 0 where
  never : (s : S) (e : GoError) → (m s).0 ≢ err e

module _ {S A : Type 0} where
  Silent-pure : (a : A) → Silent (pure {S = S} a)
  unfolding ◌>>=◌
  Silent-pure a = record { never = λ s e bad. ground arith }

  Silent-ignore : (m : Action S A) → Silent (ignore m)
  unfolding ignore
  Silent-ignore m = record { never = λ s e bad. ground arith }

  Silent-if : (b : Bool) (m n : Action S A) → Silent m → Silent n → Silent (if b then m else n)
  Silent-if true m n hm hn = hm
  Silent-if false m n hm hn = hn

module _ {S A B : Type 0} where
  Silent-branch :
      (m : Action S A) (f : A → Action S B) (h : GoError → Action S B)
      → ((a : A) → Silent (f a))
      → ((e : GoError) → Silent (h e))
      → Silent (branch m f h)
  unfolding ◌>>=◌
  Silent-branch m f h hf hh = record { never = λ s. split (m s).0 (m s).1 }
    where
      split : (r : Result A) (s : S) (e : GoError) → (branch (λ (t : S). (r, s)) f h s).0 ≢ err e
      split (ok a) s e = (hf a).never s e
      split (err d) s e = (hh d).never s e
      split panic s e = λ bad. ground arith

  Silent-bind :
      (m : Action S A) (f : A → Action S B) → Silent m → ((a : A) → Silent (f a)) → Silent (m >>= f)
  unfolding ◌>>=◌
  Silent-bind m f hm hf = record { never = λ s. split (m s).0 (m s).1 (hm.never s) }
    where
      split :
          (r : Result A) (s : S)
          → ((e : GoError) → r ≢ err e)
          → (e : GoError) → (branch (λ (t : S). (r, s)) f raise s).0 ≢ err e
      split (ok a) s fine e = (hf a).never s e
      split (err d) s fine e = absurd (fine d refl)
      split panic s fine e = λ bad. ground arith

ruleset silent_rules = (Silent-pure, Silent-ignore, Silent-if, Silent-branch, Silent-bind)

module _ {S : Type 0} (w : World S) where
  store_hash-Silent : (m : DexClient) (hash : Str) (b : Bool) → Silent (store_hash w m hash b)
  unfolding store_hash
  store_hash-Silent m hash b = search silent_rules

  check-Silent : (m : DexClient) → Silent (has_client_secret_been_updated w m)
  unfolding has_client_secret_been_updated
  check-Silent m =
      Silent-branch _ _ _
        (λ hash. answered hash (lookup dex_client_secret_hash_annotation m.annotations))
        (λ e. search silent_rules)
    where
      answered :
          (hash : Str) (found : Option Str)
          → Silent {S = S} (elim found [
            | none ↦ store_hash w m hash false
            | some old ↦
                if old == hash
                then pure (record { client = m; updated = false; error = none })
                else store_hash w m hash true
          ])
      answered hash none = store_hash-Silent m hash false
      answered hash (some old) = search (silent_rules, store_hash-Silent)

  sync-Silent : (c : Connection) (m : DexClient) → Silent (sync_oauth2_client w c m)
  unfolding sync_oauth2_client
  sync-Silent c m = Silent-bind _ _ (check-Silent m) (λ check. search silent_rules)

  -- The last part of a pass over a DexClient returns no error, whatever the calls of dex and of
  -- the API server in it return, and asks for no requeue.
  pub sync_oauth2_client-never_fails :
      (c : Connection) (m : DexClient) (s : S)
      → ((e : GoError) → (sync_oauth2_client w c m s).0 ≢ err e)
        × ((r : ReconcileResult) → (sync_oauth2_client w c m s).0 ≡ ok r → r ≡ done)
  unfolding sync_oauth2_client
  sync_oauth2_client-never_fails c m s = (
    λ e. (sync-Silent c m).never s e,
    λ r good.
        let (check, checked, same, rest) =
          bind-eq-ok (has_client_secret_been_updated w m) _ s good in
        let (u, synced, same', last) = bind-eq-ok _ (λ (u : Unit {0}). pure done) _ rest in
        pure-eq-ok done r _ last,
  )

  store_hash-updated :
      (m : DexClient) (hash : Str) (b : Bool) (s : S) {check : SecretCheck}
      → (store_hash w m hash b s).0 ≡ ok check
      → check.updated ≡ b
  unfolding store_hash ◌>>=◌
  store_hash-updated m hash b s answered = ground arith

  -- What the check does with the checksum that the annotation has.
  abbrev by_annotation : DexClient → Str → Option Str → Action S SecretCheck
  by_annotation m hash none = store_hash w m hash false
  by_annotation m hash (some old) =
      if old == hash
      then pure (record { client = m; updated = false; error = none })
      else store_hash w m hash true

  updated_iff :
      (m : DexClient) (hash : Str) (found : Option Str) (s : S) {check : SecretCheck}
      → (by_annotation m hash found s).0 ≡ ok check
      → (check.updated ≡ true) ↔ ((old : Str) × (found ≡ some old) × (old ≢ hash))
  unfolding ◌>>=◌
  updated_iff m hash none s {check} answered =
      let is_false : check.updated ≡ false = store_hash-updated m hash false s answered in
      (λ h. absurd (ground arith), λ (old, bad, _). absurd (ground arith))
  updated_iff m hash (some old) s {check} answered = elim (Bool-cases (old == hash)) [
    | inl same ↦
        let is_false : check.updated ≡ false = ground arith in
        (λ h. absurd (ground arith), λ (o, is_o, other). absurd (ground arith))
    | inr other ↦
        let is_true : check.updated ≡ true =
          store_hash-updated m hash true s (rw other at answered) in
        (λ h. (old, refl, λ same. ground arith), λ h. is_true)
  ]

  -- When the checksum of the secret is read and the check answers, it answers that the secret
  -- has changed exactly when the DexClient carries a checksum and it is another one.
  pub has_client_secret_been_updated-answers :
      (m : DexClient) (s : S) {hash : Str} {check : SecretCheck}
      → (get_hash_for_a_secret w m s).0 ≡ ok hash
      → (has_client_secret_been_updated w m s).0 ≡ ok check
      → (check.updated ≡ true) ↔ (
          (old : Str) × (lookup dex_client_secret_hash_annotation m.annotations ≡ some old)
          × (old ≢ hash))
  unfolding has_client_secret_been_updated
  has_client_secret_been_updated-answers m s read answered =
      updated_iff m _ (lookup dex_client_secret_hash_annotation m.annotations) _
        (ap (λ r. r.0) (sym (branch-ok (get_hash_for_a_secret w m) _ _ s read)) ∙ answered)
