-- ===== src/World/Facts.antt =====
-- What the laws of `ApiServer` say of a single successful call.
use dex_operator.Common.{
  ◌∙◌, subst, ◌returning◌, returning-eq-ok, [], ◌∷◌, ◌≡◌, ap, true, Option, some, ok, Str, Action,
  arith, if◌then◌else◌,
}
use dex_operator.Api.{Key, Secret, DexServer}
use dex_operator.World.Templates.{Values, ApplyMode}
use dex_operator.World.Packages.{World}
use dex_operator.World.Spec.{
  View, secret_content, secret_key, same_key, put_secret, put_applied, Writes, ApiServer,
}

pub same_key_refl : (k : Key) → same_key k k ≡ true
unfolding same_key
same_key_refl k = ground arith

pub same_key-eq-true : (j k : Key) → same_key j k ≡ true → j ≡ k
unfolding same_key
same_key-eq-true j k h = ground arith

module _ {S : Type 0} (view : S → View) where
  -- A write that succeeded stored its object.
  pub wrote :
      {A : Type 0} (m : Action S A) (f : View → View) (s : S) {a : A}
      → Writes view m f
      → (m s).0 ≡ ok a
      → view (m s).1 ≡ f (view s)
  wrote m f s law done = rw done at (law s)

module _ {S : Type 0} {w : World S} {view : S → View} (L : ApiServer w view) where
  pub get_secret_found :
      (k : Key) (s : S) {x : Secret}
      → (w.get_secret k s).0 ≡ ok x
      → (secret_key x ≡ k) × ((view s).secrets k ≡ some (secret_content x))
  get_secret_found k s done = rw done at (L.get_secret_finds k s)

  pub secrets_after_create :
      (x : Secret) (k : Key) (s : S) {u : Unit {0}}
      → (w.create_secret x s).0 ≡ ok u
      → (view (w.create_secret x s).1).secrets k
        ≡ (if same_key k (secret_key x) then some (secret_content x) else (view s).secrets k)
  secrets_after_create x k s done =
      ap (λ (v : View). v.secrets k)
        (wrote view (w.create_secret x) (put_secret x) s (L.create_secret_writes x) done)

  pub secrets_after_update :
      (x : Secret) (k : Key) (s : S) {y : Secret}
      → (w.update_secret x s).0 ≡ ok y
      → (view (w.update_secret x s).1).secrets k
        ≡ (if same_key k (secret_key x) then some (secret_content x) else (view s).secrets k)
  secrets_after_update x k s done =
      ap (λ (v : View). v.secrets k)
        (wrote view (w.update_secret x) (put_secret x) s (L.update_secret_writes x) done)

  pub applied_after_apply :
      (mode : ApplyMode) (owner : Option DexServer) (values : Values) (file : Str) (s : S)
      {u : Unit {0}}
      → (w.apply mode owner values (file ∷ []) s).0 ≡ ok u
      → view (w.apply mode owner values (file ∷ []) s).1 ≡ put_applied file values (view s)
  applied_after_apply mode owner values file s done =
      wrote view (w.apply mode owner values (file ∷ [])) (put_applied file values) s
        (L.apply_writes mode owner values file) done

  -- An update or a creation that succeeded stored the secret under its key.
  pub stored_by_update :
      (old : Secret) (k : Key) (s : S)
      → secret_key old ≡ k
      → ((w.update_secret old returning tt) s).0 ≡ ok tt
      → (view ((w.update_secret old returning tt) s).1).secrets k ≡ some (secret_content old)
  stored_by_update old k s at_key done =
      let (y, updated, same) = returning-eq-ok (w.update_secret old) tt s done in
      rw same (
        subst (λ j. (view (w.update_secret old s).1).secrets j ≡ some (secret_content old)) at_key
          (secrets_after_update old (secret_key old) s updated ∙ rw same_key_refl))

  pub stored_by_create :
      (x : Secret) (k : Key) (s : S)
      → secret_key x ≡ k
      → (w.create_secret x s).0 ≡ ok tt
      → (view (w.create_secret x s).1).secrets k ≡ some (secret_content x)
  stored_by_create x k s at_key done =
      subst (λ j. (view (w.create_secret x s).1).secrets j ≡ some (secret_content x)) at_key
        (secrets_after_create x (secret_key x) s done ∙ rw same_key_refl)
