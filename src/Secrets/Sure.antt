-- ===== src/Secrets/Sure.antt =====
-- On a cluster where calls do not fail, the work on secrets succeeds as long as the secrets that it
-- reads are stored.
use dex_operator.Common.{
  ◌≡◌, ◌∙◌, ap, sym, subst, true, Option-cases, inl, inr, Str, is_empty, Action, GoError, branch,
  if◌then◌else◌, branch-ok, branch-err, Sure, Sure-pure, Sure-bind, Sure-branch, Sure-does,
  does-Sure, Sure-if, none, ◌>>=◌, Does, Does-weaken, Does-branch, Does-bind, Does-pure, Does-given,
}
use dex_operator.Api.{Key, Secret, SecretReference, DexServer}
use dex_operator.World.{World, View, ApiServer, secret_key}
use dex_operator.World.Facts.{get_secret_found}
use dex_operator.World.Stable.{
  KeptBySecrets, Seen, create_secret-Preserves, update_secret-Preserves,
}
use dex_operator.World.Holds.{HasSecretAt}
use dex_operator.World.Reliable.{Reliable}
use dex_operator.Secrets.{
  copy_key, new_copy, add_label, check_and_add_label_to_secret, read_credential, write_copy,
  copy_secret_to_dex_server_namespace,
}
use dex_operator.Secrets.Copies.{copied_ref, ref_key, copy_secret-stores}

-- Where the credential of a reference is read.
abbrev pub read_key : DexServer → SecretReference → Key
read_key m ref = record {
  namespace = if is_empty ref.namespace then m.namespace else ref.namespace;
  name = ref.name;
}

module _ {S : Type 0} {w : World S} {view : S → View} (L : ApiServer w view) (R : Reliable w view)
    {P : View → Type 0} where
  -- The secret that is read is stored under its key.
  get_secret-Sees :
      (k : Key)
      → ((v : View) → P v → HasSecretAt k v)
      → Does (Seen view P) (w.get_secret k) (λ x s. (secret_key x ≡ k) × P (view s))
  get_secret-Sees k has = record {
    does = λ s p.
        let (c, stored) = has (view s) p in
        let (x, found) = R.get_secret_answers k c s stored in
        (x, found, ((get_secret_found L k s found).0, subst P (sym (L.get_secret_reads k s)) p));
  }

  pub get_secret-Sure :
      (k : Key) → ((v : View) → P v → HasSecretAt k v) → Sure (Seen view P) (w.get_secret k)
  get_secret-Sure k has =
      Sure-does _ (Does-weaken _ (get_secret-Sees k has) (λ s p. p) (λ x s (key, p). p))

  -- What is done with a secret that is read may use that it is stored.
  get_stored-Sure :
      {B : Type 0} (k : Key) (f : Secret → Action S B) (h : GoError → Action S B)
      → ((v : View) → P v → HasSecretAt k v)
      → ((x : Secret)
          → ((v : View) → P v → HasSecretAt (secret_key x) v)
          → Sure (Seen view P) (f x))
      → Sure (Seen view P) (branch (w.get_secret k) f h)
  get_stored-Sure k f h has hf = Sure-does _ (
      Does-branch _ _ _ (get_secret-Sees k has) λ x.
        Does-given _ (λ s (key, p). key)
          λ key.
            Does-weaken _
              (does-Sure _ (hf x (λ v p. subst (λ j. HasSecretAt j v) (sym key) (has v p))))
              (λ s (key, p). p) (λ b s p. p))

module _ {S : Type 0} {w : World S} {view : S → View} (L : ApiServer w view) (R : Reliable w view)
    (P : View → Type 0) where
  -- A read whose miss is provided for: what follows may use what the read showed.
  pub get_or_miss-Does :
      {B : Type 0} (k : Key) (f : Secret → Action S B) (h : GoError → Action S B)
      → ((x : Secret)
          → Does
              (Seen view (λ v. P v × HasSecretAt k v × (secret_key x ≡ k)))
              (f x)
              (λ b. Seen view P))
      → ((e : GoError)
          → e.not_found ≡ true
          → Does (Seen view (λ v. P v × (v.secrets k ≡ none))) (h e) (λ b. Seen view P))
      → Sure (Seen view P) (branch (w.get_secret k) f h)
  get_or_miss-Does k f h hf hh = record {
    ends = λ s p.
        let s₁ = (w.get_secret k s).1 in
        let same_view = sym (L.get_secret_reads k s) in
        let p₁ = subst P same_view p in
        elim (Option-cases ((view s).secrets k)) [
          | inl gone ↦
              let (e, failed, missing) = R.get_secret_misses k s gone in
              let gone₁ = subst (λ (v : View). v.secrets k ≡ none) same_view gone in
              let (b, good, q) = (hh e missing).does s₁ (p₁, gone₁) in
              let same = branch-err (w.get_secret k) f h s failed in
              (b, ap (λ x. x.0) same ∙ good, subst (λ x. P (view x)) (sym (ap (λ x. x.1) same)) q)
          | inr (c, stored) ↦
              let (x, found) = R.get_secret_answers k c s stored in
              let stored₁ = subst (HasSecretAt k) same_view (c, stored) in
              let key = (get_secret_found L k s found).0 in
              let (b, good, q) = (hf x).does s₁ (p₁, stored₁, key) in
              let same = branch-ok (w.get_secret k) f h s found in
              (b, ap (λ x. x.0) same ∙ good, subst (λ x. P (view x)) (sym (ap (λ x. x.1) same)) q)
        ];
  }

  pub get_or_miss-Sure :
      {B : Type 0} (k : Key) (f : Secret → Action S B) (h : GoError → Action S B)
      → ((x : Secret) → Sure (Seen view P) (f x))
      → ((e : GoError) → e.not_found ≡ true → Sure (Seen view P) (h e))
      → Sure (Seen view P) (branch (w.get_secret k) f h)
  get_or_miss-Sure k f h hf hh =
      get_or_miss-Does k f h
        (λ x. Does-weaken _ (does-Sure _ (hf x)) (λ s (p, stored, key). p) (λ b s p. p))
        (λ e missing. Does-weaken _ (does-Sure _ (hh e missing)) (λ s (p, rest). p) (λ b s p. p))

module _ {S : Type 0} {w : World S} {view : S → View} (L : ApiServer w view) (R : Reliable w view)
    {P : View → Type 0} (c : KeptBySecrets P) where
  pub update_secret-Stored :
      (x : Secret)
      → Does
          (Seen view (λ v. P v × HasSecretAt (secret_key x) v))
          (w.update_secret x)
          (λ y. Seen view P)
  update_secret-Stored x = record {
    does = λ s (p, (old, stored)).
        let (y, good) = R.update_secret_succeeds x old s stored in
        (y, good, (update_secret-Preserves L c x).after s p);
  }

  pub create_secret-Absent :
      (x : Secret)
      → Does
          (Seen view (λ v. P v × (v.secrets (secret_key x) ≡ none)))
          (w.create_secret x)
          (λ u. Seen view P)
  create_secret-Absent x = record {
    does = λ s (p, absent).
        let (u, good) = R.create_secret_succeeds x s absent in
        (u, good, (create_secret-Preserves L c x).after s p);
  }

  label-Sure :
      (x : Secret)
      → ((v : View) → P v → HasSecretAt (secret_key x) v)
      → Sure (Seen view P) (check_and_add_label_to_secret w x)
  unfolding check_and_add_label_to_secret add_label
  label-Sure x has = Sure-if _ _ _ (Sure-pure x) (
      Sure-branch _ _ _
        (Sure-does _
          (Does-weaken _ (update_secret-Stored _) (λ s p. (p, has (view s) p)) (λ y s p. p)))
        λ y. Sure-pure y)

  pub read_credential-Sure :
      (ref : SecretReference) (key : Str) (m : DexServer)
      → ((v : View) → P v → HasSecretAt (read_key m ref) v)
      → Sure (Seen view P) (read_credential w ref key m)
  unfolding read_credential
  read_credential-Sure ref key m has = Sure-does _ (
      Does-bind {R = λ x s. (secret_key x ≡ read_key m ref) × P (view s)} _ _
        (Does-branch _ _ _ (get_secret-Sees L R (read_key m ref) has) λ x. Does-pure x (λ s p. p))
        λ x.
          Does-given _ (λ s (same, p). same)
            λ same.
              Does-weaken _
                (does-Sure _ (
                  Sure-bind _ _
                    (label-Sure x (λ v p. subst (λ j. HasSecretAt j v) (sym same) (has v p)))
                    λ y. Sure-pure _))
                (λ s (same, p). p) (λ b s p. p))

  write_copy-Sure : (m : DexServer) (x : Secret) → Sure (Seen view P) (write_copy w m x)
  unfolding write_copy
  write_copy-Sure m x =
      get_or_miss-Does L R P (copy_key m x) _ _
        (λ old.
          Does-given _ (λ s (p, stored, same). same)
            λ same.
              Does-bind _ _
                (Does-weaken _ (update_secret-Stored (record old { content = x.content }))
                  (λ s (p, stored, key). (p, subst (λ j. HasSecretAt j (view s)) (sym same) stored))
                  (λ y s p. p))
                λ y. Does-pure tt (λ s p. p))
        (λ e missing. rw missing (create_secret-Absent (new_copy m x)))

  pub copy_secret-Sure :
      (m : DexServer) (ref : SecretReference)
      → ((v : View) → P v → HasSecretAt (ref_key ref) v)
      → Sure (Seen view P) (copy_secret_to_dex_server_namespace w m ref)
  unfolding copy_secret_to_dex_server_namespace ◌>>=◌
  copy_secret-Sure m ref has =
      get_stored-Sure L R (ref_key ref) _ _ has
        λ x there. Sure-branch _ _ _ (label-Sure x there) (write_copy-Sure m)

  -- And then the copy is stored.
  pub copy_secret-Does :
      (m : DexServer) (ref : SecretReference)
      → ((v : View) → P v → HasSecretAt (ref_key ref) v)
      → Does
          (Seen view P)
          (copy_secret_to_dex_server_namespace w m ref)
          (λ u s. P (view s) × HasSecretAt (copied_ref m ref) (view s))
  copy_secret-Does m ref has = record {
    does = λ s p.
        let (u, good, q) = (copy_secret-Sure m ref has).ends s p in
        let (c, d, original, stored, content) = copy_secret-stores L m ref s good in
        (u, good, (q, (d, stored)));
  }
