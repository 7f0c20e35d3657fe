-- ===== src/Secrets/Copies.antt =====
-- What a copied secret holds, and which secrets a copy leaves alone.
use dex_operator.Common.{
  [], ◌≡◌, refl, ◌∙◌, ap, some, ok, inl, inr, Str, ◌>>=◌, branch-eq-ok, bind-eq-ok,
  unless_missing-eq-ok, arith, insert,
}
use dex_operator.Api.{Key, Secret, SecretReference, DexServer}
use dex_operator.World.{World, View, SecretContent, secret_content, secret_key, ApiServer}
use dex_operator.World.Facts.{stored_by_update, stored_by_create, get_secret_found}
use dex_operator.Connectors.{copied_secret_name}
use dex_operator.Secrets.{
  idp_credential_label, copy_key, new_copy, add_label, check_and_add_label_to_secret, write_copy,
  copy_secret_to_dex_server_namespace,
}

abbrev pub ref_key : SecretReference → Key
ref_key ref = record { namespace = ref.namespace; name = ref.name }

abbrev copied_at : DexServer → Key → Key
copied_at m k = record { namespace = m.namespace; name = copied_secret_name k.namespace k.name }

-- Where the copy of the secret of a reference stands.
abbrev pub copied_ref : DexServer → SecretReference → Key
copied_ref m ref = record {
  namespace = m.namespace;
  name = copied_secret_name ref.namespace ref.name;
}

module _ {S : Type 0} {w : World S} {view : S → View} (L : ApiServer w view) where
  -- The secret that comes back from the labelling is the one that was given, with its content.
  pub add_label_keeps_content :
      (label : Str) (x y : Secret) (s : S)
      → (add_label w label x s).0 ≡ ok y
      → (secret_key y ≡ secret_key x) × (y.content ≡ x.content)
  unfolding add_label ◌>>=◌
  add_label_keeps_content label x y s done =
      ground (arith, L.update_secret_answers (record x { labels = insert label [] x.labels }) y s)

  -- A copy that was written is stored under its key, with the content of the original.
  pub write_copy-stores :
      (m : DexServer) (x : Secret) (s : S)
      → (write_copy w m x s).0 ≡ ok tt
      → (d : SecretContent) × ((view (write_copy w m x s).1).secrets (copy_key m x) ≡ some d)
        × (d.content ≡ x.content)
  unfolding write_copy ◌>>=◌
  write_copy-stores m x s done = elim (branch-eq-ok (w.get_secret (copy_key m x)) _ _ s done) [
    | inl (old, found, same, good) ↦ (
      secret_content (record old { content = x.content }),
      rw same (
          stored_by_update L (record old { content = x.content }) (copy_key m x) _
            (get_secret_found L (copy_key m x) s found).0 good),
      refl,
    )
    | inr (e, failed, same, good) ↦
        let (_, created, stored) =
          unless_missing-eq-ok e _ (w.create_secret (new_copy m x)) _ good in
        (
          secret_content (new_copy m x),
          rw (same, created) (stored_by_create L (new_copy m x) (copy_key m x) _ refl stored),
          refl,
        )
  ]

  -- A copy that succeeded: the original is stored, and in the namespace of the dex server a
  -- secret is stored under the name of the copy, with the content of the original.
  pub copy_secret-stores :
      (m : DexServer) (ref : SecretReference) (s : S)
      → (copy_secret_to_dex_server_namespace w m ref s).0 ≡ ok tt
      → (c d : SecretContent) × ((view s).secrets (ref_key ref) ≡ some c)
        × ((view (copy_secret_to_dex_server_namespace w m ref s).1).secrets (copied_ref m ref)
            ≡ some d)
        × (d.content ≡ c.content)
  unfolding copy_secret_to_dex_server_namespace check_and_add_label_to_secret
  copy_secret-stores m ref s done =
      let (x, found, same, rest) = bind-eq-ok (w.get_secret (ref_key ref)) _ s done in
      let (y, labelled, same', written) =
        bind-eq-ok (add_label w idp_credential_label x) _ _ rest in
      let (at_key, stored) = get_secret_found L (ref_key ref) s found in
      let (kept_key, kept) = add_label_keeps_content idp_credential_label x y _ labelled in
      let (d, copied, content) = write_copy-stores m y _ written in
      let moved : copy_key m y ≡ copied_ref m ref = ap (copied_at m) (kept_key ∙ at_key) in
      (secret_content x, d, stored, rw (same, same', ← moved) copied, content ∙ kept)
