-- ===== src/Secrets/Preserved.antt =====
-- The work on secrets keeps every stable property of what is stored.
use dex_operator.Common.{Str, Preserves, Preserves-bind, preserves_rules}
use dex_operator.Api.{Secret, SecretReference, DexServer}
use dex_operator.World.{World, View, ApiServer}
use dex_operator.World.Stable.{
  KeptBySecrets, Seen, create_secret-Preserves, update_secret-Preserves, get_secret-Preserves,
}
use dex_operator.Secrets.{
  add_label, check_and_add_label_to_secret, read_credential, write_copy,
  copy_secret_to_dex_server_namespace,
}

module _ {S : Type 0} {w : World S} {view : S → View} (L : ApiServer w view) {P : View → Type 0}
    (c : KeptBySecrets P) where
  pub add_label-Preserves :
      (label : Str) (x : Secret) → Preserves (Seen view P) (add_label w label x)
  unfolding add_label
  add_label-Preserves label x = search (preserves_rules, update_secret-Preserves L c)

  check-Preserves : (x : Secret) → Preserves (Seen view P) (check_and_add_label_to_secret w x)
  unfolding check_and_add_label_to_secret
  check-Preserves x = add_label-Preserves _ x

  pub read_credential-Preserves :
      (ref : SecretReference) (key : Str) (m : DexServer)
      → Preserves (Seen view P) (read_credential w ref key m)
  unfolding read_credential
  read_credential-Preserves ref key m =
      Preserves-bind _ _ (search (preserves_rules, get_secret-Preserves L c))
        (λ x. search (preserves_rules, check-Preserves))

  pub write_copy-Preserves :
      (m : DexServer) (x : Secret) → Preserves (Seen view P) (write_copy w m x)
  unfolding write_copy
  write_copy-Preserves m x = search (
    preserves_rules,
    get_secret-Preserves L c,
    update_secret-Preserves L c,
    create_secret-Preserves L c,
  )

  pub copy_secret-Preserves :
      (m : DexServer) (ref : SecretReference)
      → Preserves (Seen view P) (copy_secret_to_dex_server_namespace w m ref)
  unfolding copy_secret_to_dex_server_namespace
  copy_secret-Preserves m ref =
      search (preserves_rules, get_secret-Preserves L c, check-Preserves, write_copy-Preserves)
