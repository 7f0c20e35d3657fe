-- ===== src/Secrets/Frames.antt =====
-- The work on secrets leaves alone every part of the view that a stored secret does not change.
use dex_operator.Common.{◌≡◌, Str, Keeps, Keeps-bind, keeps_rules}
use dex_operator.Api.{Secret, SecretReference, DexServer}
use dex_operator.World.{World, View, put_secret, ApiServer}
use dex_operator.World.Frames.{part, get_secret-Keeps, create_secret-Keeps, update_secret-Keeps}
use dex_operator.Secrets.{
  add_label, check_and_add_label_to_secret, read_credential, write_copy,
  copy_secret_to_dex_server_namespace,
}

module _ {S X : Type 0} {w : World S} {view : S → View} (L : ApiServer w view) (p : View → X)
    (same : (x : Secret) (v : View) → p (put_secret x v) ≡ p v) where
  pub add_label-Keeps : (label : Str) (x : Secret) → Keeps (part view p) (add_label w label x)
  unfolding add_label
  add_label-Keeps label x = search (keeps_rules, update_secret-Keeps L p same)

  pub check_and_add_label-Keeps :
      (x : Secret) → Keeps (part view p) (check_and_add_label_to_secret w x)
  unfolding check_and_add_label_to_secret
  check_and_add_label-Keeps = add_label-Keeps _

  pub read_credential-Keeps :
      (ref : SecretReference) (key : Str) (m : DexServer)
      → Keeps (part view p) (read_credential w ref key m)
  unfolding read_credential
  read_credential-Keeps ref key m =
      Keeps-bind _ _ (search (keeps_rules, get_secret-Keeps L p))
        (λ x. search (keeps_rules, check_and_add_label-Keeps))

  pub write_copy-Keeps : (m : DexServer) (x : Secret) → Keeps (part view p) (write_copy w m x)
  unfolding write_copy
  write_copy-Keeps m x = search (
    keeps_rules,
    get_secret-Keeps L p,
    update_secret-Keeps L p same,
    create_secret-Keeps L p same,
  )

  pub copy_secret-Keeps :
      (m : DexServer) (ref : SecretReference)
      → Keeps (part view p) (copy_secret_to_dex_server_namespace w m ref)
  unfolding copy_secret_to_dex_server_namespace
  copy_secret-Keeps m ref =
      search (keeps_rules, get_secret-Keeps L p, check_and_add_label-Keeps, write_copy-Keeps)
