-- ===== src/Server/Deployment/Sure.antt =====
-- On a cluster where calls do not fail, `syncDeployment` succeeds as long as the secrets of the
-- connectors are stored.
use dex_operator.Common.{
  ◌≡◌, refl, ◌∙◌, ap, sym, subst, true, false, List, [], ◌∷◌, Str, none, ok, Action, GoError,
  branch, is_empty, inl, inr, branch-ok, branch-err, Sure, Sure-pure, Sure-if, Sure-bind,
  Sure-option, Sure-lift, Sure-Finishes,
}
use dex_operator.Api.{
  Key, ConfigMap, DexServer, ConnectorSpec, ConnectorType, github, ldap, microsoft, oidc, other,
}
use dex_operator.World.{World, View, ApiServer}
use dex_operator.World.Stable.{ServerStable, Seen, apply-Preserves}
use dex_operator.World.Reliable.{Reliable}
use dex_operator.Secrets.{get_connector_secret_from_ref}
use dex_operator.Secrets.Sure.{get_or_miss-Sure, read_credential-Sure}
use dex_operator.Secrets.Supply.{TypeSupplied, Supplied}
use dex_operator.Server.Deployment.{
  Extras, no_extras, dex_image_env_name, get_dex_image_pull_spec, add_credential, add_root_ca,
  visit_connector, visit_connectors, get_environment_variable_for_secret, apply_deployment,
  dex_config_map_hash, mtls_secret_expiry, sync_deployment,
}

module _ {S : Type 0} {w : World S} {view : S → View} (L : ApiServer w view) (R : Reliable w view)
    (P : View → Type 0) where
  -- A read of a configuration, whose miss is provided for.
  get_config_map-Sure :
      {B : Type 0} (k : Key) (f : ConfigMap → Action S B) (h : GoError → Action S B)
      → ((x : ConfigMap) → Sure (Seen view P) (f x))
      → ((e : GoError) → e.not_found ≡ true → Sure (Seen view P) (h e))
      → Sure (Seen view P) (branch (w.get_config_map k) f h)
  get_config_map-Sure k f h hf hh = record {
    ends = λ s p.
        let s₁ = (w.get_config_map k s).1 in
        let p₁ = subst P (sym (L.get_config_map_reads k s)) p in
        elim (R.get_config_map_answers k s) [
          | inl (x, found) ↦
              let (b, good, q) = (hf x).ends s₁ p₁ in
              let same = branch-ok (w.get_config_map k) f h s found in
              (b, ap (λ x. x.0) same ∙ good, subst (λ x. P (view x)) (sym (ap (λ x. x.1) same)) q)
          | inr (e, failed, missing) ↦
              let (b, good, q) = (hh e missing).ends s₁ p₁ in
              let same = branch-err (w.get_config_map k) f h s failed in
              (b, ap (λ x. x.0) same ∙ good, subst (λ x. P (view x)) (sym (ap (λ x. x.1) same)) q)
        ];
  }

  variable-Sure :
      (m : DexServer) (name : Str) (c : ConnectorSpec)
      → Sure (Seen view P) (get_environment_variable_for_secret w m name c)
  unfolding get_environment_variable_for_secret
  variable-Sure m name c =
      get_or_miss-Sure L R P _ _ _ (λ x. Sure-pure _) (λ e missing. rw missing (Sure-pure none))

  add_root_ca-Sure :
      (m : DexServer) (c : ConnectorSpec) (acc : Extras)
      → Sure (Seen view P) (add_root_ca w m c acc)
  unfolding add_root_ca
  add_root_ca-Sure m c acc = Sure-if _ _ _ (Sure-pure _) (
      get_or_miss-Sure L R P _ _ _
        (λ x. Sure-bind _ _ (Sure-lift _ (R.marshals_secret x)) λ json. Sure-pure _)
        (λ e missing. rw missing (Sure-pure acc)))

  config_hash-Sure : (m : DexServer) → Sure (Seen view P) (dex_config_map_hash w m)
  unfolding dex_config_map_hash
  config_hash-Sure m =
      get_config_map-Sure _ _ _
        (λ x. Sure-bind _ _ (Sure-lift _ (R.marshals_config_map x)) λ json. Sure-pure _)
        (λ e missing. rw missing (Sure-pure []))

  expiry-Sure : (m : DexServer) → Sure (Seen view P) (mtls_secret_expiry w m)
  unfolding mtls_secret_expiry
  expiry-Sure m =
      get_or_miss-Sure L R P _ _ _ (λ x. Sure-pure _) (λ e missing. rw missing (Sure-pure []))

module _ {S : Type 0} {w : World S} {view : S → View} (L : ApiServer w view) (R : Reliable w view)
    {P : View → Type 0} (C : ServerStable P) where
  add_credential-Sure :
      (m : DexServer) (name : Str) (c : ConnectorSpec) (acc : Extras)
      → Sure (Seen view P) (get_connector_secret_from_ref w c m)
      → Sure (Seen view P) (add_credential w m name c acc)
  unfolding add_credential
  add_credential-Sure m name c acc reads =
      Sure-bind _ _ (variable-Sure L R P m name c) λ found. Sure-bind _ _ reads λ t. Sure-pure _

  visit-Sure :
      (m : DexServer) (c : ConnectorSpec) (acc : Extras) (t : ConnectorType)
      → ((v : View) → P v → TypeSupplied m c t v)
      → Sure (Seen view P) (visit_connector w m (record c { type = t }) acc)
  unfolding visit_connector get_connector_secret_from_ref
  visit-Sure m c acc github supply =
      Sure-bind _ _
        (add_credential-Sure m _ _ acc
          (read_credential-Sure L R C.secret _ _ m (λ v p. (supply v p).1)))
        λ x. Sure-pure _
  visit-Sure m c acc microsoft supply =
      Sure-bind _ _
        (add_credential-Sure m _ _ acc
          (read_credential-Sure L R C.secret _ _ m (λ v p. (supply v p).1)))
        λ x. Sure-pure _
  visit-Sure m c acc oidc supply =
      Sure-bind _ _
        (add_credential-Sure m _ _ acc
          (read_credential-Sure L R C.secret _ _ m (λ v p. (supply v p).1)))
        λ x. Sure-pure _
  visit-Sure m c acc ldap supply = Sure-bind _ _ (add_root_ca-Sure L R P m _ acc) λ acc'.
      Sure-bind _ _
        (add_credential-Sure m _ _ acc'
          (read_credential-Sure L R C.secret _ _ m (λ v p. ((supply v p).0).1)))
        λ x. Sure-pure _
  visit-Sure m c acc (other _) supply = Sure-pure _

  visits-Sure :
      (m : DexServer) (cs : List ConnectorSpec) (acc : Extras)
      → ((v : View) → P v → Supplied m cs v)
      → Sure (Seen view P) (visit_connectors w m cs acc)
  unfolding visit_connectors Supplied
  visits-Sure m [] acc supply = Sure-pure _
  visits-Sure m (c ∷ cs) acc supply =
      Sure-bind _ _ (visit-Sure m c acc c.type (λ v p. (supply v p).0)) λ found.
        Sure-option found _ _ (Sure-pure _) λ acc'. visits-Sure m cs acc' (λ v p. (supply v p).1)

  finish-Sure :
      (m : DexServer) (image : Str) (x : Extras) → Sure (Seen view P) (apply_deployment w m image x)
  unfolding apply_deployment
  finish-Sure m image x = Sure-bind _ _ (config_hash-Sure L R P m) λ hash.
      Sure-bind _ _ (expiry-Sure L R P m)
        λ expiry. Sure-Finishes _ (R.apply_succeeds _ _ _ _) (apply-Preserves L C _ _ _ _)

  image_given :
      is_empty (w.getenv dex_image_env_name) ≡ false
      → (image : Str) × (get_dex_image_pull_spec w ≡ ok image)
  unfolding get_dex_image_pull_spec
  image_given there = (w.getenv dex_image_env_name, rw there refl)

  pub sync_deployment-Sure :
      (m : DexServer)
      → is_empty (w.getenv dex_image_env_name) ≡ false
      → ((v : View) → P v → Supplied m m.spec.connectors v)
      → Sure (Seen view P) (sync_deployment w m)
  unfolding sync_deployment
  sync_deployment-Sure m there supply = Sure-bind _ _ (Sure-lift _ (image_given there)) λ image.
      Sure-bind _ _ (visits-Sure m m.spec.connectors no_extras supply)
        λ found. Sure-option found _ _ (Sure-pure _) λ x. finish-Sure m image x
