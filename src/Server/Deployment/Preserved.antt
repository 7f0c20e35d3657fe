-- ===== src/Server/Deployment/Preserved.antt =====
-- `syncDeployment` keeps every stable property of what is stored.
use dex_operator.Common.{
  List, [], ◌∷◌, Str, Preserves, Preserves-bind, Preserves-option, Preserves-pure, preserves_rules,
}
use dex_operator.Api.{DexServer, ConnectorSpec, ConnectorType, github, ldap, microsoft, oidc, other}
use dex_operator.World.{World, View, ApiServer}
use dex_operator.World.Stable.{
  ServerStable, Seen, get_secret-Preserves, get_config_map-Preserves, apply-Preserves,
}
use dex_operator.Secrets.{get_connector_secret_from_ref}
use dex_operator.Secrets.Preserved.{read_credential-Preserves}
use dex_operator.Server.Mtls.{get_mtls_secret}
use dex_operator.Server.Deployment.{
  Extras, no_extras, add_credential, add_root_ca, visit_connector, visit_connectors,
  get_environment_variable_for_secret, apply_deployment, dex_config_map_hash, mtls_secret_expiry,
  sync_deployment,
}

module _ {S : Type 0} {w : World S} {view : S → View} (L : ApiServer w view) {P : View → Type 0}
    (C : ServerStable P) where
  credential-Preserves :
      (m : DexServer) (c : ConnectorSpec) (t : ConnectorType)
      → Preserves (Seen view P) (get_connector_secret_from_ref w (record c { type = t }) m)
  unfolding get_connector_secret_from_ref
  credential-Preserves m c github = search (read_credential-Preserves L C.secret)
  credential-Preserves m c ldap = search (read_credential-Preserves L C.secret)
  credential-Preserves m c microsoft = search (read_credential-Preserves L C.secret)
  credential-Preserves m c oidc = search (read_credential-Preserves L C.secret)
  credential-Preserves m c (other _) = search preserves_rules

  variable-Preserves :
      (m : DexServer) (name : Str) (c : ConnectorSpec)
      → Preserves (Seen view P) (get_environment_variable_for_secret w m name c)
  unfolding get_environment_variable_for_secret
  variable-Preserves m name c = search (preserves_rules, get_secret-Preserves L C.secret)

  add_credential-Preserves :
      (m : DexServer) (name : Str) (c : ConnectorSpec) (acc : Extras)
      → Preserves (Seen view P) (add_credential w m name c acc)
  unfolding add_credential
  add_credential-Preserves m name c acc =
      Preserves-bind _ _ (variable-Preserves m name c)
        λ v. Preserves-bind _ _ (credential-Preserves m c c.type) λ t. search preserves_rules

  pub add_root_ca-Preserves :
      (m : DexServer) (c : ConnectorSpec) (acc : Extras)
      → Preserves (Seen view P) (add_root_ca w m c acc)
  unfolding add_root_ca
  add_root_ca-Preserves m c acc = search (preserves_rules, get_secret-Preserves L C.secret)

  pub visit-Preserves :
      (m : DexServer) (c : ConnectorSpec) (acc : Extras) (t : ConnectorType)
      → Preserves (Seen view P) (visit_connector w m (record c { type = t }) acc)
  unfolding visit_connector
  visit-Preserves m c acc github = search (preserves_rules, add_credential-Preserves)
  visit-Preserves m c acc ldap =
      search (preserves_rules, add_root_ca-Preserves, add_credential-Preserves)
  visit-Preserves m c acc microsoft = search (preserves_rules, add_credential-Preserves)
  visit-Preserves m c acc oidc = search (preserves_rules, add_credential-Preserves)
  visit-Preserves m c acc (other _) = search preserves_rules

  visits-Preserves :
      (m : DexServer) (cs : List ConnectorSpec) (acc : Extras)
      → Preserves (Seen view P) (visit_connectors w m cs acc)
  unfolding visit_connectors
  visits-Preserves m [] acc = search preserves_rules
  visits-Preserves m (c ∷ cs) acc =
      Preserves-bind _ _ (visit-Preserves m c acc c.type)
        λ found. Preserves-option found _ _ (Preserves-pure _) λ acc'. visits-Preserves m cs acc'

  config_hash-Preserves : (m : DexServer) → Preserves (Seen view P) (dex_config_map_hash w m)
  unfolding dex_config_map_hash
  config_hash-Preserves m = search (preserves_rules, get_config_map-Preserves L C)

  expiry-Preserves : (m : DexServer) → Preserves (Seen view P) (mtls_secret_expiry w m)
  unfolding mtls_secret_expiry get_mtls_secret
  expiry-Preserves m = search (preserves_rules, get_secret-Preserves L C.secret)

  finish-Preserves :
      (m : DexServer) (image : Str) (x : Extras)
      → Preserves (Seen view P) (apply_deployment w m image x)
  unfolding apply_deployment
  finish-Preserves m image x =
      search (preserves_rules, config_hash-Preserves, expiry-Preserves, apply-Preserves L C)

  pub deployment-Preserves : (m : DexServer) → Preserves (Seen view P) (sync_deployment w m)
  unfolding sync_deployment
  deployment-Preserves m = Preserves-bind _ _ (search preserves_rules) λ image.
      Preserves-bind _ _ (visits-Preserves m m.spec.connectors no_extras)
        λ found. Preserves-option found _ _ (search preserves_rules) λ x. finish-Preserves m image x
