-- ===== src/Server/ConfigMap/Frames.antt =====
-- What `syncConfigMap` leaves alone.
use dex_operator.Common.{
  ◌≡◌, List, [], ◌∷◌, Keeps, Keeps-bind, Keeps-option, Keeps-pure, keeps_rules,
}
use dex_operator.Api.{
  Secret, DexServer, ConnectorSpec, ConnectorType, github, ldap, microsoft, oidc, other,
}
use dex_operator.World.{World, View, Values, ApiServer, put_secret, put_applied}
use dex_operator.World.Frames.{part, get_secret-Keeps, apply-Keeps}
use dex_operator.Secrets.Frames.{copy_secret-Keeps}
use dex_operator.Server.ConfigMap.{
  config_map_file, ldap_paths, connector_config, connectors_config, sync_config_map,
}

module _ {S X : Type 0} {w : World S} {view : S → View} (L : ApiServer w view) (p : View → X)
    (same : (x : Secret) (v : View) → p (put_secret x v) ≡ p v) where
  ldap_paths-Keeps : (m : DexServer) (c : ConnectorSpec) → Keeps (part view p) (ldap_paths w m c)
  unfolding ldap_paths
  ldap_paths-Keeps m c = search (keeps_rules, get_secret-Keeps L p, copy_secret-Keeps L p same)

  by_type-Keeps :
      (m : DexServer) (c : ConnectorSpec) (t : ConnectorType)
      → Keeps (part view p) (connector_config w m (record c { type = t }))
  unfolding connector_config
  by_type-Keeps m c github = search (keeps_rules, copy_secret-Keeps L p same)
  by_type-Keeps m c ldap = search (keeps_rules, copy_secret-Keeps L p same, ldap_paths-Keeps)
  by_type-Keeps m c microsoft = search (keeps_rules, copy_secret-Keeps L p same)
  by_type-Keeps m c oidc = search (keeps_rules, copy_secret-Keeps L p same)
  by_type-Keeps m c (other _) = search keeps_rules

  connectors-Keeps :
      (m : DexServer) (cs : List ConnectorSpec) → Keeps (part view p) (connectors_config w m cs)
  unfolding connectors_config
  connectors-Keeps m [] = search keeps_rules
  connectors-Keeps m (c ∷ cs) = Keeps-bind _ _ (by_type-Keeps m c c.type) λ found.
      Keeps-option found _ _ (Keeps-pure _) λ d. search (keeps_rules, connectors-Keeps m cs)

  pub sync_config_map-Keeps :
      (m : DexServer)
      → ((values : Values) (v : View) → p (put_applied config_map_file values v) ≡ p v)
      → Keeps (part view p) (sync_config_map w m)
  unfolding sync_config_map
  sync_config_map-Keeps m free = Keeps-bind _ _ (connectors-Keeps m m.spec.connectors) λ found.
      Keeps-option found _ _ (Keeps-pure _)
        λ ds. Keeps-bind _ _ (search keeps_rules) λ yaml. apply-Keeps L p _ _ _ _ (free _)
