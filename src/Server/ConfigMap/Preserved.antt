-- ===== src/Server/ConfigMap/Preserved.antt =====
-- `syncConfigMap` keeps every stable property of what is stored.
use dex_operator.Common.{
  List, [], ◌∷◌, Preserves, Preserves-bind, Preserves-option, Preserves-pure, preserves_rules,
}
use dex_operator.Api.{DexServer, ConnectorSpec, ConnectorType, github, ldap, microsoft, oidc, other}
use dex_operator.World.{World, View, ApiServer}
use dex_operator.World.Stable.{ServerStable, Seen, get_secret-Preserves, apply-Preserves}
use dex_operator.Secrets.Preserved.{copy_secret-Preserves}
use dex_operator.Server.ConfigMap.{ldap_paths, connector_config, connectors_config, sync_config_map}

module _ {S : Type 0} {w : World S} {view : S → View} (L : ApiServer w view) {P : View → Type 0}
    (C : ServerStable P) where
  pub ldap_paths-Preserves :
      (m : DexServer) (c : ConnectorSpec) → Preserves (Seen view P) (ldap_paths w m c)
  unfolding ldap_paths
  ldap_paths-Preserves m c =
      search (preserves_rules, get_secret-Preserves L C.secret, copy_secret-Preserves L C.secret)

  by_type-Preserves :
      (m : DexServer) (c : ConnectorSpec) (t : ConnectorType)
      → Preserves (Seen view P) (connector_config w m (record c { type = t }))
  unfolding connector_config
  by_type-Preserves m c github = search (preserves_rules, copy_secret-Preserves L C.secret)
  by_type-Preserves m c ldap =
      search (preserves_rules, copy_secret-Preserves L C.secret, ldap_paths-Preserves)
  by_type-Preserves m c microsoft = search (preserves_rules, copy_secret-Preserves L C.secret)
  by_type-Preserves m c oidc = search (preserves_rules, copy_secret-Preserves L C.secret)
  by_type-Preserves m c (other _) = search preserves_rules

  pub connectors-Preserves :
      (m : DexServer) (cs : List ConnectorSpec) → Preserves (Seen view P) (connectors_config w m cs)
  unfolding connectors_config
  connectors-Preserves m [] = search preserves_rules
  connectors-Preserves m (c ∷ cs) = Preserves-bind _ _ (by_type-Preserves m c c.type) λ found.
      Preserves-option found _ _ (Preserves-pure _)
        λ d. search (preserves_rules, connectors-Preserves m cs)

  pub sync_config_map-Preserves : (m : DexServer) → Preserves (Seen view P) (sync_config_map w m)
  unfolding sync_config_map
  sync_config_map-Preserves m =
      Preserves-bind _ _ (connectors-Preserves m m.spec.connectors) λ found.
        Preserves-option found _ _ (Preserves-pure _)
          λ ds. search (preserves_rules, apply-Preserves L C)
