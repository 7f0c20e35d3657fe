-- ===== src/Server/ConfigMap/Sure.antt =====
-- On a cluster where calls do not fail, `syncConfigMap` succeeds as long as the secrets of the
-- connectors are stored.
use dex_operator.Common.{
  List, [], ◌∷◌, str_eq, Does-bind, Does-pure, Sure, Sure-does, does-Sure, Sure-pure, Sure-if,
  Sure-bind, Sure-option, Sure-lift, Sure-Finishes, Sure-test,
}
use dex_operator.Api.{DexServer, ConnectorSpec, ConnectorType, github, ldap, microsoft, oidc, other}
use dex_operator.World.{World, View, ApiServer}
use dex_operator.World.Stable.{ServerStable, Seen, apply-Preserves}
use dex_operator.World.Holds.{HasSecretAt}
use dex_operator.World.Reliable.{Reliable}
use dex_operator.Secrets.Copies.{copied_ref}
use dex_operator.Secrets.Sure.{get_secret-Sure, copy_secret-Sure, copy_secret-Does}
use dex_operator.Secrets.Supply.{TypeSupplied, Supplied}
use dex_operator.Server.ConfigMap.{ldap_paths, connector_config, connectors_config, sync_config_map}

module _ {S : Type 0} {w : World S} {view : S → View} (L : ApiServer w view) (R : Reliable w view)
    {P : View → Type 0} (C : ServerStable P) where
  ldap_paths-Sure :
      (m : DexServer) (c : ConnectorSpec)
      → ((v : View) → P v → TypeSupplied m c ldap v)
      → Sure (Seen view P) (ldap_paths w m c)
  unfolding ldap_paths
  ldap_paths-Sure m c supply =
      Sure-test _ _ _ (λ unnamed. Sure-pure _)
        (λ named. Sure-does _ (
          Does-bind _ _
            (copy_secret-Does L R C.secret m c.ldap.root_ca_ref (λ v p. (supply v p).1 named))
            λ u.
              Does-bind _ _
                (does-Sure _ (
                  get_secret-Sure L R
                    {P = λ v. P v × HasSecretAt (copied_ref m c.ldap.root_ca_ref) v}
                    (copied_ref m c.ldap.root_ca_ref) (λ v (p, copied). copied)))
                λ x. Does-pure _ (λ s (p, copied). p)))

  by_type-Sure :
      (m : DexServer) (c : ConnectorSpec) (t : ConnectorType)
      → ((v : View) → P v → TypeSupplied m c t v)
      → Sure (Seen view P) (connector_config w m (record c { type = t }))
  unfolding connector_config
  by_type-Sure m c github supply =
      Sure-bind _ _ (copy_secret-Sure L R C.secret m _ (λ v p. (supply v p).0)) λ u. Sure-pure _
  by_type-Sure m c microsoft supply =
      Sure-bind _ _ (copy_secret-Sure L R C.secret m _ (λ v p. (supply v p).0)) λ u. Sure-pure _
  by_type-Sure m c ldap supply =
      Sure-bind _ _ (copy_secret-Sure L R C.secret m _ (λ v p. ((supply v p).0).0)) λ u.
        Sure-bind _ _ (ldap_paths-Sure m (record c { type = ldap }) supply) λ paths. Sure-pure _
  by_type-Sure m c oidc supply =
      Sure-bind _ _
        (Sure-if _ _ _ (Sure-pure _) (copy_secret-Sure L R C.secret m _ (λ v p. (supply v p).0)))
        λ u. Sure-pure _
  by_type-Sure m c (other _) supply = Sure-pure _

  connectors-Sure :
      (m : DexServer) (cs : List ConnectorSpec)
      → ((v : View) → P v → Supplied m cs v)
      → Sure (Seen view P) (connectors_config w m cs)
  unfolding connectors_config Supplied
  connectors-Sure m [] supply = Sure-pure _
  connectors-Sure m (c ∷ cs) supply =
      Sure-bind _ _ (by_type-Sure m c c.type (λ v p. (supply v p).0)) λ found.
        Sure-option found _ _ (Sure-pure _)
          λ d. Sure-bind _ _ (connectors-Sure m cs (λ v p. (supply v p).1)) λ rest. Sure-pure _

  pub sync_config_map-Sure :
      (m : DexServer)
      → ((v : View) → P v → Supplied m m.spec.connectors v)
      → Sure (Seen view P) (sync_config_map w m)
  unfolding sync_config_map
  sync_config_map-Sure m supply =
      Sure-bind _ _ (connectors-Sure m m.spec.connectors supply) λ found.
        Sure-option found _ _ (Sure-pure _) λ ds.
          Sure-bind _ _ (Sure-lift _ (R.marshals_connectors ds))
            λ yaml. Sure-Finishes _ (R.apply_succeeds _ _ _ _) (apply-Preserves L C _ _ _ _)
