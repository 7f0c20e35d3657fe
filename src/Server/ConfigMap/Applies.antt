-- ===== src/Server/ConfigMap/Applies.antt =====
-- When `syncConfigMap` applies a configuration, and when it silently does not.
use dex_operator.Common.{
  ◌≡◌, refl, ◌∙◌, ap, true, false, Option, none, some, List, [], ◌∷◌, Str, ok, pure, ◌>>=◌,
  bind-eq-ok, Keeps, Keeps-bind, Keeps-pure, Keeps-option, lift-eq-ok, keeps_rules, Bool-cases, inl,
  inr, arith,
}
use mathlib.Core.Option
use dex_operator.Api.{
  Secret, DexServer, ConnectorSpec, ConnectorType, github, ldap, microsoft, oidc, other,
  DexConnectorSpec,
}
use dex_operator.World.{World, View, config_map_values, directly, put_secret, ApiServer}
use dex_operator.World.Facts.{applied_after_apply}
use dex_operator.World.Frames.{part, get_secret-Keeps}
use dex_operator.Connectors.{is_known}
use dex_operator.Connectors.Names.{all_known, all_known-cons}
use dex_operator.Secrets.Frames.{copy_secret-Keeps}
use dex_operator.Server.ConfigMap.{
  ldap_paths, connector_config, connectors_config, sync_config_map, config_map_file,
}

module _ {S : Type 0} (w : World S) where
  connector_config-known :
      (m : DexServer) (c : ConnectorSpec) (s : S) {found : Option DexConnectorSpec}
      → (connector_config w m c s).0 ≡ ok found
      → is_known c.type ≡ true
      → (d : DexConnectorSpec) × (found ≡ some d)
  unfolding connector_config ◌>>=◌
  connector_config-known m c s done known = ground arith

  connector_config-unknown :
      (m : DexServer) (c : ConnectorSpec) (s : S)
      → is_known c.type ≡ false
      → connector_config w m c s ≡ (ok none, s)
  unfolding connector_config ◌>>=◌
  connector_config-unknown m c s unknown = ground arith

  pub connectors_config-known :
      (m : DexServer) (cs : List ConnectorSpec) (s : S) {found : Option (List DexConnectorSpec)}
      → (connectors_config w m cs s).0 ≡ ok found
      → all_known cs ≡ true
      → (ds : List DexConnectorSpec) × (found ≡ some ds)
  unfolding connectors_config ◌>>=◌
  connectors_config-known m [] s done known = ([], ground arith)
  connectors_config-known m (c ∷ cs) s done known =
      let (head, tail) = all_known-cons c cs known in
      let (a, got, same, rest) = bind-eq-ok (connector_config w m c) _ s done in
      let (d, is_some) = connector_config-known m c s got head in
      let (b, got', same', rest') =
        bind-eq-ok (connectors_config w m cs) (λ r. pure (Option.map (λ ds. d ∷ ds) r)) _
          (rw is_some at rest) in
      let (ds, is_some') = connectors_config-known m cs _ got' tail in (d ∷ ds, ground arith)

  pub connectors_config-unknown :
      (m : DexServer) (cs : List ConnectorSpec) (s : S) {found : Option (List DexConnectorSpec)}
      → (connectors_config w m cs s).0 ≡ ok found
      → all_known cs ≡ false
      → found ≡ none
  unfolding connectors_config ◌>>=◌
  connectors_config-unknown m [] s done known = absurd (cc)
  connectors_config-unknown m (c ∷ cs) s done known = elim (Bool-cases (is_known c.type)) [
    | inl head ↦
        let (a, got, same, rest) = bind-eq-ok (connector_config w m c) _ s done in
        let (d, is_some) = connector_config-known m c s got head in
        let (b, got', same', rest') =
          bind-eq-ok (connectors_config w m cs) (λ r. pure (Option.map (λ ds. d ∷ ds) r)) _
            (rw is_some at rest) in
        let is_none = connectors_config-unknown m cs _ got' (rw head at known) in ground arith
    | inr head ↦ let stops = connector_config-unknown m c s head in ground arith
  ]

module _ {S X : Type 0} {w : World S} {view : S → View} (L : ApiServer w view) (p : View → X)
    (same : (x : Secret) (v : View) → p (put_secret x v) ≡ p v) where
  ldap_paths-Keeps : (m : DexServer) (c : ConnectorSpec) → Keeps (part view p) (ldap_paths w m c)
  unfolding ldap_paths
  ldap_paths-Keeps m c = search (keeps_rules, get_secret-Keeps L p, copy_secret-Keeps L p same)

  by_type-Keeps :
      (m : DexServer) (c : ConnectorSpec) (t : ConnectorType)
      → Keeps (part view p) (connector_config w m (record c { type = t }))
  unfolding connector_config
  by_type-Keeps m c github = search (keeps_rules, copy_secret-Keeps L p same)
  by_type-Keeps m c ldap = search (keeps_rules, copy_secret-Keeps L p same, ldap_paths-Keeps)
  by_type-Keeps m c microsoft = search (keeps_rules, copy_secret-Keeps L p same)
  by_type-Keeps m c oidc = search (keeps_rules, copy_secret-Keeps L p same)
  by_type-Keeps m c (other _) = search keeps_rules

  pub connectors-Keeps :
      (m : DexServer) (cs : List ConnectorSpec) → Keeps (part view p) (connectors_config w m cs)
  unfolding connectors_config
  connectors-Keeps m [] = search keeps_rules
  connectors-Keeps m (c ∷ cs) = Keeps-bind _ _ (by_type-Keeps m c c.type) λ found.
      Keeps-option found _ _ (Keeps-pure _) λ d. search (keeps_rules, connectors-Keeps m cs)

module _ {S : Type 0} {w : World S} {view : S → View} (L : ApiServer w view) where
  -- When the configuration is synchronised with success and every connector has one of the four
  -- types, the last thing made of the template of the configuration is its text for the issuer
  -- of this DexServer, with the YAML of a list of connectors.
  pub sync_config_map-applies :
      (m : DexServer) (s : S)
      → (sync_config_map w m s).0 ≡ ok tt
      → all_known m.spec.connectors ≡ true
      → (ds : List DexConnectorSpec) × (yaml : Str) × ((connectors_config w m m.spec.connectors s).0
          ≡ ok (some ds))
        × (w.marshal_connectors ds ≡ ok yaml)
        × ((view (sync_config_map w m s).1).applied config_map_file
            ≡ some (
                config_map_values
                  (record { issuer = m.spec.issuer; connectors_yaml = yaml; dex_server = m })))
  unfolding sync_config_map
  sync_config_map-applies m s done known =
      let (found, got, same, rest) =
        bind-eq-ok (connectors_config w m m.spec.connectors) _ s done in
      let (ds, is_some) = connectors_config-known w m m.spec.connectors s got known in
      let (yaml, marshalled, same', applied) =
        lift-eq-ok (w.marshal_connectors ds) _ _ (rw is_some at rest) in
      (
        ds,
        yaml,
        got ∙ ap ok is_some,
        marshalled,
        rw (same, is_some, same')
            (ap (λ (v : View). v.applied config_map_file)
                (applied_after_apply L directly (some m)
                  (config_map_values
                    (record { issuer = m.spec.issuer; connectors_yaml = yaml; dex_server = m }))
                  config_map_file _ applied)
              ∙ ground arith),
      )

  -- A call that succeeded although some connector has none of the four types made nothing.
  pub sync_config_map-unapplied :
      (m : DexServer) (s : S)
      → (sync_config_map w m s).0 ≡ ok tt
      → all_known m.spec.connectors ≡ false
      → (view (sync_config_map w m s).1).applied ≡ (view s).applied
  unfolding sync_config_map ◌>>=◌
  sync_config_map-unapplied m s done unknown =
      let (found, got, same, rest) =
        bind-eq-ok (connectors_config w m m.spec.connectors) _ s done in
      let is_none = connectors_config-unknown w m m.spec.connectors s got unknown in
      rw (same, is_none)
        ((connectors-Keeps L (λ v. v.applied) (λ x v. refl) m m.spec.connectors).same s)
