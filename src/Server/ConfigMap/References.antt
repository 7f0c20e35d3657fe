-- ===== src/Server/ConfigMap/References.antt =====
-- How the configuration of dex that `syncConfigMap` writes refers to the credentials.
use dex_operator.Common.{
  ◌≡◌, refl, ◌∙◌, ap, sym, Option, none, some, List, [], ◌∷◌, ◌++◌, Str, lit, ok, Action, pure,
  ◌>>=◌, bind-eq-ok, pure-eq-ok, arith, if◌then◌else◌, ◌==◌, str_eq,
}
use mathlib.Core.Option
use dex_operator.Api.{
  DexServer, ConnectorSpec, ConnectorType, github, ldap, microsoft, oidc, other, DexConnectorSpec,
}
use dex_operator.World.{World}
use dex_operator.Connectors.{env_variable_name, env_variable_reference}
use dex_operator.Secrets.{copy_secret_to_dex_server_namespace}
use dex_operator.Server.ConfigMap.{
  ldap_paths, ldap_connector, github_connector, microsoft_connector, oidc_connector,
  connector_config, connectors_config,
}
use dex_operator.Server.ConfigMap.Copies.{next_connector, some_of_map}

-- The field of a connector's configuration that has its credential.
abbrev pub credential_field : ConnectorType → DexConnectorSpec → Str
credential_field ldap d = d.config.bind_pw
credential_field _ d = d.config.client_secret

-- There is one configuration for each connector, and it has a reference to the environment
-- variable of the connector where the credential goes.
unfoldable pub Refers : List ConnectorSpec → List DexConnectorSpec → Type 0
Refers [] [] = Unit
Refers (c ∷ cs) (d ∷ ds) =
    (credential_field c.type d ≡ lit "$" ++ env_variable_name c) × Refers cs ds
Refers _ _ = ⊥

-- The value of a configuration that there is.
or_else : DexConnectorSpec → Option DexConnectorSpec → DexConnectorSpec
or_else d none = d
or_else d (some e) = e

or_none : Option (List DexConnectorSpec) → List DexConnectorSpec
or_none none = []
or_none (some ds) = ds

module _ {S A : Type 0} where
  value_is :
      (call : Action S A) (made : A → DexConnectorSpec) (s : S) {d : DexConnectorSpec}
      → ((call >>= λ a. pure (some (made a))) s).0 ≡ ok (some d)
      → (a : A) × (d ≡ made a)
  unfolding or_else
  value_is call made s {d} done =
      let (a, got, same, rest) = bind-eq-ok call (λ a. pure (some (made a))) s done in
      (a, ap (or_else d) (pure-eq-ok {S = S} (some (made a)) (some d) (call s).1 rest))

module _ {S : Type 0} (w : World S) where
  connector_config-credential_field :
      (m : DexServer) (c : ConnectorSpec) (t : ConnectorType) (s : S) {d : DexConnectorSpec}
      → (connector_config w m (record c { type = t }) s).0 ≡ ok (some d)
      → credential_field t d ≡ lit "$" ++ env_variable_name (record c { type = t })
  unfolding connector_config ◌>>=◌ github_connector microsoft_connector oidc_connector
      ldap_connector env_variable_name env_variable_reference
  connector_config-credential_field m c github s done =
      ap (credential_field github)
        (value_is (copy_secret_to_dex_server_namespace w m c.github.client_secret_ref)
          (λ _. github_connector (record c { type = github })) s done).1
  connector_config-credential_field m c microsoft s done =
      ap (credential_field microsoft)
        (value_is (copy_secret_to_dex_server_namespace w m c.microsoft.client_secret_ref)
          (λ _. microsoft_connector (record c { type = microsoft })) s done).1
  connector_config-credential_field m c oidc s done =
      ap (credential_field oidc)
        (value_is
          (if c.oidc.client_secret_ref.namespace == m.namespace
            then pure tt
            else copy_secret_to_dex_server_namespace w m c.oidc.client_secret_ref)
          (λ _. oidc_connector (record c { type = oidc })) s done).1
  connector_config-credential_field m c ldap s done =
      let c' : ConnectorSpec = record c { type = ldap } in
      let (u, copied, same, rest) =
        bind-eq-ok (copy_secret_to_dex_server_namespace w m c.ldap.bind_pw_ref)
          (λ _. ldap_paths w m c' >>= λ paths. pure (some (ldap_connector c' paths))) s done in
      ap (credential_field ldap) (value_is (ldap_paths w m c') (ldap_connector c') _ rest).1
  connector_config-credential_field m c (other _) s done = absurd (ground arith)

  next_connector-Refers :
      (m : DexServer) (c : ConnectorSpec) (cs : List ConnectorSpec)
      (found : Option DexConnectorSpec) (s : S) {ds : List DexConnectorSpec}
      → ((d : DexConnectorSpec)
          → found ≡ some d
          → credential_field c.type d ≡ lit "$" ++ env_variable_name c)
      → ((t : S) (es : List DexConnectorSpec)
          → (connectors_config w m cs t).0 ≡ ok (some es)
          → Refers cs es)
      → (next_connector w m cs found s).0 ≡ ok (some ds)
      → Refers (c ∷ cs) ds
  unfolding ◌>>=◌ Refers or_none
  next_connector-Refers m c cs none s field others done = absurd (ground arith)
  next_connector-Refers m c cs (some d) s {ds} field others done =
      let (rest, got, same, last) =
        bind-eq-ok (connectors_config w m cs) (λ r. pure (Option.map (λ es. d ∷ es) r)) s done in
      let is_ds =
        pure-eq-ok {S = S} (Option.map (λ es. d ∷ es) rest) (some ds) (connectors_config w m cs s).1
          last in
      let (es, is_some) = some_of_map d rest (sym is_ds) in
      rw (ap or_none is_ds, is_some) (field d refl, others s es (got ∙ ap ok is_some))

  -- The configuration of the connectors refers to their environment variables.
  pub connectors_config-Refers :
      (m : DexServer) (cs : List ConnectorSpec) (s : S) {ds : List DexConnectorSpec}
      → (connectors_config w m cs s).0 ≡ ok (some ds)
      → Refers cs ds
  unfolding connectors_config Refers or_none
  connectors_config-Refers m [] s {ds} done =
      rw (ap or_none (pure-eq-ok {S = S} (some []) (some ds) s done)) tt
  connectors_config-Refers m (c ∷ cs) s done =
      let (found, got, same, rest) =
        bind-eq-ok (connector_config w m c) (next_connector w m cs) s done in
      next_connector-Refers m c cs found _
        (λ d is_d. connector_config-credential_field m c c.type s (got ∙ ap ok is_d))
        (λ t es. connectors_config-Refers m cs t) rest
