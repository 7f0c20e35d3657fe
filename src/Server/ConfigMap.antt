-- ===== src/Server/ConfigMap.antt =====
-- `syncConfigMap`: the connectors of dex's configuration, and the copies of the secrets that they
-- refer to.
pub mod Applies
pub mod Preserved
pub mod Sure
pub mod Skips
pub mod Copies
pub mod References
pub mod Frames
use dex_operator.Common.{
  ◌>>◌, Str, List, [], ◌∷◌, ◌++◌, Option, none, some, lit, is_empty, text_at, Action, pure, lift,
  ◌>>=◌, ◌==◌, str_eq, if◌then◌else◌,
}
use mathlib.Core.Option
use dex_operator.Api.{
  Secret, DexServer, ConnectorSpec, github, ldap, microsoft, oidc, other, UserSearchSpec,
  GroupSearchSpec, DexConnectorSpec, empty_config, empty_user_search, empty_group_search,
}
use dex_operator.World.{World, config_map_values, directly}
use dex_operator.Connectors.{copied_secret_name, env_variable_reference}
use dex_operator.Secrets.{copy_secret_to_dex_server_namespace}

-- A path under the mount of the LDAP certificates, if the secret has the file.
unfoldable pub mounted_file : ConnectorSpec → Secret → Str → Str
mounted_file connector secret file =
    if is_empty (text_at file secret.content)
    then []
    else lit "/etc/dex/ldapcerts/" ++ connector.id ++ lit "/" ++ file

abbrev pub user_search_of : UserSearchSpec → UserSearchSpec
user_search_of u = if is_empty u.base_dn then empty_user_search else u

abbrev pub group_search_of : GroupSearchSpec → GroupSearchSpec
group_search_of g = if is_empty g.base_dn then empty_group_search else g

-- `rootCAPath`, `clientCAPath` and `clientKeyPath`
pub record LdapPaths : Type 0 where
  pub root_ca : Str
  pub client_ca : Str
  pub client_key : Str

abbrev pub no_paths : LdapPaths
no_paths = record { root_ca = []; client_ca = []; client_key = [] }

unfoldable pub github_connector : ConnectorSpec → DexConnectorSpec
github_connector c = record {
  type = lit "github";
  id = c.id;
  name = c.name;
  config = record empty_config {
    client_id = c.github.client_id;
    client_secret = env_variable_reference c;
    redirect_uri = c.github.redirect_uri;
    org = c.github.org;
    orgs = c.github.orgs;
    load_all_groups = c.github.load_all_groups;
  };
}

unfoldable pub microsoft_connector : ConnectorSpec → DexConnectorSpec
microsoft_connector c = record {
  type = lit "microsoft";
  id = c.id;
  name = c.name;
  config = record empty_config {
    client_id = c.microsoft.client_id;
    client_secret = env_variable_reference c;
    redirect_uri = c.microsoft.redirect_uri;
    tenant = c.microsoft.tenant;
  };
}

unfoldable pub oidc_connector : ConnectorSpec → DexConnectorSpec
oidc_connector c = record {
  type = lit "oidc";
  id = c.id;
  name = c.name;
  config = record empty_config {
    client_id = c.oidc.client_id;
    client_secret = env_variable_reference c;
    redirect_uri = c.oidc.redirect_uri;
    issuer = c.oidc.issuer;
    claim_mapping = c.oidc.claim_mapping;
  };
}

unfoldable pub ldap_connector : ConnectorSpec → LdapPaths → DexConnectorSpec
ldap_connector c paths = record {
  type = lit "ldap";
  id = c.id;
  name = c.name;
  config = record empty_config {
    host = c.ldap.host;
    insecure_no_ssl = c.ldap.insecure_no_ssl;
    insecure_skip_verify = c.ldap.insecure_skip_verify;
    start_tls = c.ldap.start_tls;
    root_ca = paths.root_ca;
    client_ca = paths.client_ca;
    client_key = paths.client_key;
    bind_dn = c.ldap.bind_dn;
    bind_pw = env_variable_reference c;
    username_prompt = c.ldap.username_prompt;
    user_search = user_search_of c.ldap.user_search;
    group_search = group_search_of c.ldap.group_search;
  };
}

abbrev pub config_map_file : Str
config_map_file = lit "dex-server/config_map.yaml"

module _ {S : Type 0} (w : World S) where
  -- The root CA of an LDAP connector: copied, and read back for the paths.
  unfoldable pub ldap_paths : DexServer → ConnectorSpec → Action S LdapPaths
  ldap_paths m c = if is_empty c.ldap.root_ca_ref.name then pure no_paths else (do
    copy_secret_to_dex_server_namespace w m c.ldap.root_ca_ref
    secret ← w.get_secret (record {
      namespace = m.namespace;
      name = copied_secret_name c.ldap.root_ca_ref.namespace c.ldap.root_ca_ref.name;
    })
    pure (record {
      root_ca = mounted_file c secret (lit "ca.crt");
      client_ca = mounted_file c secret (lit "tls.crt");
      client_key = mounted_file c secret (lit "tls.key");
    }))

  -- One round of the loop. There is no connector where the whole function returns at once.
  unfoldable pub connector_config : DexServer → ConnectorSpec → Action S (Option DexConnectorSpec)
  connector_config m c = elim c.type [
    | github ↦ do
      copy_secret_to_dex_server_namespace w m c.github.client_secret_ref
      pure (some (github_connector c))
    | microsoft ↦ do
      copy_secret_to_dex_server_namespace w m c.microsoft.client_secret_ref
      pure (some (microsoft_connector c))
    | ldap ↦ do
      copy_secret_to_dex_server_namespace w m c.ldap.bind_pw_ref
      paths ← ldap_paths m c
      pure (some (ldap_connector c paths))
    | oidc ↦ do
      (if c.oidc.client_secret_ref.namespace == m.namespace
          then pure tt
          else copy_secret_to_dex_server_namespace w m c.oidc.client_secret_ref)
      pure (some (oidc_connector c))
    | other _ ↦ pure none
  ]

  unfoldable pub connectors_config :
      DexServer → List ConnectorSpec → Action S (Option (List DexConnectorSpec))
  connectors_config m [] = pure (some [])
  connectors_config m (c ∷ cs) = do
    found ← connector_config m c
    elim found [
      | none ↦ pure none
      | some d ↦ connectors_config m cs >>= λ rest. pure (Option.map (λ ds. d ∷ ds) rest)
    ]

  unfoldable pub sync_config_map : DexServer → Action S (Unit {0})
  sync_config_map m = do
    connectors ← connectors_config m m.spec.connectors
    elim connectors [
      | none ↦ pure tt
      | some ds ↦ do
        yaml ← lift (w.marshal_connectors ds)
        w.apply directly (some m)
            (config_map_values
              (record { issuer = m.spec.issuer; connectors_yaml = yaml; dex_server = m }))
            (config_map_file ∷ [])
    ]
