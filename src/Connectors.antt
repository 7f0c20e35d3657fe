-- ===== src/Connectors.antt =====
-- Names that tie a connector to its credential: `envVariableForConnector`,
-- `getUniqueAlphanumericIdForConnector` and the names of copied secrets, of
-- controllers/dexserver_controller.go.
pub mod Names
pub mod Identifiers
use dex_operator.Common.{Bool, true, false, Str, [], ◌++◌, lit, hex_encode, to_upper}
use dex_operator.Api.{
  ConnectorSpec, ConnectorType, github, ldap, microsoft, oidc, other, SecretReference,
}

-- The type is one of the four constants.
abbrev pub is_known : ConnectorType → Bool
is_known (other _) = false
is_known _ = true

pub record ConnectorSecret : Type 0 where
  pub env_var_name : Str
  pub secret_key : Str

-- The map has four keys; at any other the zero value is read.
unfoldable pub env_variable_for_connector : ConnectorType → ConnectorSecret
env_variable_for_connector github = record {
  env_var_name = lit "GITHUB_CLIENT_SECRET";
  secret_key = lit "clientSecret";
}
env_variable_for_connector ldap = record {
  env_var_name = lit "LDAP_BIND_PW";
  secret_key = lit "bindPW";
}
env_variable_for_connector microsoft = record {
  env_var_name = lit "MICROSOFT_CLIENT_SECRET";
  secret_key = lit "clientSecret";
}
env_variable_for_connector oidc = record {
  env_var_name = lit "OIDC_CLIENT_SECRET";
  secret_key = lit "clientSecret";
}
env_variable_for_connector (other _) = record { env_var_name = []; secret_key = [] }

-- `getUniqueAlphanumericIdForConnector`
unfoldable pub unique_alphanumeric_id : Str → Str
unique_alphanumeric_id id = to_upper (hex_encode id)

-- The name of the environment variable that holds the credential of a connector.
unfoldable pub env_variable_name : ConnectorSpec → Str
env_variable_name connector =
    (env_variable_for_connector connector.type).env_var_name
    ++ (lit "_" ++ unique_alphanumeric_id connector.id)

-- How the configuration of dex refers to that variable.
unfoldable pub env_variable_reference : ConnectorSpec → Str
env_variable_reference connector =
    lit "$"
    ++ ((env_variable_for_connector connector.type).env_var_name
        ++ (lit "_" ++ unique_alphanumeric_id connector.id))

-- The name of the copy of a secret, in the namespace of the dex server.
unfoldable pub copied_secret_name : Str → Str → Str
copied_secret_name namespace name = namespace ++ (lit "-" ++ name)

-- The reference to the credential of a connector, which its type selects.
abbrev pub credential_ref : SecretReference → ConnectorSpec → SecretReference
credential_ref none_ref connector = elim connector.type [
  | github ↦ connector.github.client_secret_ref
  | ldap ↦ connector.ldap.bind_pw_ref
  | microsoft ↦ connector.microsoft.client_secret_ref
  | oidc ↦ connector.oidc.client_secret_ref
  | other _ ↦ none_ref
]
