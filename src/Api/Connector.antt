-- ===== src/Api/Connector.antt =====
-- The identity provider connectors of api/v1alpha1/dexserver_types.go.
use dex_operator.Common.{List, Bool, Str}
use dex_operator.Api.Kube.{SecretReference}

pub record Org : Type 0 where
  pub name : Str
  pub teams : List Str

pub record GitHubConfigSpec : Type 0 where
  pub client_id : Str
  pub client_secret_ref : SecretReference
  pub redirect_uri : Str
  pub org : Str
  pub orgs : List Org
  pub host_name : Str
  pub root_ca : Str
  pub team_name_field : Str
  pub load_all_groups : Bool
  pub use_login_as_id : Bool

pub record MicrosoftConfigSpec : Type 0 where
  pub client_id : Str
  pub client_secret_ref : SecretReference
  pub redirect_uri : Str
  pub tenant : Str
  pub only_security_groups : Bool
  pub groups : List Str

pub record UserMatcher : Type 0 where
  pub user_attr : Str
  pub group_attr : Str

pub record UserSearchSpec : Type 0 where
  pub base_dn : Str
  pub filter : Str
  pub username : Str
  pub scope : Str
  pub id_attr : Str
  pub email_attr : Str
  pub name_attr : Str

pub record GroupSearchSpec : Type 0 where
  pub base_dn : Str
  pub filter : Str
  pub scope : Str
  pub user_matchers : List UserMatcher
  pub name_attr : Str

pub record LdapConfigSpec : Type 0 where
  pub host : Str
  pub insecure_no_ssl : Bool
  pub insecure_skip_verify : Bool
  pub start_tls : Bool
  pub root_ca_ref : SecretReference
  pub root_ca_data : Str
  pub bind_dn : Str
  pub bind_pw_ref : SecretReference
  pub username_prompt : Str
  pub user_search : UserSearchSpec
  pub group_search : GroupSearchSpec

pub record ClaimMappingSpec : Type 0 where
  pub preferred_username : Str
  pub name : Str
  pub email : Str

pub record OidcConfigSpec : Type 0 where
  pub client_id : Str
  pub client_secret_ref : SecretReference
  pub issuer : Str
  pub redirect_uri : Str
  pub claim_mapping : ClaimMappingSpec

-- The Go type is a string: `other` is any string but the four constants.
pub data ConnectorType : Type 0 where
  github ldap microsoft oidc : ConnectorType
  other : Str → ConnectorType

pub record ConnectorSpec : Type 0 where
  pub name : Str
  pub type : ConnectorType
  pub id : Str
  pub github : GitHubConfigSpec
  pub ldap : LdapConfigSpec
  pub microsoft : MicrosoftConfigSpec
  pub oidc : OidcConfigSpec
