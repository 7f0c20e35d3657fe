-- ===== src/Api/Config.antt =====
-- The connector section of dex's own configuration, `DexConnectorSpec` and
-- `DexConnectorConfigSpec` of controllers/dexserver_controller.go.
use dex_operator.Common.{List, [], Bool, false, Str}
use dex_operator.Api.Connector.{Org, UserSearchSpec, GroupSearchSpec, ClaimMappingSpec}

pub record DexConnectorConfigSpec : Type 0 where
  pub client_id : Str
  pub client_secret : Str
  pub redirect_uri : Str
  pub org : Str
  pub orgs : List Org
  pub host_name : Str
  pub team_name_field : Str
  pub load_all_groups : Bool
  pub use_login_as_id : Bool
  pub tenant : Str
  pub only_security_groups : Bool
  pub groups : List Str
  pub host : Str
  pub insecure_no_ssl : Bool
  pub insecure_skip_verify : Bool
  pub start_tls : Bool
  pub client_ca : Str
  pub client_key : Str
  pub root_ca_data : Str
  pub bind_dn : Str
  pub bind_pw : Str
  pub username_prompt : Str
  pub user_search : UserSearchSpec
  pub group_search : GroupSearchSpec
  pub issuer : Str
  pub claim_mapping : ClaimMappingSpec
  pub root_ca : Str

pub record DexConnectorSpec : Type 0 where
  pub type : Str
  pub id : Str
  pub name : Str
  pub config : DexConnectorConfigSpec

-- The zero values of the structs.
abbrev pub empty_user_search : UserSearchSpec
empty_user_search = record {
  base_dn = [];
  filter = [];
  username = [];
  scope = [];
  id_attr = [];
  email_attr = [];
  name_attr = [];
}

abbrev pub empty_group_search : GroupSearchSpec
empty_group_search = record {
  base_dn = [];
  filter = [];
  scope = [];
  user_matchers = [];
  name_attr = [];
}

abbrev pub empty_claim_mapping : ClaimMappingSpec
empty_claim_mapping = record { preferred_username = []; name = []; email = [] }

abbrev pub empty_config : DexConnectorConfigSpec
empty_config = record {
  client_id = [];
  client_secret = [];
  redirect_uri = [];
  org = [];
  orgs = [];
  host_name = [];
  team_name_field = [];
  load_all_groups = false;
  use_login_as_id = false;
  tenant = [];
  only_security_groups = false;
  groups = [];
  host = [];
  insecure_no_ssl = false;
  insecure_skip_verify = false;
  start_tls = false;
  client_ca = [];
  client_key = [];
  root_ca_data = [];
  bind_dn = [];
  bind_pw = [];
  username_prompt = [];
  user_search = empty_user_search;
  group_search = empty_group_search;
  issuer = [];
  claim_mapping = empty_claim_mapping;
  root_ca = [];
}
