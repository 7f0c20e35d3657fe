-- ===== src/Tests/Cluster.antt =====
-- A small cluster: a dex server with one GitHub connector, a client, and runs of the controllers.
use dex_operator.Common.{
  ◌≡◌, refl, List, [], ◌∷◌, true, false, none, some, ok, err, Str, lit, ◌==◌, str_eq, if◌then◌else◌,
  lookup, insert, text_at, hex_encode, hex_digit, ◌>>=◌,
}
use dex_operator.Api.{
  Key, SecretReference, DexServer, server_key, ConnectorSpec, github, DexClient, other,
  ConnectorType, empty_user_search, empty_group_search, empty_claim_mapping,
}
use dex_operator.World.{View, SecretContent, same_key}
use dex_operator.Conditions.{
  update_dex_client_status_conditions, merge_status_conditions, update_dex_server_status_conditions,
}
use dex_operator.Certs.{hour, generate_mtls_certs, pem_encode}
use dex_operator.Connectors.{copied_secret_name}
use dex_operator.Secrets.{
  add_label, check_and_add_label_to_secret, read_credential, get_connector_secret_from_ref,
  write_copy, copy_secret_to_dex_server_namespace,
}
use dex_operator.Server.Mtls.{
  define_mtls_secret, new_mtls_secret, create_mtls_secret, manage_mtls_secret,
}
use dex_operator.Server.ConfigMap.{connector_config, connectors_config, sync_config_map}
use dex_operator.Server.Deployment.{
  Extras, no_extras, get_dex_image_pull_spec, get_environment_variable_for_secret, add_credential,
  visit_connector, visit_connectors, dex_config_map_hash, mtls_secret_expiry, apply_deployment,
  sync_deployment,
}
use dex_operator.Server.Resources.{
  cluster_role_binding_name, sync_service_account, sync_cluster_role_binding, sync_service,
  sync_service_grpc, sync_ingress, process_dex_server_deletion,
}
use dex_operator.Server.Reconcile.{
  ReconcileResult, done, dex_server_finalizer, reconcile_step, sync_all, report_applied,
  get_dex_server_deployment_condition,
}
use dex_operator.Tests.Memory.{memory, refusing, wrong_key}
use dex_operator.World.{Connection}
use dex_operator.Certs.{MtlsCerts}
use dex_operator.Server.Deployment.Applies.{variable_for}
use dex_operator.Server.Reconcile.{reconcile, reconcile_live, ensure_finalizer}
use dex_operator.DexApi.{create_client}
use dex_operator.Client.Oauth.{create_oauth2_client, create_with_secret}
use dex_operator.Client.Credential.{
  get_client_client_secret_from_ref, check_and_add_label_to_client_secret, SecretCheck,
  dex_client_secret_hash_annotation, get_hash_for_a_secret, has_client_secret_been_updated,
  store_hash, with_hash,
}

abbrev pub no_ref : SecretReference
no_ref = record { namespace = []; name = [] }

abbrev pub github_ref : SecretReference
github_ref = record { namespace = lit "idp"; name = lit "gh" }

-- A connector of a type, with an identifier.
abbrev pub connector_of : ConnectorType → Str → ConnectorSpec
connector_of t id = record {
  name = id;
  type = t;
  id = id;
  github = record {
    client_id = lit "c";
    client_secret_ref = github_ref;
    redirect_uri = lit "r";
    org = [];
    orgs = [];
    host_name = [];
    root_ca = [];
    team_name_field = [];
    load_all_groups = false;
    use_login_as_id = false;
  };
  ldap = record {
    host = [];
    insecure_no_ssl = false;
    insecure_skip_verify = false;
    start_tls = false;
    root_ca_ref = no_ref;
    root_ca_data = [];
    bind_dn = [];
    bind_pw_ref = no_ref;
    username_prompt = [];
    user_search = empty_user_search;
    group_search = empty_group_search;
  };
  microsoft = record {
    client_id = [];
    client_secret_ref = no_ref;
    redirect_uri = [];
    tenant = [];
    only_security_groups = false;
    groups = [];
  };
  oidc = record {
    client_id = [];
    client_secret_ref = no_ref;
    issuer = [];
    redirect_uri = [];
    claim_mapping = empty_claim_mapping;
  };
}

abbrev pub hub : ConnectorSpec
hub = connector_of github (lit "h")

abbrev pub server_with : List ConnectorSpec → DexServer
server_with connectors = record {
  namespace = lit "d";
  name = lit "s";
  finalizers = dex_server_finalizer ∷ [];
  deletion_timestamp = none;
  spec = record { issuer = lit "h"; connectors = connectors; ingress_certificate_ref = [] };
  status = record { state = []; message = []; related_objects = []; conditions = [] };
}

abbrev pub server : DexServer
server = server_with (hub ∷ [])

-- A server with a connector whose type is none of the four.
abbrev pub odd_server : DexServer
odd_server = server_with (connector_of (other (lit "x")) (lit "o") ∷ [])

abbrev pub client : DexClient
client = record {
  namespace = lit "d";
  name = lit "c";
  annotations = [];
  finalizers = [];
  deletion_timestamp = some 5;
  spec = record {
    client_id = lit "i";
    client_secret_ref = github_ref;
    public = false;
    redirect_uris = [];
    trusted_peers = [];
    logo_url = [];
  };
  status = record { related_objects = []; conditions = [] };
}

abbrev pub github_key : Key
github_key = record { namespace = lit "idp"; name = lit "gh" }

abbrev pub credential : SecretContent
credential = record { labels = []; annotations = []; content = (lit "clientSecret", lit "p") ∷ [] }

-- The credential, the server and its binding are stored.
abbrev pub cluster : View
cluster = record {
  secrets = λ k. if same_key k github_key then some credential else none;
  bindings = λ n. n == cluster_role_binding_name server;
  applied = λ f. none;
  dex_servers = λ k. if same_key k (server_key server) then some server else none;
  dex_clients = λ k. none;
  dex = λ t i. none;
  connections = 0;
}

-- The same without the credential.
abbrev pub bare : View
bare = record cluster { secrets = λ k. none }

-- The same with a copy of the credential in the namespace of the server.
abbrev pub copied : View
copied = record cluster {
  secrets = λ k.
      if same_key k github_key
      then some credential
      else if same_key k (record { namespace = lit "d"; name = lit "idp-gh" })
      then some credential
      else none;
}

abbrev pub hourly : ReconcileResult
hourly = record { requeue = true; requeue_after = hour }

pub copy_succeeds : (copy_secret_to_dex_server_namespace memory server github_ref cluster).0 ≡ ok tt
unfolding copy_secret_to_dex_server_namespace check_and_add_label_to_secret add_label write_copy
    ◌>>=◌ same_key lit str_eq lookup insert copied_secret_name
copy_succeeds = refl

pub mtls_succeeds : (manage_mtls_secret memory server cluster).0 ≡ ok tt
unfolding manage_mtls_secret create_mtls_secret new_mtls_secret generate_mtls_certs
    define_mtls_secret ◌>>=◌ same_key lit str_eq
mtls_succeeds = refl

pub config_succeeds : (sync_config_map memory server cluster).0 ≡ ok tt
unfolding sync_config_map connectors_config connector_config copy_secret_to_dex_server_namespace
    check_and_add_label_to_secret add_label write_copy ◌>>=◌ same_key lit str_eq lookup insert
    copied_secret_name
config_succeeds = refl

pub deployment_succeeds : (sync_deployment memory server cluster).0 ≡ ok tt
unfolding sync_deployment get_dex_image_pull_spec visit_connectors visit_connector add_credential
    get_environment_variable_for_secret get_connector_secret_from_ref read_credential
    check_and_add_label_to_secret add_label apply_deployment dex_config_map_hash mtls_secret_expiry
    ◌>>=◌ same_key lit str_eq lookup insert text_at copied_secret_name
deployment_succeeds = refl

pub pass_succeeds : (sync_all memory server cluster).0 ≡ ok tt
unfolding sync_all reconcile_step manage_mtls_secret create_mtls_secret new_mtls_secret
    generate_mtls_certs define_mtls_secret sync_config_map connectors_config connector_config
    copy_secret_to_dex_server_namespace write_copy sync_service sync_service_grpc
    sync_service_account sync_cluster_role_binding sync_ingress sync_deployment
    get_dex_image_pull_spec visit_connectors visit_connector add_credential
    get_environment_variable_for_secret get_connector_secret_from_ref read_credential
    check_and_add_label_to_secret add_label apply_deployment dex_config_map_hash mtls_secret_expiry
    ◌>>=◌ same_key lit str_eq lookup insert text_at copied_secret_name
pass_succeeds = refl

pub server_is_found : (memory.get_dex_server (server_key server) cluster).0 ≡ ok server
unfolding same_key lit str_eq
server_is_found = refl

pub reconcile_succeeds : (reconcile memory (server_key server) cluster).0 ≡ ok hourly
unfolding reconcile reconcile_live ensure_finalizer report_applied
    update_dex_server_status_conditions merge_status_conditions get_dex_server_deployment_condition
    sync_all reconcile_step manage_mtls_secret create_mtls_secret new_mtls_secret
    generate_mtls_certs define_mtls_secret sync_config_map connectors_config connector_config
    copy_secret_to_dex_server_namespace write_copy sync_service sync_service_grpc
    sync_service_account sync_cluster_role_binding sync_ingress sync_deployment
    get_dex_image_pull_spec visit_connectors visit_connector add_credential
    get_environment_variable_for_secret get_connector_secret_from_ref read_credential
    check_and_add_label_to_secret add_label apply_deployment dex_config_map_hash mtls_secret_expiry
    ◌>>=◌ same_key lit str_eq lookup insert text_at copied_secret_name
reconcile_succeeds = refl

pub server_is_stored : cluster.dex_servers (server_key server) ≡ some server
unfolding same_key lit str_eq
server_is_stored = refl

pub report_succeeds : (report_applied memory server cluster).0 ≡ ok hourly
unfolding report_applied update_dex_server_status_conditions merge_status_conditions
    get_dex_server_deployment_condition ◌>>=◌
report_succeeds = refl

abbrev pub added : Extras
added = record no_extras {
  env_variables = variable_for (lit "idp-gh") hub ∷ [];
  connector_creds_hash = lit "70";
}

pub credential_added :
    (add_credential memory server (lit "idp-gh") hub no_extras copied).0 ≡ ok added
unfolding add_credential get_environment_variable_for_secret get_connector_secret_from_ref
    read_credential check_and_add_label_to_secret add_label ◌>>=◌ same_key lit str_eq lookup insert
    text_at hex_encode hex_digit
credential_added = refl

pub deletion_is_refused : (process_dex_server_deletion refusing server cluster).0 ≡ err wrong_key
unfolding process_dex_server_deletion ◌>>=◌ lit str_eq
deletion_is_refused = refl

abbrev pub sample_certs : MtlsCerts
sample_certs = record {
  ca_pem = lit "CERTIFICATEkey";
  ca_priv_key_pem = lit "RSA PRIVATE KEYkey";
  cert_pem = lit "CERTIFICATEkey";
  cert_priv_key_pem = lit "RSA PRIVATE KEYkey";
  client_pem = lit "CERTIFICATEkey";
  client_priv_key_pem = lit "RSA PRIVATE KEYkey";
  expiry = 86_400_000_001_000;
}

pub certs_generated : (generate_mtls_certs memory (lit "d") cluster).0 ≡ ok sample_certs
unfolding generate_mtls_certs pem_encode ◌>>=◌ lit
certs_generated = refl

abbrev pub connection : Connection
connection = record { target = lit "t"; ca = lit "a"; certificate = lit "b" }

-- A client that carries the checksum of an older secret.
abbrev pub stale_client : DexClient
stale_client = record client { annotations = (dex_client_secret_hash_annotation, lit "00") ∷ [] }

pub checksum_is_read : (get_hash_for_a_secret memory stale_client cluster).0 ≡ ok (lit "6768")
unfolding get_hash_for_a_secret ◌>>=◌ lit str_eq same_key hex_encode hex_digit
checksum_is_read = refl

abbrev pub change : SecretCheck
change = record { client = with_hash stale_client (lit "6768"); updated = true; error = none }

pub change_is_seen : (has_client_secret_been_updated memory stale_client cluster).0 ≡ ok change
unfolding has_client_secret_been_updated store_hash get_hash_for_a_secret ◌>>=◌ lit str_eq same_key
    lookup insert hex_encode hex_digit
change_is_seen = refl

pub creation_succeeds : (create_oauth2_client memory connection client cluster).0 ≡ ok done
unfolding create_oauth2_client create_with_secret get_client_client_secret_from_ref
    check_and_add_label_to_client_secret add_label create_client update_dex_client_status_conditions
    merge_status_conditions ◌>>=◌ lit str_eq same_key lookup insert
creation_succeeds = refl
