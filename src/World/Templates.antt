-- ===== src/World/Templates.antt =====
-- The structs of values that controllers/dexserver_controller.go hands to the templates of
-- deploy/dex-server, one constructor for each.
use dex_operator.Common.{Str}
use dex_operator.Api.{DexServer}

pub record ServiceAccountValues : Type 0 where
  pub service_account_name : Str
  pub dex_server : DexServer

pub record ClusterRoleBindingValues : Type 0 where
  pub cluster_role_name : Str
  pub service_account_name : Str
  pub cluster_role_binding_name : Str
  pub dex_server : DexServer

pub record DeploymentValues : Type 0 where
  pub dex_image : Str
  pub dex_config_map_hash : Str
  pub root_ca_hash : Str
  pub connector_credentials_hash : Str
  pub service_account_name : Str
  pub tls_secret_name : Str
  pub mtls_secret_name : Str
  pub mtls_secret_expiry : Str
  pub dex_server : DexServer
  pub additional_env_variables : Str
  pub additional_volume_mounts : Str
  pub additional_volumes : Str

pub record ServiceValues : Type 0 where
  pub serving_cert_secret_name : Str
  pub dex_server : DexServer

pub record ServiceGrpcValues : Type 0 where
  pub grpc_service_name : Str
  pub dex_server : DexServer

pub record ConfigMapValues : Type 0 where
  pub issuer : Str
  pub connectors_yaml : Str
  pub dex_server : DexServer

pub record IngressValues : Type 0 where
  pub host : Str
  pub dex_server : DexServer
  pub ingress_certificate_name : Str

pub data Values : Type 0 where
  service_account_values : ServiceAccountValues → Values
  cluster_role_binding_values : ClusterRoleBindingValues → Values
  deployment_values : DeploymentValues → Values
  service_values : ServiceValues → Values
  service_grpc_values : ServiceGrpcValues → Values
  config_map_values : ConfigMapValues → Values
  ingress_values : IngressValues → Values
  cluster_role_values : Str → Values
  -- `nil`, for the files of the resource definitions
  without_data : Values

-- `ApplyDirectly`, `ApplyDeployments` and `ApplyCustomResources`
pub data ApplyMode : Type 0 where
  directly deployments custom_resources : ApplyMode
