-- ===== src/Api/Server.antt =====
-- The DexServer resource of api/v1alpha1/dexserver_types.go.
use dex_operator.Common.{ℕ, List, Option, Str, lit}
use dex_operator.Api.Kube.{Key, Condition}
use dex_operator.Api.Connector.{ConnectorSpec}

pub record DexServerSpec : Type 0 where
  pub issuer : Str
  pub connectors : List ConnectorSpec
  pub ingress_certificate_ref : Str

abbrev pub dex_server_condition_applied : Str
dex_server_condition_applied = lit "Applied"

abbrev pub dex_server_deployment_available : Str
dex_server_deployment_available = lit "Available"

pub record RelatedObjectReference : Type 0 where
  pub kind : Str
  pub name : Str
  pub namespace : Str

pub record DexServerStatus : Type 0 where
  pub state : Str
  pub message : Str
  pub related_objects : List RelatedObjectReference
  pub conditions : List Condition

-- The resource with the part of its metadata that the controllers use.
pub record DexServer : Type 0 where
  pub namespace : Str
  pub name : Str
  pub finalizers : List Str
  pub deletion_timestamp : Option ℕ
  pub spec : DexServerSpec
  pub status : DexServerStatus

abbrev pub server_key : DexServer → Key
server_key m = record { namespace = m.namespace; name = m.name }
