-- ===== src/Api/Client.antt =====
-- The DexClient resource of api/v1alpha1/dexclient_types.go.
use dex_operator.Common.{ℕ, List, Bool, Option, Str, Assoc, lit}
use dex_operator.Api.Kube.{Key, Condition, SecretReference}
use dex_operator.Api.Server.{RelatedObjectReference}

pub record DexClientSpec : Type 0 where
  pub client_id : Str
  pub client_secret_ref : SecretReference
  pub public : Bool
  pub redirect_uris : List Str
  pub trusted_peers : List Str
  pub logo_url : Str

abbrev pub dex_client_condition_applied : Str
dex_client_condition_applied = lit "Applied"

abbrev pub dex_client_condition_oauth2_client_created : Str
dex_client_condition_oauth2_client_created = lit "OAuth2ClientCreated"

pub record DexClientStatus : Type 0 where
  pub related_objects : List RelatedObjectReference
  pub conditions : List Condition

pub record DexClient : Type 0 where
  pub namespace : Str
  pub name : Str
  pub annotations : Assoc Str
  pub finalizers : List Str
  pub deletion_timestamp : Option ℕ
  pub spec : DexClientSpec
  pub status : DexClientStatus

abbrev pub client_key : DexClient → Key
client_key m = record { namespace = m.namespace; name = m.name }
