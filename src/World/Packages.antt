-- ===== src/World/Packages.antt =====
-- Pure functions of other packages, and the parameters of a controller taken together.
use dex_operator.Common.{ℕ, List, Bool, Option, Result, Str, GoError}
use dex_operator.Api.{
  Condition, Secret, ConfigMap, Deployment, DexServer, DexConnectorSpec, EnvVar, Volume,
  VolumeMount,
}
use dex_operator.World.Cluster.{Kube}
use dex_operator.World.Cryptography.{Crypto}
use dex_operator.World.Dex.{Grpc}

pub record Extern : Type 0 where
  -- `errors.Wrap` of github.com/pkg/errors
  pub wrap : GoError → Str → GoError
  -- a byte slice under `%q`
  pub quote : Str → Str
  -- `controllerutil.ContainsFinalizer`, `AddFinalizer` and `RemoveFinalizer`, on the finalizers
  pub contains_finalizer : List Str → Str → Bool
  pub add_finalizer : List Str → Str → List Str
  pub remove_finalizer : List Str → Str → List Str
  -- `meta.SetStatusCondition`
  pub set_status_condition : List Condition → Condition → List Condition
  -- `ctrl.SetControllerReference`, whose error the code drops
  pub set_controller_reference : DexServer → Secret → Secret
  -- `deployUtil.GetDeploymentStatus`
  pub get_deployment_status : Deployment → Bool × Option GoError
  -- `json.Marshal`
  pub marshal_secret : Secret → Result Str
  pub marshal_config_map : ConfigMap → Result Str
  -- `yaml.Marshal`
  pub marshal_connectors : List DexConnectorSpec → Result Str
  pub marshal_env_vars : List EnvVar → Result Str
  pub marshal_volumes : List Volume → Result Str
  pub marshal_volume_mounts : List VolumeMount → Result Str
  pub sha256 : Str → Str
  -- the RFC 3339 text of a time in UTC, and its parse
  pub format_time : ℕ → Str
  pub parse_time : Str → Option ℕ
  -- the host of `url.Parse`, or nothing where it fails
  pub url_host : Str → Option Str
  pub getenv : Str → Str

pub record World (S : Type 0) : Type 0 where
  pub kube : Kube S
  pub open kube use *
  pub crypto : Crypto S
  pub open crypto use *
  pub grpc : Grpc S
  pub open grpc use *
  pub extern : Extern
  pub open extern use *
