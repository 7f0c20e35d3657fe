-- ===== src/World/Cluster.antt =====
-- The API server as the controllers call it. A successful update hands back the object that the
-- server answered with, which controller-runtime decodes into the object of the caller.
use dex_operator.Common.{ℕ, List, Option, Str, Action}
use dex_operator.Api.{Key, Secret, ClusterRoleBinding, ConfigMap, Deployment, DexServer, DexClient}
use dex_operator.World.Templates.{Values, ApplyMode}

pub record Kube (S : Type 0) : Type 0 where
  pub get_dex_server : Key → Action S DexServer
  pub update_dex_server : DexServer → Action S DexServer
  pub update_dex_server_status : DexServer → Action S DexServer
  pub list_dex_servers : Action S (List DexServer)
  pub get_dex_client : Key → Action S DexClient
  pub update_dex_client : DexClient → Action S DexClient
  pub update_dex_client_status : DexClient → Action S DexClient
  pub list_dex_clients : Action S (List DexClient)
  pub get_secret : Key → Action S Secret
  pub create_secret : Secret → Action S (Unit {0})
  pub update_secret : Secret → Action S Secret
  pub get_cluster_role_binding : Str → Action S ClusterRoleBinding
  pub delete_cluster_role_binding : ClusterRoleBinding → Action S (Unit {0})
  pub get_config_map : Key → Action S ConfigMap
  pub get_deployment : Key → Action S Deployment
  -- the applier's call on a list of template files, with the owner of what it creates
  pub apply : ApplyMode → Option DexServer → Values → List Str → Action S (Unit {0})
  -- `time.Now`, in nanoseconds since the zero time of Go
  pub clock : S → ℕ × S
