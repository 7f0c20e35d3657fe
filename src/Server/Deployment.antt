-- ===== src/Server/Deployment.antt =====
-- `syncDeployment`: what the deployment takes from the secrets and the configuration.
pub mod Applies
pub mod Preserved
pub mod Sure
pub mod Skips
pub mod Wiring
use dex_operator.Common.{
  branch, pure, Str, List, [], ◌∷◌, ◌++◌, Option, none, some, Result, ok, err, panic, lit, is_empty,
  hex_encode, text_at, Action, raise, lift, ◌>>=◌, if◌then◌else◌,
}
use dex_operator.Api.{
  EnvVar, Volume, VolumeMount, DexServer, server_key, ConnectorSpec, github, ldap, microsoft, oidc,
  other, SecretReference,
}
use dex_operator.World.{World, deployment_values, deployments}
use dex_operator.Connectors.{copied_secret_name, env_variable_name, env_variable_for_connector}
use dex_operator.Secrets.{error_of, get_connector_secret_from_ref}
use dex_operator.Server.Mtls.{get_mtls_secret, secret_mtls_name, mtls_cert_expiry_annotation}
use dex_operator.Server.Resources.{service_account_name, tls_secret_name}

abbrev pub dex_image_env_name : Str
dex_image_env_name = lit "RELATED_IMAGE_DEX"

-- The variables that the loop over the connectors appends to.
pub record Extras : Type 0 where
  pub volume_mounts : List VolumeMount
  pub volumes : List Volume
  pub env_variables : List EnvVar
  pub root_ca_hash : Str
  pub connector_creds_hash : Str

abbrev pub no_extras : Extras
no_extras = record {
  volume_mounts = [];
  volumes = [];
  env_variables = [];
  root_ca_hash = [];
  connector_creds_hash = [];
}

abbrev pub deployment_file : Str
deployment_file = lit "dex-server/deployment.yaml"

-- The name under which the deployment looks for a copied secret.
abbrev pub copied_name : SecretReference → Str
copied_name ref = copied_secret_name ref.namespace ref.name

abbrev pub add_env_variable : Option EnvVar → Extras → Extras
add_env_variable none acc = acc
add_env_variable (some v) acc = record acc { env_variables = acc.env_variables ++ v ∷ [] }

-- A failed `yaml.Marshal` is logged, and leaves no text.
abbrev pub text_or_empty : Result Str → Str
text_or_empty (ok t) = t
text_or_empty (err _) = []
text_or_empty panic = []

-- The text of a list, which is only made where the list has an entry.
abbrev pub yaml_of : {A : Type 0} → (List A → Result Str) → List A → Str
yaml_of marshal [] = []
yaml_of marshal (x ∷ xs) = text_or_empty (marshal (x ∷ xs))

module _ {S : Type 0} (w : World S) where
  unfoldable pub get_dex_image_pull_spec : Result Str
  get_dex_image_pull_spec =
      let image = w.getenv dex_image_env_name in
      if is_empty image
      then err (
          error_of (
            lit "required environment variable "
            ++ dex_image_env_name
            ++ lit " is empty or not set"))
      else ok image

  -- `%x` of the checksum
  abbrev pub hash_of : Str → Str
  hash_of text = hex_encode (w.sha256 text)

  -- `getEnvironmentVariableForSecret`. There is no variable until the secret exists.
  unfoldable pub get_environment_variable_for_secret :
      DexServer → Str → ConnectorSpec → Action S (Option EnvVar)
  get_environment_variable_for_secret m secret_name c =
      branch (w.get_secret (record { namespace = m.namespace; name = secret_name }))
        (λ _. pure (
          some (record {
            name = env_variable_name c;
            secret_name = secret_name;
            secret_key = (env_variable_for_connector c.type).secret_key;
          })))
        (λ e. if e.not_found then pure none else raise e)

  -- The root CA of an LDAP connector: its hash, and a volume with its mount.
  unfoldable pub add_root_ca : DexServer → ConnectorSpec → Extras → Action S Extras
  add_root_ca m c acc = if is_empty c.ldap.root_ca_ref.name then pure acc else (do
    let secret_name = copied_name c.ldap.root_ca_ref
    branch (w.get_secret (record { namespace = m.namespace; name = secret_name }))
        (λ secret. do
          json ← lift (w.marshal_secret secret)
          pure (record acc {
            root_ca_hash = acc.root_ca_hash ++ hash_of json;
            volumes =
                acc.volumes
                ++ record { name = lit "ldapcerts-" ++ c.id; secret_name = secret_name } ∷ [];
            volume_mounts =
                acc.volume_mounts
                ++ record {
                  name = lit "ldapcerts-" ++ c.id;
                  mount_path = lit "/etc/dex/ldapcerts/" ++ c.id;
                }
                  ∷ [];
          }))
        (λ e. if e.not_found then pure acc else raise e))

  -- The second half of a round of the loop, from the environment variable on.
  unfoldable pub add_credential : DexServer → Str → ConnectorSpec → Extras → Action S Extras
  add_credential m secret_name c acc = do
    variable ← get_environment_variable_for_secret m secret_name c
    credential ← get_connector_secret_from_ref w c m
    let acc' = add_env_variable variable acc
    pure (record acc' { connector_creds_hash = acc'.connector_creds_hash ++ hash_of credential })

  -- One round of the loop; nothing where the whole function returns at once.
  unfoldable pub visit_connector : DexServer → ConnectorSpec → Extras → Action S (Option Extras)
  visit_connector m c acc = elim c.type [
    | github ↦
        add_credential m (copied_name c.github.client_secret_ref) c acc >>= λ x. pure (some x)
    | microsoft ↦
        add_credential m (copied_name c.microsoft.client_secret_ref) c acc >>= λ x. pure (some x)
    | ldap ↦ do
      acc' ← add_root_ca m c acc
      x ← add_credential m (copied_name c.ldap.bind_pw_ref) c acc'
      pure (some x)
    | oidc ↦ add_credential m (copied_name c.oidc.client_secret_ref) c acc >>= λ x. pure (some x)
    | other _ ↦ pure none
  ]

  unfoldable pub visit_connectors :
      DexServer → List ConnectorSpec → Extras → Action S (Option Extras)
  visit_connectors m [] acc = pure (some acc)
  visit_connectors m (c ∷ cs) acc = do
    found ← visit_connector m c acc
    elim found [ none ↦ pure none | some acc' ↦ visit_connectors m cs acc' ]

  -- The checksum of the stored configuration; none until it is stored.
  unfoldable pub dex_config_map_hash : DexServer → Action S Str
  dex_config_map_hash m =
      branch (w.get_config_map (server_key m))
        (λ config. do json ← lift (w.marshal_config_map config); pure (hash_of json))
        (λ e. if e.not_found then pure [] else raise e)

  unfoldable pub mtls_secret_expiry : DexServer → Action S Str
  mtls_secret_expiry m =
      branch (get_mtls_secret w m)
        (λ secret. pure (text_at mtls_cert_expiry_annotation secret.annotations))
        (λ e.
          if e.not_found
          then pure []
          else raise (w.wrap e (lit "error getting dex server grpc mtls secret")))

  -- The last part, once the loop has gone through every connector.
  unfoldable pub apply_deployment : DexServer → Str → Extras → Action S (Unit {0})
  apply_deployment m image extras = do
    config_hash ← dex_config_map_hash m
    expiry ← mtls_secret_expiry m
    w.apply deployments (some m)
        (deployment_values (record {
          dex_image = image;
          dex_config_map_hash = config_hash;
          root_ca_hash = extras.root_ca_hash;
          connector_credentials_hash = extras.connector_creds_hash;
          service_account_name = service_account_name;
          tls_secret_name = tls_secret_name m;
          mtls_secret_name = secret_mtls_name;
          mtls_secret_expiry = expiry;
          dex_server = m;
          additional_env_variables = yaml_of w.marshal_env_vars extras.env_variables;
          additional_volume_mounts = yaml_of w.marshal_volume_mounts extras.volume_mounts;
          additional_volumes = yaml_of w.marshal_volumes extras.volumes;
        }))
        (deployment_file ∷ [])

  unfoldable pub sync_deployment : DexServer → Action S (Unit {0})
  sync_deployment m = do
    image ← lift get_dex_image_pull_spec
    found ← visit_connectors m m.spec.connectors no_extras
    elim found [ none ↦ pure tt | some extras ↦ apply_deployment m image extras ]
