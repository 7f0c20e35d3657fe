-- ===== src/Client/Progress.antt =====
-- What it takes to make the client of a DexClient in dex, and what is there before and after. The
-- child modules follow a pass on a cluster where calls do not fail: Credential its reads of the
-- credential, Creation its last part, Pass the whole of it.
pub mod Credential
pub mod Creation
pub mod Pass
use dex_operator.Common.{
  ◌≡◌, refl, ◌∙◌, sym, ap, Bool, true, false, none, some, Option, List, [], ◌∷◌, Str, lit, str_eq,
  ok, err, inl, inr, lookup, insert, has_key, is_empty, Action, branch, pure, ignore, ◌==◌, ◌>>=◌,
  ◌>>◌, ◌returning◌, if◌then◌else◌, ◌⊎◌, Does, Does-pure, Does-branch, Does-bind, Does-test,
  Does-option, Does-given, Does-ignore, Does-weaken, arith,
}
use mathlib.Core.Option
use dex_operator.Api.{Key, Secret, DexClient, DexClientSpec, client_key}
use dex_operator.World.{
  World, View, SecretContent, secret_content, secret_key, put_secret, put_client, put_client_status,
  put_oauth, ApiServer, DexLaws, Connection, OauthClient,
}
use dex_operator.World.Facts.{same_key_refl}
use dex_operator.World.Stable.{Seen}
use dex_operator.World.Reliable.{Reliable}
use dex_operator.World.Reliable.Calls.{
  get_secret-Does, update_secret-Does, update_client-Does, client_status-Does, create_client-Does,
}
use dex_operator.Conditions.{
  ExternLaws, is_oauth2_client_created, merge_status_conditions,
  update_dex_client_status_conditions,
}
use dex_operator.Secrets.{add_label}
use dex_operator.Server.Mtls.{secret_mtls_name}
use dex_operator.Server.Reconcile.{ReconcileResult, done}
use dex_operator.DexApi.{create_client, CreateClientError}
use dex_operator.Client.Credential.{
  SecretCheck, client_secret_key, with_hash, store_hash, get_hash_for_a_secret,
  has_client_secret_been_updated, check_and_add_label_to_client_secret,
  get_client_client_secret_from_ref, dex_client_secret_hash_annotation, dex_client_secret_label,
}
use dex_operator.Client.Oauth.{
  create_with_secret, create_oauth2_client, done_condition, created_condition,
}
use dex_operator.Client.Marks.{set_created}
use dex_operator.Client.Reconcile.{sync_oauth2_client}
use dex_operator.Client.Registration.{oauth_of}
use dex_operator.Client.Removal.Pass.{address}

-- A DexClient that is to be made in dex, with the secrets that a pass reads: `ours` of the
-- connection, and `held` with the credential.
pub record Request : Type 0 where
  pub client : DexClient
  pub ours : SecretContent
  pub held : SecretContent
  pub credential : Str

abbrev pub mtls_of : DexClient → Key
mtls_of m = record { namespace = m.namespace; name = secret_mtls_name }

-- The request is complete, and not yet met as far as the status says.
pub record Complete {S : Type 0} (w : World S) (q : Request) : Type 0 where
  pub live : q.client.deletion_timestamp ≡ none
  pub unmade : is_oauth2_client_created q.client.status.conditions ≡ false
  pub credential_there : lookup (lit "clientSecret") q.held.content ≡ some q.credential
  pub credential_not_empty : is_empty q.credential ≡ false
  pub id_not_empty : is_empty q.client.spec.client_id ≡ false

module _ (q : Request) where
  -- Nothing is registered for the DexClient, and everything is stored that a pass needs.
  abbrev pub Ready : View → Type 0
  Ready v =
      (v.dex_clients (client_key q.client) ≡ some q.client)
      × (v.secrets (mtls_of q.client) ≡ some q.ours)
      × (v.secrets (client_secret_key q.client) ≡ some q.held)
      × (v.dex (address q.client) q.client.spec.client_id ≡ none)

  abbrev pub IsStored : View → Type 0
  IsStored v = (n : DexClient) × (v.dex_clients (client_key q.client) ≡ some n)

  abbrev pub Unregistered : View → Type 0
  Unregistered v = IsStored v × (v.dex (address q.client) q.client.spec.client_id ≡ none)

  abbrev pub Checked : View → Type 0
  Checked v = (v.secrets (client_secret_key q.client) ≡ some q.held) × Unregistered v

  abbrev pub Made : View → Type 0
  Made v =
      IsStored v
      × (v.dex (address q.client) q.client.spec.client_id ≡ some (oauth_of q.client q.credential))

  -- Dex has the client, and the stored status says so.
  abbrev pub Met : View → Type 0
  Met v =
      ((n : DexClient) × (v.dex_clients (client_key q.client) ≡ some n)
        × (is_oauth2_client_created n.status.conditions ≡ true))
      × (v.dex (address q.client) q.client.spec.client_id ≡ some (oauth_of q.client q.credential))

  -- The object in memory stands for the DexClient.
  abbrev pub Stands : DexClient → Type 0
  Stands n =
      (client_key n ≡ client_key q.client)
      × (n.spec ≡ q.client.spec)
      × (is_oauth2_client_created n.status.conditions ≡ false)
