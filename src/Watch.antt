-- ===== src/Watch.antt =====
-- The event filters and the request mapping that `SetupWithManager` of both controllers installs.
-- `equality.Semantic.DeepEqual` is a parameter, at each of the types that it compares.
pub mod Updates
use dex_operator.Common.{
  ℕ, Str, List, [], Bool, true, Option, not, ◌||◌, ◌≡◌, ◌↔◌, has_key, Action, branch, pure, map,
}
use dex_operator.Api.{
  Key, Secret, DexServer, DexServerSpec, server_key, DexClient, DexClientSpec, client_key,
}
use dex_operator.World.{World}
use dex_operator.Secrets.{idp_credential_label}
use dex_operator.Client.Credential.{dex_client_secret_label}

pub record DeepEqual : Type 0 where
  pub finalizers : List Str → List Str → Bool
  pub timestamp : Option ℕ → Option ℕ → Bool
  pub server_spec : DexServerSpec → DexServerSpec → Bool
  pub client_spec : DexClientSpec → DexClientSpec → Bool

-- The comparison decides equality, where nil and empty slices are one value.
pub record IsEquality (q : DeepEqual) : Type 0 where
  pub finalizers_iff : (a b : List Str) → (q.finalizers a b ≡ true) ↔ (a ≡ b)
  pub timestamp_iff : (a b : Option ℕ) → (q.timestamp a b ≡ true) ↔ (a ≡ b)
  pub server_spec_iff : (a b : DexServerSpec) → (q.server_spec a b ≡ true) ↔ (a ≡ b)
  pub client_spec_iff : (a b : DexClientSpec) → (q.client_spec a b ≡ true) ↔ (a ≡ b)

-- The update filter for DexServers; creations pass it, deletions and generic events do not.
unfoldable pub handles_server_update : DeepEqual → DexServer → DexServer → Bool
handles_server_update q old new =
    not (q.finalizers old.finalizers new.finalizers)
    || not (q.timestamp old.deletion_timestamp new.deletion_timestamp)
    || not (q.server_spec old.spec new.spec)

unfoldable pub handles_client_update : DeepEqual → DexClient → DexClient → Bool
handles_client_update q old new =
    not (q.finalizers old.finalizers new.finalizers)
    || not (q.timestamp old.deletion_timestamp new.deletion_timestamp)
    || not (q.client_spec old.spec new.spec)

-- The filters for secrets look at the label of the new object.
unfoldable pub handles_idp_secret_update : Secret → Bool
handles_idp_secret_update new = has_key idp_credential_label new.labels

unfoldable pub handles_client_secret_update : Secret → Bool
handles_client_secret_update new = has_key dex_client_secret_label new.labels

module _ {S : Type 0} (w : World S) where
  -- One request for each resource; the error of the list call is dropped.
  unfoldable pub requests_for_servers : Action S (List Key)
  requests_for_servers =
      branch w.list_dex_servers (λ items. pure (map server_key items)) (λ _. pure [])

  unfoldable pub requests_for_clients : Action S (List Key)
  requests_for_clients =
      branch w.list_dex_clients (λ items. pure (map client_key items)) (λ _. pure [])
