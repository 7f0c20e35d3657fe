-- ===== src/World/Holds.antt =====
-- A secret that is stored stays stored: no call of the controllers deletes one.
use dex_operator.Common.{◌≡◌, refl, Option, some, inl, inr, Str, Bool-cases}
use dex_operator.Api.{Key, Secret}
use dex_operator.World.Packages.{World}
use dex_operator.World.Spec.{View, SecretContent, secret_content, secret_key, same_key, put_secret}
use dex_operator.World.Stable.{ServerStable, ClientStable, Seen}
use dex_operator.World.Updates.{ServerUpdates, ClientUpdates}

-- A secret is stored under the key.
abbrev pub HasSecret : Key → (Key → Option SecretContent) → Type 0
HasSecret k secrets = (d : SecretContent) × (secrets k ≡ some d)

put_secret-HasSecret :
    (x : Secret) (v : View) (k : Key) → HasSecret k v.secrets → HasSecret k (put_secret x v).secrets
put_secret-HasSecret x v k (d, stored) = elim (Bool-cases (same_key k (secret_key x))) [
  | inl same ↦ (secret_content x, rw same refl)
  | inr other ↦ (d, rw other stored)
]

abbrev pub HasSecretAt : Key → View → Type 0
HasSecretAt k v = HasSecret k v.secrets

pub HasSecretAt-ServerStable : (k : Key) → ServerStable (HasSecretAt k)
HasSecretAt-ServerStable k = record {
  secret = λ x v. put_secret-HasSecret x v k;
  applied = λ file values v h. h;
  binding = λ n v h. h;
  server_status = λ m v h. h;
}

pub HasSecretAt-ClientStable : (k : Key) → ClientStable (HasSecretAt k)
HasSecretAt-ClientStable k = record {
  secret = λ x v. put_secret-HasSecret x v k;
  client_status = λ m v h. h;
  dex = λ d v h. h;
  connections = λ n v h. h;
}

abbrev pub Holds : {S : Type 0} → (S → View) → Key → S → Type 0
Holds view k = Seen view (HasSecretAt k)

-- A condition on a resource that any of them meets.
abbrev pub Any : {A : Type 0} → A → Type 0
Any _ = Unit

pub HasSecretAt-ServerUpdates :
    {S : Type 0} (w : World S) (f : Str) (k : Key) → ServerUpdates w f (HasSecretAt k) Any
HasSecretAt-ServerUpdates w f k = record {
  read = λ m v stored h. tt;
  finalized = λ m misses a. tt;
  released = λ m t deleted a. tt;
  updated = λ m v a h. h;
}

pub HasSecretAt-ClientUpdates :
    {S : Type 0} (w : World S) (f : Str) (k : Key) → ClientUpdates w f (HasSecretAt k) Any
HasSecretAt-ClientUpdates w f k = record {
  read = λ m v stored h. tt;
  finalized = λ m misses a. tt;
  released = λ m t deleted a. tt;
  annotated = λ m xs a. tt;
  answered = λ m n key spec deletion finalizers a. tt;
  updated = λ m v a h. h;
}
