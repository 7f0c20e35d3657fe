-- ===== src/World/Reliable.antt =====
-- A cluster on which calls do not fail: reads of what is stored answer, objects that are stored can
-- be updated, and secrets that are not stored can be created. What the calls do is what the laws
-- of the API server and of dex say.
pub mod Calls
use dex_operator.Common.{
  ℕ, ◌+◌, ◌≡◌, ◌∙◌, sym, ap, subst, true, false, Bool-cases, inl, inr, none, some, ok, Str,
  is_empty, Does, Finishes, GoError, err, arith, ◌⊎◌, List, [], ◌∷◌, Option,
}
use mathlib.Core.Option.{some-injective}
use dex_operator.Api.{Key, Secret, ConfigMap, DexServer, DexConnectorSpec, DexClient, client_key}
use dex_operator.World.Templates.{Values, ApplyMode}
use dex_operator.World.Cryptography.{Certificate, PrivateKey}
use dex_operator.World.Dex.{Connection, CreateClientReq, CreateClientResp}
use dex_operator.World.Packages.{World}
use dex_operator.World.Spec.{View, SecretContent, secret_content, secret_key, put_secret, ApiServer}
use dex_operator.World.Promises.{put_client, put_client_status, put_oauth, DexLaws}
use dex_operator.World.Facts.{wrote, get_secret_found}
use dex_operator.World.Stable.{Seen}

pub record Reliable {S : Type 0} (w : World S) (view : S → View) : Type 0 where
  pub get_client_answers :
      (k : Key) (m : DexClient) (s : S)
      → (view s).dex_clients k ≡ some m
      → client_key m ≡ k
      → (n : DexClient) × ((w.get_dex_client k s).0 ≡ ok n)
  pub get_secret_answers :
      (k : Key) (c : SecretContent) (s : S)
      → (view s).secrets k ≡ some c
      → (x : Secret) × ((w.get_secret k s).0 ≡ ok x)
  pub get_secret_misses :
      (k : Key) (s : S)
      → (view s).secrets k ≡ none
      → (e : GoError) × ((w.get_secret k s).0 ≡ err e) × (e.not_found ≡ true)
  pub get_config_map_answers :
      (k : Key) (s : S)
      → ((x : ConfigMap) × ((w.get_config_map k s).0 ≡ ok x))
        ⊎ ((e : GoError) × ((w.get_config_map k s).0 ≡ err e) × (e.not_found ≡ true))
  pub apply_succeeds :
      (mode : ApplyMode) (owner : Option DexServer) (values : Values) (file : Str)
      → Finishes (w.apply mode owner values (file ∷ []))
  pub marshals_connectors :
      (ds : List DexConnectorSpec) → (t : Str) × (w.marshal_connectors ds ≡ ok t)
  pub marshals_secret : (x : Secret) → (t : Str) × (w.marshal_secret x ≡ ok t)
  pub marshals_config_map : (x : ConfigMap) → (t : Str) × (w.marshal_config_map x ≡ ok t)
  pub create_secret_succeeds :
      (x : Secret) (s : S)
      → (view s).secrets (secret_key x) ≡ none
      → (u : Unit {0}) × ((w.create_secret x s).0 ≡ ok u)
  pub generate_key_succeeds : (n : ℕ) → Finishes (w.generate_key n)
  pub create_certificate_succeeds :
      (template parent : Certificate) (key : Str) (signer : PrivateKey)
      → Finishes (w.create_certificate template parent key signer)
  pub update_secret_succeeds :
      (x : Secret) (old : SecretContent) (s : S)
      → (view s).secrets (secret_key x) ≡ some old
      → (y : Secret) × ((w.update_secret x s).0 ≡ ok y)
  -- the status in the answer is the stored one
  pub update_client_succeeds :
      (m old : DexClient) (s : S)
      → (view s).dex_clients (client_key m) ≡ some old
      → m.status ≡ old.status
      → (n : DexClient) × ((w.update_dex_client m s).0 ≡ ok n) × (n.status ≡ m.status)
  pub update_client_status_succeeds :
      (m old : DexClient) (s : S)
      → (view s).dex_clients (client_key m) ≡ some old
      → (n : DexClient) × ((w.update_dex_client_status m s).0 ≡ ok n)
  pub dial_succeeds :
      (host ca cert : Str) (s : S) → (c : Connection) × ((w.dial host ca cert s).0 ≡ ok c)
  pub create_client_succeeds :
      (c : Connection) (req : CreateClientReq) (s : S)
      → (r : CreateClientResp) × ((w.create_client c req s).0 ≡ ok r)
