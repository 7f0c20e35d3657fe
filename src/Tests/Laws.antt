-- ===== src/Tests/Laws.antt =====
-- The world in memory meets every law.
use dex_operator.Common.{
  ◌≡◌, refl, List, [], ◌∷◌, Bool, true, false, Option, none, some, ok, Str, ◌==◌, str_eq,
  if◌then◌else◌, arith, Bool-cases, inl, inr,
}
use dex_operator.Api.{Key, Condition, DexServer, server_key, DexClient, client_key}
use dex_operator.World.{
  View, SecretContent, same_key, Finds, secret_content, secret_key, ApiServer, OauthClient,
  CreateClientResp, Created, Deleted, DexLaws, TimeLaws,
}
use dex_operator.World.Facts.{same_key-eq-true, same_key_refl}
use dex_operator.World.Reliable.{Reliable}
use dex_operator.Conditions.{ExternLaws, find_condition}
use dex_operator.Tests.Memory.{
  not_found, all_of, client_at, contains, dex_creates, dex_deletes, memory, refusing, remove,
  secret_at, server_at, set_condition, world,
}

Finds-secret :
    (k : Key) (o : Option SecretContent)
    → Finds (λ x. secret_key x ≡ k) (secret_at k o) o secret_content
Finds-secret k none = λ _. refl
Finds-secret k (some c) = (refl, refl)

Finds-server :
    (k : Key) (o : Option DexServer) → Finds (λ x. server_key x ≡ k) (server_at k o) o (λ x. x)
Finds-server k none = λ _. refl
Finds-server k (some m) = elim (Bool-cases (same_key (server_key m) k)) [
  | inl same ↦ rw same (same_key-eq-true (server_key m) k same, refl)
  | inr other ↦ rw other (λ bad. absurd (cc))
]

pub world_server : (refuses : Bool) → ApiServer (world refuses) all_of
world_server refuses = record {
  get_secret_reads = λ k v. refl;
  get_secret_finds = λ k v. Finds-secret k (v.secrets k);
  create_secret_writes = λ x v. refl;
  update_secret_writes = λ x v. refl;
  update_secret_answers = λ x y v h. (ground arith, ground arith);
  get_binding_reads = λ n v. ground arith;
  get_binding_names = λ n v b h. ground arith;
  get_binding_missing = λ n v h missing. ground arith;
  delete_binding_writes = λ b v. ground arith;
  get_server_reads = λ k v. refl;
  get_server_finds = λ k v. Finds-server k (v.dex_servers k);
  update_server_writes = λ m v. refl;
  update_server_answers = λ m n v h. (ground arith, ground arith, ground arith);
  update_status_writes = λ m v. refl;
  update_status_answers = λ m n v h. (ground arith, ground arith);
  get_config_map_reads = λ k v. refl;
  get_deployment_reads = λ k v. refl;
  apply_writes = λ mode owner values file v. refl;
  clock_reads = λ v. refl;
  rand_int_reads = λ n v. refl;
  generate_key_reads = λ n v. refl;
  create_certificate_reads = λ template parent key signer v. refl;
}

find-set_condition :
    (cs : List Condition) (c : Condition) (t : Str)
    → find_condition t (set_condition cs c) ≡ (if c.type == t then some c else find_condition t cs)
unfolding find_condition
find-set_condition [] c t = refl
find-set_condition (d ∷ ds) c t = ground (arith, find-set_condition ds c t)

contains-remove_finalizer :
    (fs : List Str) (f g : Str)
    → contains (remove fs f) g ≡ (if f == g then false else contains fs g)
contains-remove_finalizer [] f g = ground arith
contains-remove_finalizer (h ∷ fs) f g = ground (arith, contains-remove_finalizer fs f g)

pub memory_laws : ExternLaws memory
memory_laws = record {
  find-set = find-set_condition;
  contains-add = λ fs f g. ground arith;
  contains-remove = contains-remove_finalizer;
  owner_keeps = λ m x. (refl, refl);
}

pub memory_server : ApiServer memory all_of
memory_server = world_server false

pub refusing_server : ApiServer refusing all_of
refusing_server = world_server true

Finds-client :
    (k : Key) (o : Option DexClient) → Finds (λ x. client_key x ≡ k) (client_at k o) o (λ x. x)
Finds-client k none = λ _. refl
Finds-client k (some m) = elim (Bool-cases (same_key (client_key m) k)) [
  | inl same ↦ rw same (same_key-eq-true (client_key m) k same, refl)
  | inr other ↦ rw other (λ bad. absurd (cc))
]

dex_creates-Created :
    (target : Str) (d : OauthClient) (v : View) (o : Option OauthClient)
    → v.dex target d.id ≡ o
    → Created target d.id (dex_creates target d o v).0 v (dex_creates target d o v).1
dex_creates-Created target d v none found = (λ bad. absurd (cc), λ _. refl)
dex_creates-Created target d v (some old) found = (λ _. (refl, (old, found)), λ bad. absurd (cc))

dex_deletes-Deleted :
    (target id : Str) (v : View) (o : Option OauthClient)
    → v.dex target id ≡ o
    → Deleted target id (dex_deletes target id o v).0 v (dex_deletes target id o v).1
dex_deletes-Deleted target id v none found = (λ _. (refl, found), λ bad. absurd (cc))
dex_deletes-Deleted target id v (some old) found = (λ bad. absurd (cc), λ _. refl)

dex_creates-answers :
    (target : Str) (d : OauthClient) (v : View) (o : Option OauthClient) {r : CreateClientResp}
    → (dex_creates target d o v).0 ≡ ok r
    → r.client ≡ d
dex_creates-answers target d v none h = ground arith
dex_creates-answers target d v (some old) h = ground arith

pub memory_dex : DexLaws memory all_of
memory_dex = record {
  get_client_reads = λ k v. refl;
  get_client_finds = λ k v. Finds-client k (v.dex_clients k);
  update_client_writes = λ m v. refl;
  update_client_answers = λ m n v h. (ground arith, ground arith, ground arith, ground arith);
  update_client_status_writes = λ m v. refl;
  dial_opens = λ host ca cert v. refl;
  dial_reaches = λ host ca cert v h. ground arith;
  close_closes = λ c v. refl;
  create_client_writes =
      λ c req v. dex_creates-Created c.target req.client v (v.dex c.target req.client.id) refl;
  create_client_answers = λ c req v h fresh id secret.
      dex_creates-answers c.target req.client v (v.dex c.target req.client.id) h;
  update_client_changes = λ c req v. refl;
  delete_client_writes =
      λ c req v. dex_deletes-Deleted c.target req.id v (v.dex c.target req.id) refl;
}

pub memory_time : TimeLaws memory
memory_time = record {
  clock_goes_on = λ v. omega arith;
  parse-format = λ t. refl;
  parse_nothing = refl;
}

answer_found :
    (k : Key) (m : DexClient) (o : Option DexClient)
    → o ≡ some m
    → client_key m ≡ k
    → (n : DexClient) × (client_at k o ≡ ok n)
answer_found k m o stored key = (m, rw (stored, key, same_key_refl) refl)

made_or_found :
    (t : Str) (d : OauthClient) (o : Option OauthClient) (v : View)
    → (r : CreateClientResp) × ((dex_creates t d o v).0 ≡ ok r)
made_or_found t d none v = (_, refl)
made_or_found t d (some old) v = (_, refl)

pub memory-Reliable : Reliable memory all_of
memory-Reliable = record {
  get_client_answers = λ k m v stored key. answer_found k m (v.dex_clients k) stored key;
  get_secret_answers = λ k c v stored. rw stored (_, refl);
  get_secret_misses = λ k v gone. (not_found, rw gone refl, refl);
  get_config_map_answers = λ k v. inr (not_found, refl, refl);
  apply_succeeds = λ mode owner values file. record { ends = λ v. (tt, refl) };
  marshals_connectors = λ ds. (_, refl);
  marshals_secret = λ x. (_, refl);
  marshals_config_map = λ x. (_, refl);
  create_secret_succeeds = λ x v absent. (tt, refl);
  generate_key_succeeds = λ n. record { ends = λ v. (_, refl) };
  create_certificate_succeeds = λ template parent key signer. record { ends = λ v. (_, refl) };
  update_secret_succeeds = λ x old v stored. (x, refl);
  update_client_succeeds = λ m old v stored same. (m, refl, refl);
  update_client_status_succeeds = λ m old v stored. (m, refl);
  dial_succeeds = λ host ca cert v. (_, refl);
  create_client_succeeds =
      λ c req v. made_or_found c.target req.client (v.dex c.target req.client.id) v;
}
