-- ===== src/Tests/Events.antt =====
-- The theorems on names and on the filters of events at concrete names and events.
use native.Mathlib.Decide.{ℕ_discrete}
use mathlib.Core.Logic.{ite}
use dex_operator.Common.{
  Assoc, Bool, List, Option, Str, [], arith, false, lit, lookup, refl, str_eq, true, ℕ, ◌++◌, ◌↔◌,
  ◌∷◌, ◌≡◌,
}
use dex_operator.Api.{ConnectorSpec, Deployment, DexClientSpec, DexServerSpec}
use dex_operator.Connectors.{copied_secret_name, env_variable_name}
use dex_operator.Connectors.Names.{
  IsBytes, copied_secret_name_collides, env_variable_name-injective,
}
use dex_operator.Restart.{UpdateEvent, is_new_restart, is_owned, restarted_at, update_func}
use dex_operator.Restart.Machine.{answers, machine_answers, answers-machine_answers, phases_of}
use dex_operator.Restart.Runs.{restart_ignored, run}
use dex_operator.Watch.{DeepEqual, IsEquality, handles_server_update}
use dex_operator.Watch.Updates.{handles_server_update-ignores}
use dex_operator.Tests.Cluster.{hub, odd_server, server}

abbrev renamed : ConnectorSpec
renamed = record hub { name = lit "renamed" }

same_variable : env_variable_name hub ≡ env_variable_name renamed
unfolding env_variable_name
same_variable = refl

h-IsBytes : IsBytes (lit "h")
unfolding lit
h-IsBytes = (omega arith, tt)

abbrev deployment_of : Str → ℕ → Assoc Str → Deployment
deployment_of name generation annotations = record {
  namespace = lit "d";
  name = name;
  owner_references = record { kind = lit "DexServer"; name = lit "s" } ∷ [];
  generation = generation;
  template_annotations = annotations;
}

-- The first restart of a deployment, at generation 2.
abbrev restart : UpdateEvent
restart = record {
  object_old = deployment_of (lit "s") 1 [];
  object_new = deployment_of (lit "s") 2 ((restarted_at, lit "now") ∷ []);
}

abbrev other_update : UpdateEvent
other_update = record {
  object_old = deployment_of (lit "t") 1 [];
  object_new = deployment_of (lit "t") 2 [];
}

abbrev scaled : UpdateEvent
scaled = record {
  object_old = deployment_of (lit "s") 2 ((restarted_at, lit "now") ∷ []);
  object_new = deployment_of (lit "s") 2 ((restarted_at, lit "now") ∷ []);
}

restart_is_owned : is_owned restart.object_old.owner_references ≡ true
unfolding is_owned lit str_eq
restart_is_owned = refl

restart_is_new : is_new_restart restart ≡ true
unfolding is_new_restart lookup lit str_eq
restart_is_new = refl

pub finalizers_discrete : Discrete (List Str)
finalizers_discrete = hlevel ℕ_discrete

pub timestamp_discrete : Discrete (Option ℕ)
timestamp_discrete = hlevel ℕ_discrete

pub server_spec_discrete : Discrete DexServerSpec
server_spec_discrete = hlevel ℕ_discrete

pub client_spec_discrete : Discrete DexClientSpec
client_spec_discrete = hlevel ℕ_discrete

abbrev decided : {A : Type 0} → Discrete A → A → A → Bool
decided d a b = ite (d a b) true false

decided_iff : {A : Type 0} (d : Discrete A) (a b : A) → (decided d a b ≡ true) ↔ (a ≡ b)
decided_iff d a b = (λ h. ground arith, λ h. ground arith)

abbrev pub deep_equal : DeepEqual
deep_equal = record {
  finalizers = decided finalizers_discrete;
  timestamp = decided timestamp_discrete;
  server_spec = decided server_spec_discrete;
  client_spec = decided client_spec_discrete;
}

pub deep_equal-IsEquality : IsEquality deep_equal
deep_equal-IsEquality = record {
  finalizers_iff = decided_iff finalizers_discrete;
  timestamp_iff = decided_iff timestamp_discrete;
  server_spec_iff = decided_iff server_spec_discrete;
  client_spec_iff = decided_iff client_spec_discrete;
}

env_variable_name-injective_example : (hub.type ≡ renamed.type) × (hub.id ≡ renamed.id)
env_variable_name-injective_example =
    env_variable_name-injective hub renamed refl refl h-IsBytes h-IsBytes same_variable

copied_secret_name_collides_example :
    copied_secret_name (lit "a") ((lit "b") ++ (lit "-" ++ (lit "c")))
    ≡ copied_secret_name ((lit "a") ++ (lit "-" ++ (lit "b"))) (lit "c")
copied_secret_name_collides_example = copied_secret_name_collides (lit "a") (lit "b") (lit "c")

restart_ignored_example : (update_func scaled (run (restart ∷ (other_update ∷ [])) [])).0 ≡ false
restart_ignored_example =
    restart_ignored restart scaled (other_update ∷ []) [] restart_is_owned restart_is_new
      ((λ same. refl), tt) refl refl

handles_server_update-ignores_example :
    (handles_server_update deep_equal server odd_server ≡ false) ↔ (
      (server.finalizers ≡ odd_server.finalizers)
      × (server.deletion_timestamp ≡ odd_server.deletion_timestamp)
      × (server.spec ≡ odd_server.spec))
handles_server_update-ignores_example =
    handles_server_update-ignores deep_equal deep_equal-IsEquality server odd_server

answers-machine_answers_example :
    answers (restart ∷ other_update ∷ scaled ∷ []) []
    ≡ machine_answers (restart ∷ other_update ∷ scaled ∷ []) (phases_of [])
answers-machine_answers_example = answers-machine_answers (restart ∷ other_update ∷ scaled ∷ []) []
