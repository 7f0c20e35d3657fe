-- ===== src/Conditions.antt =====
-- Status conditions: `mergeStatusConditions` and its callers in controllers/dexserver_controller.go
-- and controllers/dexclient_controller.go.
pub mod Merge
use dex_operator.Common.{
  ◌≡◌, List, [], ◌∷◌, Bool, true, false, Option, none, some, Str, Action, ◌==◌, str_eq, ◌&&◌,
  if◌then◌else◌,
}
use dex_operator.Api.{
  Secret, Condition, ConditionStatus, condition_true, condition_false, condition_unknown, DexServer,
  DexClient, dex_client_condition_oauth2_client_created,
}
use dex_operator.World.{World, secret_key, secret_content}

abbrev pub is_true : ConditionStatus → Bool
is_true condition_true = true
is_true condition_false = false
is_true condition_unknown = false

abbrev pub same_status : ConditionStatus → ConditionStatus → Bool
same_status condition_true condition_true = true
same_status condition_false condition_false = true
same_status condition_unknown condition_unknown = true
same_status _ _ = false

-- The first condition of a type, as `meta.FindStatusCondition` reads a list.
unfoldable pub find_condition : Str → List Condition → Option Condition
find_condition t [] = none
find_condition t (c ∷ cs) = if c.type == t then some c else find_condition t cs

-- `isOAuth2ClientCreated`
unfoldable pub is_oauth2_client_created : List Condition → Bool
is_oauth2_client_created [] = false
is_oauth2_client_created (c ∷ cs) =
    if c.type == dex_client_condition_oauth2_client_created
    then is_true c.status
    else is_oauth2_client_created cs

-- The loop of `DexClientHasCondition`, on the type and the status of a condition.
unfoldable pub has_condition : Str → ConditionStatus → List Condition → Bool
has_condition t status [] = false
has_condition t status (c ∷ cs) =
    if t == c.type && same_status status c.status then true else has_condition t status cs

-- What the packages of `Extern` document: a condition replaces the one of its type, or is appended;
-- a finalizer that is added or removed is there or not, and the others stay; an owner reference
-- changes neither the name nor the content of a secret.
pub record ExternLaws {S : Type 0} (w : World S) : Type 0 where
  pub find-set :
      (cs : List Condition) (c : Condition) (t : Str)
      → find_condition t (w.set_status_condition cs c)
        ≡ (if c.type == t then some c else find_condition t cs)
  pub contains-add :
      (fs : List Str) (f g : Str)
      → w.contains_finalizer (w.add_finalizer fs f) g
        ≡ (if f == g then true else w.contains_finalizer fs g)
  pub contains-remove :
      (fs : List Str) (f g : Str)
      → w.contains_finalizer (w.remove_finalizer fs f) g
        ≡ (if f == g then false else w.contains_finalizer fs g)
  pub owner_keeps :
      (m : DexServer) (x : Secret)
      → (secret_key (w.set_controller_reference m x) ≡ secret_key x)
        × (secret_content (w.set_controller_reference m x) ≡ secret_content x)

module _ {S : Type 0} (w : World S) where
  unfoldable pub merge_status_conditions : List Condition → List Condition → List Condition
  merge_status_conditions merged [] = merged
  merge_status_conditions merged (c ∷ new) =
      merge_status_conditions (w.set_status_condition merged c) new

  unfoldable pub update_dex_server_status_conditions :
      DexServer → List Condition → Action S DexServer
  update_dex_server_status_conditions m new = w.update_dex_server_status (record m {
    status = record m.status { conditions = merge_status_conditions m.status.conditions new };
  })

  unfoldable pub update_dex_client_status_conditions :
      DexClient → List Condition → Action S DexClient
  update_dex_client_status_conditions m new = w.update_dex_client_status (record m {
    status = record m.status { conditions = merge_status_conditions m.status.conditions new };
  })
