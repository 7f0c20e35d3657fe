-- ===== src/Conditions/Merge.antt =====
-- What `mergeStatusConditions` leaves, by the type of a condition, and how the flag of a client
-- is read from it.
use dex_operator.Common.{
  ◌≡◌, refl, ◌∙◌, Bool, false, Option, none, some, List, [], ◌∷◌, Str, ◌==◌, str_eq, if◌then◌else◌,
  arith,
}
use dex_operator.Api.{Condition, dex_client_condition_oauth2_client_created}
use dex_operator.World.{World}
use dex_operator.Conditions.{
  ExternLaws, find_condition, merge_status_conditions, is_true, is_oauth2_client_created,
}

-- The last condition of a type in a list of new conditions, or else what was there.
unfoldable pub latest : Str → Option Condition → List Condition → Option Condition
latest t old [] = old
latest t old (c ∷ new) = latest t (if c.type == t then some c else old) new

module _ {S : Type 0} (w : World S) (E : ExternLaws w) where
  -- Merging conditions one after the other leaves, of each type, the last of the new conditions
  -- of the type, and where there is none, the one that was there.
  pub find-merge :
      (t : Str) (old new : List Condition)
      → find_condition t (merge_status_conditions w old new) ≡ latest t (find_condition t old) new
  unfolding merge_status_conditions latest
  find-merge t old [] = refl
  find-merge t old (c ∷ new) =
      find-merge t (w.set_status_condition old c) new ∙ rw (E.find-set old c t) refl

abbrev pub flag_of : Option Condition → Bool
flag_of none = false
flag_of (some c) = is_true c.status

-- The loop that looks for the flag of a client gives the status of the condition that
-- `meta.FindStatusCondition` finds.
pub is_created-find :
    (cs : List Condition)
    → is_oauth2_client_created cs
      ≡ flag_of (find_condition dex_client_condition_oauth2_client_created cs)
unfolding is_oauth2_client_created find_condition
is_created-find [] = refl
is_created-find (c ∷ cs) = ground (arith, is_created-find cs)

module _ {S : Type 0} (w : World S) (E : ExternLaws w) where
  -- After new conditions are merged, the flag of a client is the status of the last of them that
  -- is of its type, and where there is none, the flag that was there.
  pub is_created-merge :
      (old new : List Condition)
      → is_oauth2_client_created (merge_status_conditions w old new)
        ≡ flag_of (
            latest dex_client_condition_oauth2_client_created
              (find_condition dex_client_condition_oauth2_client_created old)
              new)
  is_created-merge old new = is_created-find _ ∙ rw (find-merge w E _ old new) refl
