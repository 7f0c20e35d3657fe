-- ===== src/Restart.antt =====
-- `ignoreDeploymentRestartPredicate` of controllers/dexserver_controller.go: a filter of updates
-- of deployments that remembers the restarts in progress.
pub mod Runs
pub mod Machine
use dex_operator.Common.{
  ℕ, Str, List, [], ◌∷◌, ◌++◌, Bool, true, false, none, some, lit, Assoc, lookup, insert, erase,
  text_at, ◌==◌, str_eq, if◌then◌else◌, not, ◌||◌, nat_beq,
}
use dex_operator.Api.{Deployment, OwnerReference}

abbrev pub restarted_at : Str
restarted_at = lit "kubectl.kubernetes.io/restartedAt"

-- `event.UpdateEvent` on a deployment
pub record UpdateEvent : Type 0 where
  pub object_old : Deployment
  pub object_new : Deployment

-- `restartsInProgress`: generations by namespace and name
abbrev pub Restarts : Type 0
Restarts = Assoc ℕ

unfoldable pub namespaced_name : Deployment → Str
namespaced_name d = d.namespace ++ lit ":" ++ d.name

-- The first two tests: the first owner is a DexServer.
unfoldable pub is_owned : List OwnerReference → Bool
is_owned [] = false
is_owned (o ∷ _) = o.kind == lit "DexServer"

abbrev pub has_none : Assoc Str → Bool
has_none [] = true
has_none (_ ∷ _) = false

-- The new object has a restart annotation, and the old one lacks it or has another.
unfoldable pub is_new_restart : UpdateEvent → Bool
is_new_restart e = elim (lookup restarted_at e.object_new.template_annotations) [
  | none ↦ false
  | some t ↦
      has_none e.object_old.template_annotations
      || not (t == text_at restarted_at e.object_old.template_annotations)
]

-- The last part, once no restart of this generation is in progress.
unfoldable pub detect_restart : UpdateEvent → Restarts → Bool × Restarts
detect_restart e restarts =
    if is_new_restart e
    then (false, insert (namespaced_name e.object_new) e.object_new.generation restarts)
    else (true, restarts)

-- `UpdateFunc`: whether the update is handled, and the restarts that are remembered.
unfoldable pub update_func : UpdateEvent → Restarts → Bool × Restarts
update_func e restarts =
    if is_owned e.object_old.owner_references
    then elim (lookup (namespaced_name e.object_new) restarts) [
      | none ↦ detect_restart e restarts
      | some g ↦
          if nat_beq g e.object_new.generation
          then (false, restarts)
          else detect_restart e (erase (namespaced_name e.object_new) restarts)
    ]
    else (false, restarts)
