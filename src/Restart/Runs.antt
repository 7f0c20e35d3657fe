-- ===== src/Restart/Runs.antt =====
-- Which updates the restart filter lets through, and how it treats one deployment along a run of
-- updates.
use dex_operator.Common.{
  ◌≡◌, ◌≢◌, ◌↔◌, true, false, List, [], ◌∷◌, some, arith, lookup, erase, lookup-insert,
  lookup-erase, Str,
}
use dex_operator.Restart.{
  UpdateEvent, Restarts, namespaced_name, is_owned, is_new_restart, detect_restart, update_func,
}

abbrev pub name_of : UpdateEvent → Str
name_of e = namespaced_name e.object_new

-- An update is handled exactly when the old deployment's first owner is a DexServer, no restart of
-- the new generation is remembered for the deployment, and the update is not itself a new restart.
pub update_func-handles :
    (e : UpdateEvent) (restarts : Restarts)
    → ((update_func e restarts).0 ≡ true) ↔ (
        (is_owned e.object_old.owner_references ≡ true)
        × (lookup (name_of e) restarts ≢ some e.object_new.generation)
        × (is_new_restart e ≡ false))
unfolding update_func detect_restart
update_func-handles e restarts =
    (λ h. (ground arith, ground arith, ground arith), λ h. ground arith)

-- The restarts that are remembered after a run of updates.
pub run : List UpdateEvent → Restarts → Restarts
run [] restarts = restarts
run (e ∷ es) restarts = run es (update_func e restarts).1

-- Every update of the deployment of `e` in the list has the generation of `e`.
abbrev pub SameGeneration : UpdateEvent → List UpdateEvent → Type 0
SameGeneration e [] = Unit
SameGeneration e (d ∷ es) =
    (name_of d ≡ name_of e → d.object_new.generation ≡ e.object_new.generation)
    × SameGeneration e es

remembered_step :
    (e d : UpdateEvent) (restarts : Restarts)
    → lookup (name_of e) restarts ≡ some e.object_new.generation
    → (name_of d ≡ name_of e → d.object_new.generation ≡ e.object_new.generation)
    → lookup (name_of e) (update_func d restarts).1 ≡ some e.object_new.generation
unfolding update_func detect_restart
remembered_step e d restarts h same = ground (
  arith,
  lookup-insert (name_of e) (name_of d) d.object_new.generation restarts,
  lookup-insert (name_of e) (name_of d) d.object_new.generation (erase (name_of d) restarts),
  lookup-erase (name_of e) (name_of d) restarts,
)

remembered_run :
    (e : UpdateEvent) (es : List UpdateEvent) (restarts : Restarts)
    → lookup (name_of e) restarts ≡ some e.object_new.generation
    → SameGeneration e es
    → lookup (name_of e) (run es restarts) ≡ some e.object_new.generation
unfolding run
remembered_run e [] restarts h same = h
remembered_run e (d ∷ es) restarts h same =
    remembered_run e es (update_func d restarts).1 (remembered_step e d restarts h same.0) same.1

restart_remembered :
    (e : UpdateEvent) (restarts : Restarts)
    → is_owned e.object_old.owner_references ≡ true
    → is_new_restart e ≡ true
    → lookup (name_of e) (update_func e restarts).1 ≡ some e.object_new.generation
unfolding update_func detect_restart
restart_remembered e restarts owned new = ground (
  arith,
  lookup-insert (name_of e) (name_of e) e.object_new.generation restarts,
  lookup-insert (name_of e) (name_of e) e.object_new.generation (erase (name_of e) restarts),
)

ignored_of_remembered :
    (d : UpdateEvent) (restarts : Restarts)
    → lookup (name_of d) restarts ≡ some d.object_new.generation
    → (update_func d restarts).0 ≡ false
unfolding update_func
ignored_of_remembered d restarts h = ground arith

-- Once a new restart of an owned deployment has been seen, every later update of that deployment
-- at the same generation is ignored, whatever updates of other deployments, and of this one at
-- that generation, come in between.
pub restart_ignored :
    (e later : UpdateEvent) (es : List UpdateEvent) (restarts : Restarts)
    → is_owned e.object_old.owner_references ≡ true
    → is_new_restart e ≡ true
    → SameGeneration e es
    → name_of later ≡ name_of e
    → later.object_new.generation ≡ e.object_new.generation
    → (update_func later (run (e ∷ es) restarts)).0 ≡ false
unfolding run
restart_ignored e later es restarts owned new same name generation = ignored_of_remembered later _ (
    rw (name, generation)
      (remembered_run e es (update_func e restarts).1 (restart_remembered e restarts owned new)
        same))
