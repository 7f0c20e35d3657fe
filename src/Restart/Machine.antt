-- ===== src/Restart/Machine.antt =====
-- The restart filter as an abstract machine: a phase for each deployment, whatever the map that
-- remembers the restarts looks like.
use dex_operator.Common.{
  ℕ, Str, List, [], ◌∷◌, Bool, true, false, Option, none, some, ◌≡◌, refl, ◌∙◌, ap, ◌==◌, str_eq,
  nat_beq, if◌then◌else◌, arith, lookup, erase, lookup-insert, lookup-erase,
}
use dex_operator.Restart.{
  UpdateEvent, Restarts, is_owned, is_new_restart, detect_restart, update_func,
}
use dex_operator.Restart.Runs.{name_of}

-- A deployment has no restart in progress, or one of a generation.
pub data Phase : Type 0 where
  settled : Phase
  restarting : ℕ → Phase

abbrev pub Phases : Type 0
Phases = Str → Phase

abbrev pub in_progress : Phase → ℕ → Bool
in_progress settled generation = false
in_progress (restarting g) generation = nat_beq g generation

abbrev pub set_phase : Str → Phase → Phases → Phases
set_phase name phase phases n = if n == name then phase else phases n

-- An update of a deployment that is not owned, or whose restart of this generation is in
-- progress, is ignored. A new restart is ignored too, and begins the phase. Any other update is
-- handled, and ends it.
unfoldable pub machine_step : UpdateEvent → Phases → Bool × Phases
machine_step e phases =
    if is_owned e.object_old.owner_references
    then (if in_progress (phases (name_of e)) e.object_new.generation
        then (false, phases)
        else if is_new_restart e
        then (false, set_phase (name_of e) (restarting e.object_new.generation) phases)
        else (true, set_phase (name_of e) settled phases))
    else (false, phases)

-- Which updates of a list are handled, by the machine and by the code.
pub machine_answers : List UpdateEvent → Phases → List Bool
machine_answers [] phases = []
machine_answers (e ∷ es) phases =
    (machine_step e phases).0 ∷ machine_answers es (machine_step e phases).1

pub answers : List UpdateEvent → Restarts → List Bool
answers [] restarts = []
answers (e ∷ es) restarts = (update_func e restarts).0 ∷ answers es (update_func e restarts).1

abbrev pub phase_of : Option ℕ → Phase
phase_of none = settled
phase_of (some g) = restarting g

-- The phases that a map of restarts stands for.
abbrev pub phases_of : Restarts → Phases
phases_of restarts n = phase_of (lookup n restarts)

step_answers :
    (e : UpdateEvent) (restarts : Restarts)
    → (update_func e restarts).0 ≡ (machine_step e (phases_of restarts)).0
unfolding update_func detect_restart machine_step
step_answers e restarts = ground arith

step_phases :
    (e : UpdateEvent) (restarts : Restarts) (n : Str)
    → phases_of (update_func e restarts).1 n ≡ (machine_step e (phases_of restarts)).1 n
unfolding update_func detect_restart machine_step
step_phases e restarts n = ground (
  arith,
  lookup-insert n (name_of e) e.object_new.generation restarts,
  lookup-insert n (name_of e) e.object_new.generation (erase (name_of e) restarts),
  lookup-erase n (name_of e) restarts,
)

-- The filter handles of every list of updates exactly those that the machine handles, from the
-- phases that its map stands for.
pub answers-machine_answers :
    (es : List UpdateEvent) (restarts : Restarts)
    → answers es restarts ≡ machine_answers es (phases_of restarts)
unfolding answers machine_answers
answers-machine_answers [] restarts = refl
answers-machine_answers (e ∷ es) restarts =
    let rest = answers-machine_answers es (update_func e restarts).1 in
    let same : phases_of (update_func e restarts).1 ≡ (machine_step e (phases_of restarts)).1 =
      λ i n. step_phases e restarts n i in
    rw (step_answers e restarts) (
      ap (λ bs. (machine_step e (phases_of restarts)).0 ∷ bs) (rest ∙ ap (machine_answers es) same))
