-- ===== src/Engine/Scheduler/Locks.antt =====
-- Path and resource locks: what it means that two steps may run at the same time.
use pi_build_conductor.Prelude.{
  String, false, List, [], ◌∷◌, ◌++◌, ◌≡◌, arith, any, includes, flat_map, All, any-false,
  any-append, flat_map-append, includes-append, append-nil, string_eq,
}
use pi_build_conductor.Domain.Steps.{StepDefinition, step_path_locks, step_resource_locks}
use pi_build_conductor.Engine.Scheduler.{
  HeldLocks, path_locks_conflict, conflicts_with_held_locks, hold_locks,
}

-- Two steps hold no path locks that contain one another, and no common resource lock.
abbrev pub Compatible : StepDefinition → StepDefinition → Type 0
Compatible a b =
    All (λ x. All (λ y. path_locks_conflict x y ≡ false) (step_path_locks b)) (step_path_locks a)
    × All (λ x. includes x (step_resource_locks b) ≡ false) (step_resource_locks a)

-- The locks of a list of steps.
abbrev pub locks_of : List StepDefinition → HeldLocks
locks_of steps = record {
  paths = flat_map step_path_locks steps;
  resources = flat_map step_resource_locks steps;
}

pub hold_locks-locks_of :
    (steps : List StepDefinition) (step : StepDefinition)
    → hold_locks (locks_of steps) step ≡ locks_of (steps ++ step ∷ [])
unfolding hold_locks
hold_locks-locks_of steps step =
    rw (flat_map-append step_path_locks steps (step ∷ []))
      (rw (flat_map-append step_resource_locks steps (step ∷ [])) (simp append-nil))

free_paths :
    (locks : List String) (b : StepDefinition) (rest : List String)
    → All (λ x. any (λ y. path_locks_conflict x y) (step_path_locks b ++ rest) ≡ false) locks
    → All (λ x. All (λ y. path_locks_conflict x y ≡ false) (step_path_locks b)) locks
      × All (λ x. any (λ y. path_locks_conflict x y) rest ≡ false) locks
free_paths [] b rest h = (tt, tt)
free_paths (x ∷ locks) b rest h =
    let (here, later) = free_paths locks b rest h.1 in
    let split = any-append (λ y. path_locks_conflict x y) (step_path_locks b) rest in
    (
      (
        any-false (λ y. path_locks_conflict x y) (step_path_locks b) (ground (arith, split, h.0)),
        here,
      ),
      (ground (arith, split, h.0), later),
    )

free_resources :
    (locks xs rest : List String)
    → All (λ x. includes x (xs ++ rest) ≡ false) locks
    → All (λ x. includes x xs ≡ false) locks × All (λ x. includes x rest ≡ false) locks
free_resources [] xs rest h = (tt, tt)
free_resources (x ∷ locks) xs rest h =
    let (here, later) = free_resources locks xs rest h.1 in
    let split = includes-append x xs rest in
    ((ground (arith, split, h.0), here), (ground (arith, split, h.0), later))

free-Compatible :
    (step : StepDefinition) (steps : List StepDefinition)
    → All
        (λ x. any (λ y. path_locks_conflict x y) (flat_map step_path_locks steps) ≡ false)
        (step_path_locks step)
    → All (λ x. includes x (flat_map step_resource_locks steps) ≡ false) (step_resource_locks step)
    → All (Compatible step) steps
free-Compatible step [] hp hr = tt
free-Compatible step (b ∷ steps) hp hr =
    let (paths, paths') = free_paths (step_path_locks step) b (flat_map step_path_locks steps) hp in
    let (resources, resources') =
      free_resources (step_resource_locks step) (step_resource_locks b)
        (flat_map step_resource_locks steps) hr in
    ((paths, resources), free-Compatible step steps paths' resources')

-- A step without conflict is compatible with every step whose locks are held.
pub no_conflict-Compatible :
    (step : StepDefinition) (steps : List StepDefinition)
    → conflicts_with_held_locks step (locks_of steps) ≡ false
    → All (Compatible step) steps
unfolding conflicts_with_held_locks
no_conflict-Compatible step steps h =
    free-Compatible step steps (any-false _ (step_path_locks step) (ground arith))
      (any-false _ (step_resource_locks step) (ground arith))
