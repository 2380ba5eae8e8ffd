-- ===== src/Engine/Scheduler/Launch/Safe.antt =====
-- The guarantees of `launchableStepIds` of src/engine/scheduler.ts.
use pi_build_conductor.Prelude.{
  ℕ, ◌+◌, ◌-◌, ◌≤◌, String, true, not, ◌||◌, List, [], ◌∷◌, ◌++◌, Option, none, some, get, ◌≡◌,
  refl, sym, subst, arith, inl, inr, All, all-true, All-map, is_some, string_eq, ok-injective, ◌∙◌,
  includes, ok, includes,
}
use pi_build_conductor.Domain.Types.{RunCapabilityProfiles}
use pi_build_conductor.Domain.Steps.{StepDefinition}
use pi_build_conductor.Engine.Workspaces.{step_requires_integration}
use pi_build_conductor.Engine.State.{StepRunState, WorkflowStepRecord, WorkflowRunState}
use pi_build_conductor.Engine.Scheduler.{
  step_satisfies_dependents, satisfies, running_records, definitions_of, held_locks_of,
  occupied_slots, launchable_step_ids, reconcile_workflow_steps, topological_step_ids,
}
use pi_build_conductor.Engine.Scheduler.Reconcile.{IsJustified, reconcile_ids-IsJustified}
use pi_build_conductor.Engine.Scheduler.Locks.{locks_of}
use pi_build_conductor.Engine.Scheduler.Launch.{
  slots_used, slots_used-select, StartsTogether, select-StartsTogether, tracked_ids,
  launchable_inversion,
}

held_locks-locks_of :
    (steps : List WorkflowStepRecord) → held_locks_of steps ≡ locks_of (definitions_of steps)
unfolding held_locks_of
held_locks-locks_of steps = refl

-- A dependency that lets its dependents start: it succeeded, and is integrated if it can mutate.
abbrev pub IsFinished : RunCapabilityProfiles → Option WorkflowStepRecord → Type 0
IsFinished profiles o =
    (step : WorkflowStepRecord) × (o ≡ some step)
    × (step.state ≡ StepRunState.succeeded)
    × ((not (step_requires_integration profiles step.definition) || is_some step.integrated_commit)
        ≡ true)

satisfied_parts :
    (profiles : RunCapabilityProfiles) (step : WorkflowStepRecord)
    → step_satisfies_dependents profiles step ≡ true
    → (step.state ≡ StepRunState.succeeded)
      × ((not (step_requires_integration profiles step.definition)
            || is_some step.integrated_commit)
          ≡ true)
unfolding step_satisfies_dependents
satisfied_parts profiles step h = (ground arith, ground arith)

reconciled-IsJustified :
    (state : WorkflowRunState) (id : String)
    → includes id (topological_step_ids state.plan) ≡ true
    → IsJustified state.capability_profiles (reconcile_workflow_steps state).steps id
unfolding reconcile_workflow_steps
reconciled-IsJustified state id m =
    reconcile_ids-IsJustified state.capability_profiles (topological_step_ids state.plan) id
      state.steps m

satisfies-IsFinished :
    (profiles : RunCapabilityProfiles) (o : Option WorkflowStepRecord)
    → satisfies profiles o ≡ true
    → IsFinished profiles o
satisfies-IsFinished profiles none h = absurd (cc)
satisfies-IsFinished profiles (some step) h =
    let (done, integrated) = satisfied_parts profiles step h in (step, refl, done, integrated)

module _ (state : WorkflowRunState) (ids : List String)
    (selected : launchable_step_ids state ≡ ok ids) where
  -- If the selection returns these steps, each of them is in the plan's order, ready after
  -- reconciliation and without an active attempt, and its path and resource locks are compatible
  -- with those of every running step and of the steps selected before it.
  pub launchable-StartsTogether :
      StartsTogether state.capability_profiles
        (reconcile_workflow_steps state).steps
        (tracked_ids state)
        (topological_step_ids state.plan)
        (definitions_of (running_records (reconcile_workflow_steps state).steps))
        ids
  launchable-StartsTogether = elim (launchable_inversion state selected) [
    | inl e ↦ rw e tt
    | inr (occupied, _, e) ↦
        subst
          (λ l.
            StartsTogether state.capability_profiles (reconcile_workflow_steps state).steps
              (tracked_ids state) (topological_step_ids state.plan)
              (definitions_of (running_records (reconcile_workflow_steps state).steps)) l)
          (sym e)
          (rw (held_locks-locks_of (running_records (reconcile_workflow_steps state).steps)) (
            select-StartsTogether state.capability_profiles (reconcile_workflow_steps state).steps
              (tracked_ids state) (topological_step_ids state.plan)
              (definitions_of (running_records (reconcile_workflow_steps state).steps))
              (state.max_concurrent_workers - occupied)))
  ]

  -- If the selection returns these steps and the reconciled run occupies at most its allowed
  -- number of worker slots, the slots occupied and those that the selected steps take are
  -- together at most that number.
  pub launchable-slots :
      (occupied : ℕ)
      → occupied_slots (reconcile_workflow_steps state) ≡ ok occupied
      → occupied ≤ state.max_concurrent_workers
      → occupied + slots_used state.capability_profiles (reconcile_workflow_steps state).steps ids
        ≤ state.max_concurrent_workers
  launchable-slots occupied o h = elim (launchable_inversion state selected) [
    | inl e ↦ rw e (unfold slots_used in omega arith)
    | inr (n, o', e) ↦
        let same : n ≡ occupied = ok-injective (sym o' ∙ o) in
        rw e (
          omega (
            arith,
            same,
            slots_used-select state.capability_profiles (reconcile_workflow_steps state).steps
                (tracked_ids state) (topological_step_ids state.plan)
                (held_locks_of (running_records (reconcile_workflow_steps state).steps))
                (state.max_concurrent_workers - n),
          ))
  ]

  StartsTogether-IsFinished :
      (running : List StepDefinition) (chosen : List String)
      → StartsTogether state.capability_profiles
          (reconcile_workflow_steps state).steps
          (tracked_ids state)
          (topological_step_ids state.plan)
          running
          chosen
      → All
          (λ id.
            (step : WorkflowStepRecord) × (get id (reconcile_workflow_steps state).steps
              ≡ some step)
            × All
                (λ d.
                  IsFinished state.capability_profiles
                    (get d (reconcile_workflow_steps state).steps))
                step.definition.dependencies)
          chosen
  StartsTogether-IsFinished running [] h = tt
  StartsTogether-IsFinished running (id ∷ chosen) (step, e, m, r, a, c, h) = (
    (
      step,
      e,
      All-map
          (λ d.
            satisfies state.capability_profiles (get d (reconcile_workflow_steps state).steps)
            ≡ true)
          (λ d. IsFinished state.capability_profiles (get d (reconcile_workflow_steps state).steps))
          step.definition.dependencies
          (λ d.
            satisfies-IsFinished state.capability_profiles
              (get d (reconcile_workflow_steps state).steps))
          (all-true
            (λ d.
              satisfies state.capability_profiles (get d (reconcile_workflow_steps state).steps))
            step.definition.dependencies (reconciled-IsJustified state id m step e r)),
    ),
    StartsTogether-IsFinished (running ++ step.definition ∷ []) chosen h,
  )

  -- If the selection returns these steps, every dependency of each of them exists, has succeeded,
  -- and has an integrated commit if its authority can change the repository.
  pub launchable-IsFinished :
      All
        (λ id.
          (step : WorkflowStepRecord) × (get id (reconcile_workflow_steps state).steps ≡ some step)
          × All
              (λ d.
                IsFinished state.capability_profiles (get d (reconcile_workflow_steps state).steps))
              step.definition.dependencies)
        ids
  launchable-IsFinished =
      StartsTogether-IsFinished
        (definitions_of (running_records (reconcile_workflow_steps state).steps)) ids
        launchable-StartsTogether
