-- ===== src/Engine/Scheduler/Integrable.antt =====
-- src/engine/scheduler.ts: the order in which steps are integrated.
use pi_build_conductor.Prelude.{
  String, Bool, true, false, not, ◌&&◌, List, [], ◌∷◌, ◌++◌, Option, none, some, Dict, get,
  is_truthy, All, ◌≡◌, refl, ◌∙◌, ap, subst, arith, inl, inr, Bool-cases, Option-cases,
  some-injective, if◌then◌else◌,
}
use pi_build_conductor.Domain.Types.{RunCapabilityProfiles}
use pi_build_conductor.Engine.Workspaces.{step_requires_integration}
use pi_build_conductor.Engine.State.{StepRunState, WorkflowStepRecord, WorkflowRunState}
use pi_build_conductor.Engine.Scheduler.{
  is_succeeded, next_integrable, next_integrable_step_id, topological_step_ids,
}

module _ (profiles : RunCapabilityProfiles) where
  -- Whether a commit of the step still has to be integrated.
  abbrev pub waits : Option WorkflowStepRecord → Bool
  waits none = false
  waits (some step) =
      step_requires_integration profiles step.definition && not (is_truthy step.integrated_commit)

  -- `id` is the first of the order that waits, and it has succeeded.
  abbrev pub IsNext : Dict WorkflowStepRecord → List String → String → Type 0
  IsNext steps order id =
      (before : List String) × (after : List String) × (order ≡ before ++ id ∷ after)
      × All (λ earlier. waits (get earlier steps) ≡ false) before
      × (waits (get id steps) ≡ true)
      × (step : WorkflowStepRecord) × (get id steps ≡ some step)
      × (step.state ≡ StepRunState.succeeded)

  IsNext-after :
      (steps : Dict WorkflowStepRecord) (order : List String) (first id : String)
      → waits (get first steps) ≡ false
      → IsNext steps order id
      → IsNext steps (first ∷ order) id
  IsNext-after steps order first id w (before, after, e, all, waiting, step, found, done) =
      (first ∷ before, after, ap (λ l. first ∷ l) e, (w, all), waiting, step, found, done)

  chosen :
      (step : WorkflowStepRecord) (first id : String)
      → (if is_succeeded step.state then some first else none) ≡ some id
      → (first ≡ id) × (step.state ≡ StepRunState.succeeded)
  chosen step first id h = elim (Bool-cases (is_succeeded step.state)) [
    | inl q ↦ (some-injective (rw q at h), ground arith)
    | inr q ↦ absurd (let bad = rw q at h in cc)
  ]

  next_integrable-IsNext :
      (steps : Dict WorkflowStepRecord) (order : List String) (id : String)
      → next_integrable profiles steps order ≡ some id
      → IsNext steps order id
  unfolding next_integrable
  next_integrable-IsNext steps [] id h = absurd (cc)
  next_integrable-IsNext steps (first ∷ order) id h = elim (Option-cases (get first steps)) [
    | inl e ↦
        IsNext-after steps order first id (ap waits e)
          (next_integrable-IsNext steps order id (rw (e, next_integrable) at h))
    | inr (step, e) ↦ elim (Bool-cases (waits (some step))) [
      | inr q ↦
          IsNext-after steps order first id (ap waits e ∙ q)
            (next_integrable-IsNext steps order id (rw (e, q, next_integrable) at h))
      | inl q ↦
          let (same, done) = chosen step first id (rw (e, q, next_integrable) at h) in
          subst (IsNext steps (first ∷ order)) same
            ([], order, refl, tt, ap waits e ∙ q, step, e, done)
    ]
  ]

-- If a step is chosen to be integrated, it is the first in the plan's order whose commit still
-- has to be integrated, and it has succeeded.
pub next_integrable_step_id-IsNext :
    (state : WorkflowRunState) (id : String)
    → next_integrable_step_id state ≡ some id
    → IsNext state.capability_profiles state.steps (topological_step_ids state.plan) id
unfolding next_integrable_step_id
next_integrable_step_id-IsNext state id h =
    next_integrable-IsNext state.capability_profiles state.steps (topological_step_ids state.plan)
      id h
