-- ===== src/Engine/Scheduler/Reconcile.antt =====
-- What reconciliation changes, and what a step that it leaves ready can rely on.
pub mod Recomputed
use mathlib.Core.Path.{fun_ext}
use pi_build_conductor.Prelude.{
  String, Bool, true, false, not, ◌&&◌, ◌||◌, List, [], ◌∷◌, Option, none, some, Dict, get, put,
  get-put, ◌≡◌, refl, sym, ap, ◌∙◌, subst, arith, inl, inr, any, all, includes, Bool-cases,
  Option-cases, eq_iff, ◌==◌, string_eq, eq_of_beq, beq_refl, if◌then◌else◌, is_some, keys,
  keys-put_present,
}
use pi_build_conductor.Domain.Types.{RunCapabilityProfiles}
use pi_build_conductor.Engine.State.{
  StepRunState, ready, is_terminal_step_state, WorkflowStepRecord, WorkflowRunState,
}
use pi_build_conductor.Engine.Events.{stops}
use pi_build_conductor.Engine.Scheduler.{
  is_running, satisfies, step_satisfies_dependents, next_step_state, reconcile_one, reconcile_ids,
  reconcile_workflow_steps, topological_step_ids,
}

-- A running or finished step keeps its state.
next_step_state_settled :
    (profiles : RunCapabilityProfiles) (step : WorkflowStepRecord) (steps : Dict WorkflowStepRecord)
    → (is_running step.state || is_terminal_step_state step.state) ≡ true
    → next_step_state profiles step steps ≡ step.state
unfolding next_step_state
next_step_state_settled profiles step steps h = rw h

module _ (profiles : RunCapabilityProfiles) where
  abbrev pub next_record : Dict WorkflowStepRecord → WorkflowStepRecord → WorkflowStepRecord
  next_record steps step = record step { state = next_step_state profiles step steps }

  abbrev pub next_entry :
      Dict WorkflowStepRecord → Option WorkflowStepRecord → Option WorkflowStepRecord
  next_entry steps none = none
  next_entry steps (some step) = some (next_record steps step)

  pub get-reconcile_one :
      (id j : String) (steps : Dict WorkflowStepRecord)
      → get j (reconcile_one profiles id steps)
        ≡ (if id == j then next_entry steps (get j steps) else get j steps)
  unfolding reconcile_one
  get-reconcile_one id j steps = elim (Option-cases (get id steps)) [
    | inl e ↦ ground (arith, eq_iff id j)
    | inr (step, e) ↦ ground (arith, eq_iff id j, get-put id j (next_record steps step) steps)
  ]

  keys-reconcile_one :
      (id : String) (steps : Dict WorkflowStepRecord)
      → keys (reconcile_one profiles id steps) ≡ keys steps
  unfolding reconcile_one
  keys-reconcile_one id steps = elim (Option-cases (get id steps)) [
    | inl e ↦ ground arith
    | inr (step, e) ↦ ground (arith, keys-put_present id (next_record steps step) steps (rw e))
  ]

  -- Reconciliation neither adds nor removes a step.
  pub keys-reconcile_ids :
      (ids : List String) (steps : Dict WorkflowStepRecord)
      → keys (reconcile_ids profiles ids steps) ≡ keys steps
  unfolding reconcile_ids
  keys-reconcile_ids [] steps = refl
  keys-reconcile_ids (id ∷ ids) steps =
      keys-reconcile_ids ids (reconcile_one profiles id steps) ∙ keys-reconcile_one id steps

  -- What dependents need of a step is settled: no pass changes it.
  satisfies_next :
      (steps : Dict WorkflowStepRecord) (o : Option WorkflowStepRecord)
      → satisfies profiles (next_entry steps o) ≡ satisfies profiles o
  unfolding next_step_state
  satisfies_next steps none = refl
  satisfies_next steps (some step) = ground arith

  satisfies-reconcile_one :
      (id j : String) (steps : Dict WorkflowStepRecord)
      → satisfies profiles (get j (reconcile_one profiles id steps))
        ≡ satisfies profiles (get j steps)
  satisfies-reconcile_one id j steps = elim (Bool-cases (id == j)) [
    | inl e ↦ rw (get-reconcile_one id j steps) (rw e (satisfies_next steps (get j steps)))
    | inr e ↦ rw (get-reconcile_one id j steps) (rw e)
  ]

  -- A step is ready only if all its dependencies satisfy their dependents.
  abbrev pub IsJustified : Dict WorkflowStepRecord → String → Type 0
  IsJustified steps id =
      (step : WorkflowStepRecord)
      → get id steps ≡ some step
      → step.state ≡ ready
      → all (λ d. satisfies profiles (get d steps)) step.definition.dependencies ≡ true

  next_step_state-ready :
      (step : WorkflowStepRecord) (steps : Dict WorkflowStepRecord)
      → next_step_state profiles step steps ≡ ready
      → all (λ d. satisfies profiles (get d steps)) step.definition.dependencies ≡ true
  unfolding next_step_state
  next_step_state-ready step steps h = ground arith

  all_satisfied-reconcile_one :
      (id : String) (steps : Dict WorkflowStepRecord) (ds : List String)
      → all (λ d. satisfies profiles (get d (reconcile_one profiles id steps))) ds
        ≡ all (λ d. satisfies profiles (get d steps)) ds
  all_satisfied-reconcile_one id steps [] = refl
  all_satisfied-reconcile_one id steps (d ∷ ds) =
      rw (satisfies-reconcile_one id d steps) (rw (all_satisfied-reconcile_one id steps ds))

  reconcile_one-IsJustified_self :
      (id : String) (steps : Dict WorkflowStepRecord)
      → IsJustified (reconcile_one profiles id steps) id
  reconcile_one-IsJustified_self id steps after e r = elim (Option-cases (get id steps)) [
    | inl n ↦ absurd (ground (arith, get-reconcile_one id id steps, beq_refl id))
    | inr (step, n) ↦
        let same : after ≡ next_record steps step =
          ground (arith, get-reconcile_one id id steps, beq_refl id) in
        rw (same, all_satisfied-reconcile_one id steps step.definition.dependencies)
          (next_step_state-ready step steps (cc same))
  ]

  reconcile_one-IsJustified :
      (id j : String) (steps : Dict WorkflowStepRecord)
      → IsJustified steps j
      → IsJustified (reconcile_one profiles id steps) j
  reconcile_one-IsJustified id j steps h after e r = elim (Bool-cases (id == j)) [
    | inl q ↦
        subst (λ k. IsJustified (reconcile_one profiles id steps) k) (eq_of_beq id j q)
          (reconcile_one-IsJustified_self id steps) after e r
    | inr q ↦
        rw (all_satisfied-reconcile_one id steps after.definition.dependencies)
          (h after (ground (arith, get-reconcile_one id j steps)) r)
  ]

  reconcile_ids-IsJustified_kept :
      (ids : List String) (j : String) (steps : Dict WorkflowStepRecord)
      → IsJustified steps j
      → IsJustified (reconcile_ids profiles ids steps) j
  unfolding reconcile_ids
  reconcile_ids-IsJustified_kept [] j steps h = h
  reconcile_ids-IsJustified_kept (id ∷ ids) j steps h =
      reconcile_ids-IsJustified_kept ids j (reconcile_one profiles id steps)
        (reconcile_one-IsJustified id j steps h)

  -- A step of the order that reconciliation leaves ready has all its dependencies satisfied.
  pub reconcile_ids-IsJustified :
      (ids : List String) (j : String) (steps : Dict WorkflowStepRecord)
      → includes j ids ≡ true
      → IsJustified (reconcile_ids profiles ids steps) j
  unfolding reconcile_ids
  reconcile_ids-IsJustified [] j steps m = absurd (cc)
  reconcile_ids-IsJustified (id ∷ ids) j steps m = elim (Bool-cases (id == j)) [
    | inl q ↦ reconcile_ids-IsJustified_kept ids j (reconcile_one profiles id steps) (
        subst (λ k. IsJustified (reconcile_one profiles id steps) k) (eq_of_beq id j q)
          (reconcile_one-IsJustified_self id steps))
    | inr q ↦ reconcile_ids-IsJustified ids j (reconcile_one profiles id steps) (rw q at m)
  ]
