-- ===== src/Engine/Transitions/Recorded.antt =====
-- src/engine/workflow-state.ts and src/engine/admission.ts: the records of the steps of a plan.
use pi_build_conductor.Prelude.{
  ◌||◌, String, true, false, List, [], ◌∷◌, ◌++◌, append-nil, append_assoc, none, Dict, get, put,
  includes, is_distinct, ◌≡◌, refl, sym, ap, ◌∙◌, arith, inl, inr, Bool-cases, ◌==◌, string_eq,
  eq_iff,
}
use pi_build_conductor.Domain.Steps.{StepDefinition}
use pi_build_conductor.Domain.StepPlan.{step_ids}
use pi_build_conductor.Engine.State.{
  StepRunState, planned, WorkflowStepRecord, fresh_record, initial_steps,
}
use pi_build_conductor.Engine.Admission.{add_planned}
use pi_build_conductor.Engine.Transitions.Follows.{definitions}

-- The steps of a plan, each under its id.
abbrev pub by_id : List StepDefinition → Dict StepDefinition
by_id [] = []
by_id (step ∷ steps) = (step.id, step) ∷ by_id steps

by_id-append :
    (before : List StepDefinition) (step : StepDefinition)
    → by_id (before ++ step ∷ []) ≡ by_id before ++ (step.id, step) ∷ []
by_id-append [] step = refl
by_id-append (first ∷ before) step = rw (by_id-append before step) refl

definitions-get :
    (k : String) (steps : Dict WorkflowStepRecord)
    → get k (definitions steps) ≡ none
    → get k steps ≡ none
definitions-get k [] h = refl
definitions-get k ((j, step) ∷ steps) h = elim (Bool-cases (j == k)) [
  | inl q ↦ absurd (cc (rw q at h))
  | inr q ↦ rw q (definitions-get k steps (rw q at h))
]

get-by_id :
    (k : String) (steps : List StepDefinition)
    → includes k (step_ids steps) ≡ false
    → get k (by_id steps) ≡ none
get-by_id k [] h = refl
get-by_id k (step ∷ steps) h =
    let other : (step.id == k) ≡ false = ground arith in rw other (get-by_id k steps (ground arith))

definitions-put_new :
    (k : String) (new : WorkflowStepRecord) (steps : Dict WorkflowStepRecord)
    → get k steps ≡ none
    → definitions (put k new steps) ≡ definitions steps ++ (k, new.definition) ∷ []
definitions-put_new k new [] g = refl
definitions-put_new k new ((j, old) ∷ steps) g = elim (Bool-cases (j == k)) [
  | inl q ↦ absurd (cc (rw q at g))
  | inr q ↦ rw (q, definitions-put_new k new steps (rw q at g)) refl
]

-- A fresh record of a step that the plan does not have yet comes last.
put-stored :
    (before : List StepDefinition) (steps : Dict WorkflowStepRecord) (step : StepDefinition)
    (state : StepRunState)
    → definitions steps ≡ by_id before
    → includes step.id (step_ids before) ≡ false
    → definitions (put step.id (fresh_record state step) steps) ≡ by_id (before ++ step ∷ [])
put-stored before steps step state h new =
    let absent =
      definitions-get step.id steps (ap (get step.id) h ∙ get-by_id step.id before new) in
    definitions-put_new step.id (fresh_record state step) steps absent
    ∙ ap (λ l. l ++ (step.id, step) ∷ []) h
    ∙ sym (by_id-append before step)

includes-step_ids :
    (k : String) (before : List StepDefinition) (step : StepDefinition)
    (later : List StepDefinition)
    → includes k (step_ids (before ++ step ∷ later))
      ≡ (includes k (step_ids before) || (step.id == k || includes k (step_ids later)))
includes-step_ids k [] step later = refl
includes-step_ids k (first ∷ before) step later =
    ground (arith, includes-step_ids k before step later)

distinct-new :
    (before : List StepDefinition) (step : StepDefinition) (later : List StepDefinition)
    → is_distinct (step_ids (before ++ step ∷ later)) ≡ true
    → includes step.id (step_ids before) ≡ false
distinct-new [] step later h = refl
distinct-new (first ∷ before) step later h =
    let rest = distinct-new before step later (ground arith) in
    let found = includes-step_ids first.id before step later in
    ground (arith, eq_iff first.id step.id, eq_iff step.id first.id, rest, found)

pub initial_steps-stored :
    (before later : List StepDefinition) (steps : Dict WorkflowStepRecord)
    → definitions steps ≡ by_id before
    → is_distinct (step_ids (before ++ later)) ≡ true
    → definitions (initial_steps later steps) ≡ by_id (before ++ later)
unfolding initial_steps
initial_steps-stored before [] steps h d = h ∙ ap by_id (sym (append-nil before))
initial_steps-stored before (step ∷ later) steps h d =
    let assoc = append_assoc before (step ∷ []) later in
    initial_steps-stored (before ++ step ∷ []) later _
      (put-stored before steps step _ h (distinct-new before step later d))
      (ap (λ l. is_distinct (step_ids l)) assoc ∙ d)
    ∙ ap by_id assoc

pub add_planned-stored :
    (before later : List StepDefinition) (steps : Dict WorkflowStepRecord)
    → definitions steps ≡ by_id before
    → is_distinct (step_ids (before ++ later)) ≡ true
    → definitions (add_planned later steps) ≡ by_id (before ++ later)
unfolding add_planned
add_planned-stored before [] steps h d = h ∙ ap by_id (sym (append-nil before))
add_planned-stored before (step ∷ later) steps h d =
    let assoc = append_assoc before (step ∷ []) later in
    add_planned-stored (before ++ step ∷ []) later _
      (put-stored before steps step planned h (distinct-new before step later d))
      (ap (λ l. is_distinct (step_ids l)) assoc ∙ d)
    ∙ ap by_id assoc
