-- ===== src/Engine/Admission.antt =====
-- src/engine/admission.ts: a running session grows the plan of its run.
pub mod Stored
pub mod Sound
use pi_build_conductor.Prelude.{
  ℕ, ◌+◌, String, Bool, true, false, not, ◌&&◌, ◌||◌, List, [], ◌∷◌, ◌++◌, Option, none, some, Dict,
  get, put, map, take, drop, any, includes, filter, length, leb, ltb, eqb, if◌then◌else◌, ◌==◌,
  string_eq, Result, ok, err, ◌>>=◌, ◌>>◌, guard,
}
use pi_build_conductor.Domain.Json.{
  Json, num, str, arr, obj, to_items, to_fields, as_record, as_text,
}
use pi_build_conductor.Domain.Text.{trim}
use pi_build_conductor.Domain.Reading.{PlanValidationIssue}
use pi_build_conductor.Domain.TaskPlan.Document.{commands_value}
use pi_build_conductor.Domain.StepPlan.{
  workflow_plan_schema_version, step_ids, validate_workflow_plan_result,
}
use pi_build_conductor.Domain.StepPlan.Document.{step_value}
use pi_build_conductor.Domain.Steps.{StepDefinition, WorkflowPlan}
use pi_build_conductor.Domain.Steps.Equality.{list_eq, step_eq}
use pi_build_conductor.Security.Envelope.{FrozenAuthority}
use pi_build_conductor.Security.Authority.{AuthorityIssue, plan_authority_issues}
use pi_build_conductor.Engine.State.{
  StepRunState, planned, WorkflowStepRecord, WorkflowRunState, WorkflowEventBody, step_admitted,
  fresh_record,
}
use pi_build_conductor.Engine.Events.{append_workflow_events}
use pi_build_conductor.Engine.Scheduler.{is_running, run_is_running, reconcile_workflow_steps}

abbrev pub max_workflow_plan_steps : ℕ
max_workflow_plan_steps = 200

pub data StepAdmissionError : Type 0 where
  run_not_running no_authority nothing_proposed no_reason : StepAdmissionError
  unknown_proposer proposer_not_running too_many_steps : StepAdmissionError
  -- The source lists an id that collides several times once.
  collisions : (ids : List String) → StepAdmissionError
  invalid_plan : (issues : List PlanValidationIssue) → StepAdmissionError
  changes_existing_steps : StepAdmissionError
  outside_authority : List AuthorityIssue → StepAdmissionError

-- `text.trim().length === 0`.
unfoldable pub is_blank : String → Bool
is_blank text = trim text == ""

unfoldable pub require_running_proposer :
    WorkflowRunState → String → Result StepAdmissionError (Unit {0})
require_running_proposer state proposed_by = elim (get proposed_by state.steps) [
  | none ↦ err unknown_proposer
  | some proposer ↦ guard (is_running proposer.state) proposer_not_running
]

-- `state.authority` where it is required.
abbrev required : {A : Type 0} → Option A → StepAdmissionError → Result StepAdmissionError A
required none error = err error
required (some a) error = ok a

unfoldable pub add_planned : List StepDefinition → Dict WorkflowStepRecord → Dict WorkflowStepRecord
add_planned [] steps = steps
add_planned (definition ∷ definitions) steps =
    add_planned definitions (put definition.id (fresh_record planned definition) steps)

unfoldable pub admission_events : String → String → List StepDefinition → List WorkflowEventBody
admission_events proposed_by reason [] = []
admission_events proposed_by reason (definition ∷ definitions) =
    step_admitted definition.id proposed_by reason ∷ admission_events proposed_by reason definitions

-- The id of a document that is an object with a textual id.
abbrev document_id : Json → Option String
document_id document = elim (as_record (some document)) [
  | none ↦ none
  | some fields ↦ as_text (get "id" fields)
]

pub record StepAdmissionRequest : Type 0 where
  pub steps : List Json
  pub proposed_by : String
  pub reason : String

unfoldable pub colliding_ids : List String → List Json → List String
colliding_ids existing [] = []
colliding_ids existing (document ∷ documents) =
    let rest = colliding_ids existing documents in
    elim (document_id document) [
      | none ↦ rest
      | some id ↦ if includes id existing then id ∷ rest else rest
    ]

-- `{ ...state.plan, steps: [...state.plan.steps, ...proposed] }`.
unfoldable pub grown_plan_value : WorkflowPlan → List Json → Json
grown_plan_value plan proposed = obj (
    to_fields (
      ("version", num workflow_plan_schema_version)
      ∷ ("title", str plan.title)
      ∷ ("steps", arr (to_items (map step_value plan.steps ++ proposed)))
      ∷ ("finalValidationCommands", commands_value plan.final_validation_commands)
      ∷ []))

abbrev validated :
    Result (List PlanValidationIssue) WorkflowPlan → Result StepAdmissionError WorkflowPlan
validated (ok plan) = ok plan
validated (err issues) = err (invalid_plan issues)

unfoldable pub grown_plan : WorkflowRunState → List Json → Result StepAdmissionError WorkflowPlan
unfolding colliding_ids
grown_plan state proposed = do
  let colliding = colliding_ids (step_ids state.plan.steps) proposed
  guard (eqb (length colliding) 0) (collisions colliding)
  plan ← validated (validate_workflow_plan_result (grown_plan_value state.plan proposed))
  guard (take (length state.plan.steps) plan.steps == state.plan.steps) changes_existing_steps
  ok plan

unfoldable pub admit_steps :
    WorkflowRunState → StepAdmissionRequest → String → Result StepAdmissionError WorkflowRunState
unfolding is_blank require_running_proposer grown_plan add_planned admission_events
admit_steps state request at = do
  guard (run_is_running state.state) run_not_running
  authority ← required state.authority no_authority
  guard (ltb 0 (length request.steps)) nothing_proposed
  guard (not (is_blank request.reason)) no_reason
  require_running_proposer state request.proposed_by
  guard (leb (length state.plan.steps + length request.steps) max_workflow_plan_steps)
      too_many_steps
  plan ← grown_plan state request.steps
  let admitted = drop (length state.plan.steps) plan.steps
  let issues =
      plan_authority_issues plan authority.envelope state.repository_root
        (some state.capability_profiles)
  guard (eqb (length issues) 0) (outside_authority issues)
  ok (
      append_workflow_events
        (reconcile_workflow_steps
          (record state { plan = plan; steps = add_planned admitted state.steps; updated_at = at }))
        (admission_events request.proposed_by request.reason admitted) at)
