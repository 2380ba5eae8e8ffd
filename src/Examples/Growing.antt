-- ===== src/Examples/Growing.antt =====
-- A session of the example run proposes one more step.
use pi_build_conductor.Prelude.{true, false, [], ◌∷◌, ◌++◌, some, ◌≡◌, refl, Result, ok, err}
use pi_build_conductor.Domain.Types.{capability_eq}
use pi_build_conductor.Domain.Text.{is_space, trim}
use pi_build_conductor.Domain.Artifacts.Identity.{is_name}
use pi_build_conductor.Domain.Graph.Cycle.{find_cycle}
use pi_build_conductor.Domain.Reading.{check_new}
use pi_build_conductor.Domain.Reading.Texts.{read_non_empty_string, read_string_array}
use pi_build_conductor.Domain.Reading.Paths.{read_safe_repository_paths, read_allowed_paths}
use pi_build_conductor.Domain.Reading.Commands.{read_validation_commands}
use pi_build_conductor.Domain.TaskPlan.Document.{command_value}
use pi_build_conductor.Domain.StepPlan.{
  read_final_commands, check_step, check_step_dependencies, outputs_by_step, check_input,
  check_inputs, read_workflow_plan, conclude_plan, validate_workflow_plan_result,
}
use pi_build_conductor.Domain.StepPlan.Document.{step_value}
use pi_build_conductor.Domain.StepPlan.Fields.{
  read_inputs, read_input, read_named_identifiers, read_capabilities, read_declarations,
}
use pi_build_conductor.Domain.StepPlan.Step.{
  read_questions, read_body, check_authority, read_kind, read_step_fields, read_step, read_steps,
}
use pi_build_conductor.Domain.Steps.{StepDefinition, step_path_locks, step_resource_locks}
use pi_build_conductor.Security.Envelope.{EnvelopeSource}
use pi_build_conductor.Security.Capabilities.{default_capability_profiles}
use pi_build_conductor.Security.Authority.{plan_authority_issues}
use pi_build_conductor.Engine.Admission.{
  grown_plan_value, StepAdmissionRequest, StepAdmissionError, admit_steps, proposer_not_running,
  collisions,
}
use pi_build_conductor.Engine.Admission.Sound.{IsGrown, admit_steps-IsGrown}
use pi_build_conductor.Examples.{from_ok, input, created, building, attempt, plan, explain}
use pi_build_conductor.Domain.Graph.Topological.{topological_ids}
use pi_build_conductor.Engine.State.{
  WorkflowRunState, CreateInput, create_workflow_run_state, update_step, require_step,
}
use pi_build_conductor.Engine.Scheduler.{
  launchable_step_ids, conflicts_with_held_locks, held_locks_of,
}
use pi_build_conductor.Engine.Workspaces.{step_consumes_worker_slot}
use pi_build_conductor.Engine.Events.{append_workflow_events}
use pi_build_conductor.Engine.Launch.{reserve_step}
use pi_build_conductor.Engine.Transitions.{Transaction}
use pi_build_conductor.Engine.Transitions.Growth.{
  Change, Grow, IsKept, Continues, created-Grow-Continues,
}
use pi_build_conductor.Examples.Authority.{envelope}

abbrev authorized : WorkflowRunState → WorkflowRunState
authorized state = record state {
  authority = some (record { source = EnvelopeSource.authored; digest = "d"; envelope = envelope });
}

abbrev more : StepDefinition
more = record explain { id = "more"; dependencies = [] }

abbrev request : StepDefinition → StepAdmissionRequest
request step = record {
  steps = step_value step ∷ [];
  proposed_by = "build";
  reason = "there is more to explain";
}

abbrev admit : WorkflowRunState → StepDefinition → Result StepAdmissionError WorkflowRunState
admit state step = admit_steps state (request step) "t4"

grown_plan_is_read :
    validate_workflow_plan_result (grown_plan_value plan (step_value more ∷ []))
    ≡ ok (record plan { steps = plan.steps ++ more ∷ [] })
unfolding validate_workflow_plan_result conclude_plan read_workflow_plan read_steps read_step
    read_step_fields read_kind read_body read_questions check_authority read_declarations
    read_inputs read_input read_named_identifiers read_capabilities read_final_commands check_new
    check_step check_step_dependencies check_inputs check_input outputs_by_step
    read_non_empty_string is_space read_string_array read_allowed_paths read_safe_repository_paths
    read_validation_commands command_value step_value grown_plan_value find_cycle is_name
grown_plan_is_read = refl

abbrev grown : WorkflowRunState
grown = from_ok building (admit (authorized building) more)

more_is_admitted : admit (authorized building) more ≡ ok grown
unfolding admit_steps step_value is_space trim plan_authority_issues default_capability_profiles
more_is_admitted = rw grown_plan_is_read refl

explain_collides : admit (authorized building) explain ≡ err (collisions ("explain" ∷ []))
unfolding admit_steps step_value is_space trim
explain_collides = refl

idle_proposer_is_refused : admit (authorized created) more ≡ err proposer_not_running
unfolding admit_steps is_space trim
idle_proposer_is_refused = refl

admit_steps-IsGrown_example : IsGrown (authorized building) grown "build"
admit_steps-IsGrown_example =
    admit_steps-IsGrown (authorized building) grown (request more) "t4" more_is_admitted

abbrev authority_input : CreateInput
authority_input = record input { authority = (authorized created).authority }

authorized_is_created : create_workflow_run_state authority_input ≡ ok (authorized created)
unfolding create_workflow_run_state
authorized_is_created = refl

abbrev started : WorkflowRunState
started = (from_ok (created, false) (reserve_step (authorized created) attempt "t1")).0

started_by_reservation : reserve_step (authorized created) attempt "t1" ≡ ok (started, true)
unfolding reserve_step launchable_step_ids topological_ids conflicts_with_held_locks step_path_locks
    held_locks_of step_resource_locks step_consumes_worker_slot default_capability_profiles
    update_step require_step
started_by_reservation = refl

abbrev grown_later : WorkflowRunState
grown_later = from_ok building (admit started more)

grown_by_admission : admit started more ≡ ok grown_later
unfolding admit_steps step_value is_space trim plan_authority_issues default_capability_profiles
    reserve_step update_step require_step launchable_step_ids topological_ids
    conflicts_with_held_locks step_path_locks held_locks_of step_resource_locks
    step_consumes_worker_slot append_workflow_events
grown_by_admission = rw grown_plan_is_read refl

-- The run starts its first step, and that step admits one more.
created-Grow-Continues_example : IsKept grown_later × Continues started grown_later
created-Grow-Continues_example =
    created-Grow-Continues authority_input (authorized created) started grown_later refl
      authorized_is_created
      (Grow.change Grow.here
        (Change.transacted (Transaction.reserved attempt "t1" true started_by_reservation)))
      (Grow.change Grow.here (Change.admitted (request more) "t4" grown_by_admission))
