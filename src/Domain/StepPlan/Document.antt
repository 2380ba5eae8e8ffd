-- ===== src/Domain/StepPlan/Document.antt =====
-- src/domain/steps.ts: a plan of steps as the value that it is when it is validated again.
use pi_build_conductor.Prelude.{String, [], ◌∷◌, ◌++◌, Option, none, some, Dict, map}
use pi_build_conductor.Domain.Json.{Json, num, str, arr, obj, to_items, to_fields}
use pi_build_conductor.Domain.Steps.{
  StepKind, StepInputReference, StepRetryPolicy, StepBody, StepDefinition, step_kind, WorkflowPlan,
}
use pi_build_conductor.Domain.TaskPlan.Document.{strings_value, command_value, commands_value}
use pi_build_conductor.Domain.StepPlan.{workflow_plan_schema_version}
use pi_build_conductor.Domain.StepPlan.Fields.{profile_text, capability_text}

abbrev pub kind_text : StepKind → String
kind_text StepKind.investigation = "investigation"
kind_text StepKind.change = "change"
kind_text StepKind.command = "command"
kind_text StepKind.approval = "approval"

abbrev input_value : StepInputReference → Json
input_value input =
    obj (to_fields (("stepId", str input.step_id) ∷ ("output", str input.output) ∷ []))

abbrev retry_value : StepRetryPolicy → Json
retry_value retry = obj (to_fields (("maxAttempts", num retry.max_attempts) ∷ []))

-- A field that is there only if the step declares it.
abbrev field_of : {A : Type 0} → String → (A → Json) → Option A → Dict Json
field_of name value none = []
field_of name value (some a) = (name, value a) ∷ []

abbrev body_fields : StepBody → Dict Json
body_fields (StepBody.investigation questions) = ("questions", strings_value questions) ∷ []
body_fields (StepBody.change criteria paths commands) =
    ("acceptanceCriteria", strings_value criteria)
    ∷ ("allowedPaths", strings_value paths)
    ∷ ("validationCommands", commands_value commands)
    ∷ []
body_fields (StepBody.command command) = ("command", command_value command) ∷ []
body_fields (StepBody.approval prompt) = ("prompt", str prompt) ∷ []

unfoldable pub step_value : StepDefinition → Json
step_value step = obj (
    to_fields (
      (("id", str step.id)
        ∷ ("title", str step.title)
        ∷ ("description", str step.description)
        ∷ ("dependencies", strings_value step.dependencies)
        ∷ ("kind", str (kind_text (step_kind step)))
        ∷ [])
      ++ (body_fields step.body
          ++ (field_of "inputs" (λ inputs. arr (to_items (map input_value inputs))) step.inputs
              ++ (field_of "outputs" strings_value step.outputs
                  ++ (field_of "profile" (λ name. str (profile_text name)) step.profile
                      ++ (field_of "capabilities"
                            (λ names. strings_value (map capability_text names)) step.capabilities
                          ++ (field_of "pathLocks" strings_value step.path_locks
                              ++ (field_of "resourceLocks" strings_value step.resource_locks
                                  ++ (field_of "timeoutMs" num step.timeout_ms
                                      ++ field_of "retry" retry_value step.retry))))))))))

unfoldable pub plan_value : WorkflowPlan → Json
plan_value plan = obj (
    to_fields (
      ("version", num workflow_plan_schema_version)
      ∷ ("title", str plan.title)
      ∷ ("steps", arr (to_items (map step_value plan.steps)))
      ∷ ("finalValidationCommands", commands_value plan.final_validation_commands)
      ∷ []))
