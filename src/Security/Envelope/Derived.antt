-- ===== src/Security/Envelope/Derived.antt =====
-- src/security/envelope.ts: the envelope that a plan implies.
pub mod Collected
pub mod Scopes
pub mod Returns
pub mod Holds
use pi_build_conductor.Prelude.{
  ℕ, String, Bool, true, false, not, List, [], ◌∷◌, Option, none, some, map, filter, flat_map,
  includes, ◌==◌, string_eq, if◌then◌else◌, Result, ok, err,
}
use pi_build_conductor.Domain.Types.{
  StepCapability, mutate_repository, capability_eq, RunCapabilityProfiles,
}
use pi_build_conductor.Domain.Json.{Json, num, str, bool, arr, obj, to_items, to_fields}
use pi_build_conductor.Domain.Steps.{StepBody, StepDefinition, WorkflowPlan}
use pi_build_conductor.Domain.Reading.{PlanValidationIssue}
use pi_build_conductor.Domain.TaskPlan.Document.{strings_value, commands_value}
use pi_build_conductor.Domain.StepPlan.Fields.{capability_text}
use pi_build_conductor.Domain.Translation.{read_workflow_plan_document}
use pi_build_conductor.Security.Envelope.{AuthorityEnvelope, derived, effective_step_capabilities}
use pi_build_conductor.Security.Envelope.Fields.{ordered_capabilities}
use pi_build_conductor.Security.Envelope.Documents.{
  authority_envelope_schema_version, normalize_authority_envelope,
}

-- A `PlanValidationError` or an `EnvelopeValidationError`.
pub data DeriveError : Type 0 where
  plan_issues envelope_issues : List PlanValidationIssue → DeriveError

-- `[...new Set(texts)]`.
unfoldable pub unique : List String → List String
unique [] = []
unique (text ∷ texts) = text ∷ filter (λ other. not (text == other)) (unique texts)

abbrev pub change_criteria : StepBody → List String
change_criteria (StepBody.change criteria _ _) = criteria
change_criteria _ = []

abbrev pub change_paths : StepBody → List String
change_paths (StepBody.change _ paths _) = paths
change_paths _ = []

unfoldable pub plan_capabilities :
    List StepDefinition → Option RunCapabilityProfiles → List StepCapability
plan_capabilities steps profiles =
    ordered_capabilities (flat_map (λ step. effective_step_capabilities step profiles) steps)

-- The paths of a change that may mutate.
abbrev pub mutable_paths : Option RunCapabilityProfiles → StepDefinition → List String
mutable_paths profiles step =
    if includes mutate_repository (effective_step_capabilities step profiles)
    then change_paths step.body
    else []

unfoldable pub plan_paths : List StepDefinition → Option RunCapabilityProfiles → List String
plan_paths steps profiles = unique (flat_map (mutable_paths profiles) steps)

unfoldable pub plan_criteria : List StepDefinition → List String
plan_criteria steps = unique (flat_map (λ step. change_criteria step.body) steps)

abbrev pub scope_value : List StepCapability → List String → Json
scope_value capabilities paths = obj (
    to_fields (
      ("capabilities", strings_value (map capability_text capabilities))
      ∷ (
        "allowedPaths",
        strings_value (if includes mutate_repository capabilities then paths else []),
      )
      ∷ ("forbiddenPaths", strings_value [])
      ∷ []))

unfoldable pub derived_envelope_value :
    String → WorkflowPlan → Option RunCapabilityProfiles → Bool → Json
derived_envelope_value root plan profiles sandboxed = obj (
    to_fields (
      ("version", num authority_envelope_schema_version)
      ∷ ("outcome", str plan.title)
      ∷ ("acceptanceCriteria", strings_value (plan_criteria plan.steps))
      ∷ (
        "repositories",
        arr (
            to_items (
              obj (
                to_fields (
                  ("root", str root)
                  ∷ (
                    "mutation",
                    scope_value (plan_capabilities plan.steps profiles)
                        (plan_paths plan.steps profiles),
                  )
                  ∷ []))
              ∷ [])),
      )
      ∷ ("externalEffects", str "forbidden")
      ∷ (
        "sandbox",
        obj (
            to_fields (
              ("workers", str "worktree-only")
              ∷ ("validation", str (if sandboxed then "nono" else "none"))
              ∷ [])),
      )
      ∷ (
        "validation",
        obj (
            to_fields (
              ("required", commands_value plan.final_validation_commands)
              ∷ ("perChange", bool true)
              ∷ [])),
      )
      ∷ []))

abbrev normalized :
    Result (List PlanValidationIssue) AuthorityEnvelope → Result DeriveError AuthorityEnvelope
normalized (ok envelope) = ok envelope
normalized (err issues) = err (envelope_issues issues)

-- The plan is read from its document, whatever it was before.
unfoldable pub derive_authority_envelope :
    String → Json → Option RunCapabilityProfiles → Bool → Result DeriveError AuthorityEnvelope
derive_authority_envelope root document profiles sandboxed =
    elim (read_workflow_plan_document document) [
      | err issues ↦ err (plan_issues issues)
      | ok plan ↦ normalized (
          normalize_authority_envelope derived
            (derived_envelope_value root plan profiles sandboxed))
    ]
