-- ===== src/Domain/Steps.antt =====
-- src/domain/steps.ts: step definitions, and what a step declares or defaults to.
pub mod Equality
use pi_build_conductor.Prelude.{ℕ, String, List, [], ◌∷◌, Option, or_else}
use pi_build_conductor.Domain.Types.{
  CapabilityProfileName, StepCapability, ValidationCommand, read_repository, mutate_repository,
  execute_commands,
}
use pi_build_conductor.Domain.Graph.{Node, nodes_of}
use pi_build_conductor.Domain.Graph.Topological.{topological_ids}

pub data StepKind : Type 0 where
  investigation change command approval : StepKind

pub record StepInputReference : Type 0 where
  pub step_id : String
  pub output : String

pub record StepRetryPolicy : Type 0 where
  pub max_attempts : ℕ

-- The fields that only one kind of step has.
pub data StepBody : Type 0 where
  investigation : (questions : List String) → StepBody
  change :
      (acceptance_criteria allowed_paths : List String)
      → (validation_commands : List ValidationCommand) → StepBody
  command : ValidationCommand → StepBody
  approval : (prompt : String) → StepBody

abbrev pub body_kind : StepBody → StepKind
body_kind (StepBody.investigation _) = StepKind.investigation
body_kind (StepBody.change _ _ _) = StepKind.change
body_kind (StepBody.command _) = StepKind.command
body_kind (StepBody.approval _) = StepKind.approval

pub record StepDefinition : Type 0 where
  pub id : String
  pub title : String
  pub description : String
  pub dependencies : List String
  pub inputs : Option (List StepInputReference)
  pub outputs : Option (List String)
  pub profile : Option CapabilityProfileName
  pub capabilities : Option (List StepCapability)
  pub path_locks : Option (List String)
  pub resource_locks : Option (List String)
  pub timeout_ms : Option ℕ
  pub retry : Option StepRetryPolicy
  pub body : StepBody

abbrev pub step_kind : StepDefinition → StepKind
step_kind step = body_kind step.body

-- A `WorkflowPlan`; its `version` is the literal 4.
pub record WorkflowPlan : Type 0 where
  pub title : String
  pub steps : List StepDefinition
  pub final_validation_commands : List ValidationCommand

-- The profiles each step kind may declare; the first is its default.
abbrev pub step_kind_profiles : StepKind → List CapabilityProfileName
step_kind_profiles StepKind.investigation =
    CapabilityProfileName.investigation ∷ CapabilityProfileName.review ∷ []
step_kind_profiles StepKind.change =
    CapabilityProfileName.change ∷ CapabilityProfileName.repair ∷ []
step_kind_profiles StepKind.command = CapabilityProfileName.command ∷ []
step_kind_profiles StepKind.approval = CapabilityProfileName.approval ∷ []

abbrev pub kind_profile_name : StepKind → CapabilityProfileName
kind_profile_name StepKind.investigation = CapabilityProfileName.investigation
kind_profile_name StepKind.change = CapabilityProfileName.change
kind_profile_name StepKind.command = CapabilityProfileName.command
kind_profile_name StepKind.approval = CapabilityProfileName.approval

unfoldable pub step_profile_name : StepDefinition → CapabilityProfileName
step_profile_name step = or_else step.profile (kind_profile_name (step_kind step))

-- `STEP_KIND_CAPABILITY_MAXIMA`.
abbrev pub step_kind_capability_maxima : StepKind → List StepCapability
step_kind_capability_maxima StepKind.investigation = read_repository ∷ []
step_kind_capability_maxima StepKind.change =
    read_repository ∷ mutate_repository ∷ execute_commands ∷ []
step_kind_capability_maxima StepKind.command = read_repository ∷ execute_commands ∷ []
step_kind_capability_maxima StepKind.approval = []

unfoldable pub step_capabilities : StepDefinition → List StepCapability
step_capabilities step = or_else step.capabilities (step_kind_capability_maxima (step_kind step))

abbrev body_allowed_paths : StepBody → List String
body_allowed_paths (StepBody.change _ allowed_paths _) = allowed_paths
body_allowed_paths _ = []

unfoldable pub step_path_locks : StepDefinition → List String
step_path_locks step = or_else step.path_locks (body_allowed_paths step.body)

unfoldable pub step_resource_locks : StepDefinition → List String
step_resource_locks step = or_else step.resource_locks []

unfoldable pub step_retry_policy : StepDefinition → StepRetryPolicy
step_retry_policy step = or_else step.retry (record { max_attempts = 1 })

abbrev pub step_nodes : List StepDefinition → List Node
step_nodes steps = nodes_of (λ step. step.id) (λ step. step.dependencies) steps

unfoldable pub topological_step_ids : WorkflowPlan → List String
topological_step_ids plan = topological_ids (step_nodes plan.steps)
