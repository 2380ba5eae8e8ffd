-- ===== src/Security/Envelope.antt =====
-- src/security/envelope.ts: the authority envelope, and src/domain/paths.ts.
pub mod Fields
pub mod Documents
pub mod Valid
pub mod Accepted
pub mod Derived
use text.Mathlib.Text.{starts_with}
use pi_build_conductor.Prelude.{
  String, Bool, false, not, ◌&&◌, List, Option, none, some, any, find_first, includes, ◌==◌,
  string_eq, if◌then◌else◌,
}
use pi_build_conductor.Domain.Types.{
  StepCapability, mutate_repository, RunCapabilityProfiles, ValidationCommand, capability_eq,
}
use pi_build_conductor.Domain.Steps.{StepDefinition, step_capabilities}
use pi_build_conductor.Security.Capabilities.{step_capability_profile}

pub data EscalationCondition : Type 0 where
  add_repository widen_mutation_authority change_acceptance_criteria : EscalationCondition
  skip_required_validation external_effect : EscalationCondition

pub data EnvelopeSource : Type 0 where
  authored derived : EnvelopeSource

pub record EnvelopeMutationScope : Type 0 where
  pub capabilities : List StepCapability
  pub allowed_paths : List String
  pub forbidden_paths : List String

pub record EnvelopeRepository : Type 0 where
  pub root : String
  pub mutation : EnvelopeMutationScope

pub record EnvelopeValidationExpectations : Type 0 where
  pub required : List ValidationCommand
  pub per_change : Bool

pub record EnvelopeEscalationPolicy : Type 0 where
  pub conditions : List EscalationCondition
  pub reserved_decisions : List String

-- `version`, `externalEffects` and `sandbox.workers` have one value each; the validation sandbox
-- is "nono" or "none".
pub record AuthorityEnvelope : Type 0 where
  pub outcome : String
  pub acceptance_criteria : List String
  pub repositories : List EnvelopeRepository
  pub forbidden_actions : List String
  pub validation_sandboxed : Bool
  pub validation : EnvelopeValidationExpectations
  pub escalation : EnvelopeEscalationPolicy

-- `FrozenAuthority` of src/security/authority.ts.
pub record FrozenAuthority : Type 0 where
  pub source : EnvelopeSource
  pub digest : String
  pub envelope : AuthorityEnvelope

-- `text.endsWith("/")`.
unfoldable pub ends_with_slash : String → Bool
ends_with_slash String.[] = false
ends_with_slash (String.◌∷◌ c String.[]) = String.◌∷◌ c String.[] == "/"
ends_with_slash (String.◌∷◌ c (String.◌∷◌ d text)) = ends_with_slash (String.◌∷◌ d text)

unfoldable pub path_is_allowed : String → List String → Bool
unfolding ends_with_slash
path_is_allowed path allowed_paths =
    any (λ allowed. if ends_with_slash allowed then starts_with path allowed else path == allowed)
      allowed_paths

unfoldable pub envelope_repository : AuthorityEnvelope → String → Option EnvelopeRepository
envelope_repository envelope root = find_first (λ entry. entry.root == root) envelope.repositories

unfoldable pub envelope_allows_mutation : EnvelopeMutationScope → String → Bool
unfolding path_is_allowed
envelope_allows_mutation scope path =
    includes mutate_repository scope.capabilities
    && (path_is_allowed path scope.allowed_paths
        && not (path_is_allowed path scope.forbidden_paths))

unfoldable pub effective_step_capabilities :
    StepDefinition → Option RunCapabilityProfiles → List StepCapability
unfolding step_capabilities step_capability_profile
effective_step_capabilities step none = step_capabilities step
effective_step_capabilities step (some profiles) =
    (step_capability_profile profiles step).capabilities
