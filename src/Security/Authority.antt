-- ===== src/Security/Authority.antt =====
-- src/security/authority.ts: what keeps a plan inside an approved envelope.
pub mod Steps
pub mod Sound
use pi_build_conductor.Prelude.{
  ℕ, suc, ◌+◌, String, Bool, true, false, not, ◌&&◌, List, [], ◌∷◌, ◌++◌, Option, none, some,
  or_else, any, all, includes, filter, flat_map, map, length, eqb, ◌==◌, string_eq, if◌then◌else◌,
  Result, ok, err,
}
use pi_build_conductor.Domain.Types.{
  StepCapability, mutate_repository, CapabilityProfileName, RunCapabilityProfiles,
  ValidationCommand, capability_eq,
}
use pi_build_conductor.Domain.Steps.{StepBody, StepDefinition, WorkflowPlan}
use pi_build_conductor.Security.Capabilities.{capability_profile_for, capability_profile_maxima}
use pi_build_conductor.Security.Envelope.{
  EscalationCondition, add_repository, widen_mutation_authority, skip_required_validation,
  EnvelopeMutationScope, AuthorityEnvelope, path_is_allowed, envelope_repository,
  effective_step_capabilities,
}

-- The `code` of an issue.
pub data AuthorityCode : Type 0 where
  repository_not_approved capability_not_approved path_not_approved : AuthorityCode
  path_withheld required_validation_missing per_change_validation_missing : AuthorityCode

-- The message is left out; the path `steps[i].allowedPaths[j]` keeps its index `i` (the index of
-- the command for a missing required command) and the value that it names.
pub record AuthorityIssue : Type 0 where
  pub code : AuthorityCode
  pub index : ℕ
  pub value : String
  pub condition : EscalationCondition

abbrev repository_issue : String → AuthorityIssue
repository_issue root = record {
  code = repository_not_approved;
  index = 0;
  value = root;
  condition = add_repository;
}

-- `capabilityProfilesFromEnvelope`; a repository that the envelope does not name is refused.
unfoldable pub capability_profiles_from_envelope :
    AuthorityEnvelope → String → Result AuthorityIssue RunCapabilityProfiles
unfolding envelope_repository capability_profile_for
capability_profiles_from_envelope envelope root = elim (envelope_repository envelope root) [
  | none ↦ err (repository_issue root)
  | some repository ↦ ok (λ name. capability_profile_for (
      filter (λ capability. includes capability repository.mutation.capabilities)
        (capability_profile_maxima name)))
]

unfoldable pub same_args : List String → List String → Bool
same_args [] [] = true
same_args (x ∷ xs) (y ∷ ys) = x == y && same_args xs ys
same_args _ _ = false

unfoldable pub same_command : ValidationCommand → ValidationCommand → Bool
unfolding same_args
same_command left right = left.command == right.command && same_args left.args right.args

unfoldable pub capability_issues : StepDefinition → ℕ → List StepCapability → List AuthorityIssue
capability_issues step index granted =
    flat_map
      (λ capability.
        if includes capability granted
        then []
        else record {
          code = capability_not_approved;
          index = index;
          value = step.id;
          condition = widen_mutation_authority;
        }
          ∷ [])
      (or_else step.capabilities [])

-- The body of the loop over `allowedPaths`.
unfoldable pub path_issue : ℕ → EnvelopeMutationScope → String → List AuthorityIssue
unfolding path_is_allowed
path_issue index scope path =
    if not (path_is_allowed path scope.allowed_paths)
    then record {
      code = path_not_approved;
      index = index;
      value = path;
      condition = widen_mutation_authority;
    }
      ∷ []
    else if path_is_allowed path scope.forbidden_paths
    then record {
      code = path_withheld;
      index = index;
      value = path;
      condition = widen_mutation_authority;
    }
      ∷ []
    else []

abbrev change_paths : StepBody → List String
change_paths (StepBody.change _ allowed_paths _) = allowed_paths
change_paths _ = []

unfoldable pub path_issues :
    StepDefinition → ℕ → EnvelopeMutationScope → Option RunCapabilityProfiles → List AuthorityIssue
unfolding effective_step_capabilities path_issue
path_issues step index scope profiles =
    if not (includes mutate_repository (effective_step_capabilities step profiles))
    then []
    else flat_map (path_issue index scope) (change_paths step.body)

unfoldable pub required_issues :
    ℕ → List ValidationCommand → List ValidationCommand → List AuthorityIssue
unfolding same_command
required_issues index final [] = []
required_issues index final (required ∷ rest) =
    (if any (λ command. same_command command required) final
      then []
      else record {
        code = required_validation_missing;
        index = index;
        value = required.command;
        condition = skip_required_validation;
      }
        ∷ [])
    ++ required_issues (suc index) final rest

abbrev pub lacks_validation : StepBody → Bool
lacks_validation (StepBody.change _ _ []) = true
lacks_validation _ = false

unfoldable pub per_change_issues : ℕ → List StepDefinition → List AuthorityIssue
per_change_issues index [] = []
per_change_issues index (step ∷ steps) =
    (if lacks_validation step.body
      then record {
        code = per_change_validation_missing;
        index = index;
        value = step.id;
        condition = skip_required_validation;
      }
        ∷ []
      else [])
    ++ per_change_issues (suc index) steps

unfoldable pub validation_issues : WorkflowPlan → AuthorityEnvelope → List AuthorityIssue
unfolding required_issues per_change_issues
validation_issues plan envelope =
    required_issues 0 plan.final_validation_commands envelope.validation.required
    ++ (if envelope.validation.per_change then per_change_issues 0 plan.steps else [])

unfoldable pub step_issues :
    ℕ
    → List StepDefinition
    → EnvelopeMutationScope
    → Option RunCapabilityProfiles
    → List AuthorityIssue
unfolding capability_issues path_issues
step_issues index [] scope profiles = []
step_issues index (step ∷ steps) scope profiles =
    (capability_issues step index scope.capabilities ++ path_issues step index scope profiles)
    ++ step_issues (suc index) steps scope profiles

unfoldable pub plan_authority_issues :
    WorkflowPlan → AuthorityEnvelope → String → Option RunCapabilityProfiles → List AuthorityIssue
unfolding envelope_repository step_issues validation_issues
plan_authority_issues plan envelope root profiles = elim (envelope_repository envelope root) [
  | none ↦ repository_issue root ∷ []
  | some repository ↦
      step_issues 0 plan.steps repository.mutation profiles ++ validation_issues plan envelope
]
