-- ===== src/Examples/Authority.antt =====
-- The example plan under an envelope, and narrowed capabilities.
use pi_build_conductor.Prelude.{
  true, false, List, [], ◌∷◌, none, ◌≡◌, ◌↔◌, refl, includes, string_eq,
}
use pi_build_conductor.Domain.Types.{
  StepCapability, read_repository, mutate_repository, execute_commands, capability_eq,
}
use pi_build_conductor.Security.Capabilities.{capability_profile_for, narrow_capability_profile}
use pi_build_conductor.Security.Capabilities.Narrowing.{narrow_capability_profile-exact}
use pi_build_conductor.Security.Envelope.{AuthorityEnvelope}
use pi_build_conductor.Security.Authority.{plan_authority_issues}
use pi_build_conductor.Security.Authority.Sound.{IsWithin, plan_authority_issues-none_iff}
use pi_build_conductor.Examples.{plan, unit_tests}

abbrev pub envelope : AuthorityEnvelope
envelope = record {
  outcome = "The feature works";
  acceptance_criteria = "it builds" ∷ [];
  repositories =
      record {
        root = "/repo";
        mutation = record {
          capabilities = read_repository ∷ mutate_repository ∷ execute_commands ∷ [];
          allowed_paths = "src/" ∷ [];
          forbidden_paths = "src/secrets/" ∷ [];
        };
      }
      ∷ [];
  forbidden_actions = [];
  validation_sandboxed = true;
  validation = record { required = unit_tests ∷ []; per_change = true };
  escalation = record { conditions = []; reserved_decisions = [] };
}

plan_has_no_issue : plan_authority_issues plan envelope "/repo" none ≡ []
unfolding plan_authority_issues
plan_has_no_issue = refl

plan_authority_issues-none_iff_example :
    (plan_authority_issues plan envelope "/repo" none ≡ []) ↔ IsWithin plan envelope "/repo" none
plan_authority_issues-none_iff_example = plan_authority_issues-none_iff plan envelope "/repo" none

abbrev worker : List StepCapability
worker = read_repository ∷ mutate_repository ∷ []

narrow_capability_profile-exact_example :
    (includes read_repository
        (narrow_capability_profile
          (capability_profile_for worker)
          (read_repository ∷ [])).capabilities
      ≡ true)
    × (includes "edit"
          (narrow_capability_profile (capability_profile_for worker) (read_repository ∷ [])).tools
        ≡ false)
unfolding capability_profile_for
narrow_capability_profile-exact_example =
    narrow_capability_profile-exact (capability_profile_for worker) (read_repository ∷ [])
      read_repository "edit"
