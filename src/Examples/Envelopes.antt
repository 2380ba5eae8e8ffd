-- ===== src/Examples/Envelopes.antt =====
-- An authored envelope as a document, and the envelope that the example plan implies.
use pi_build_conductor.Prelude.{true, false, [], ◌∷◌, none, ok, err, ◌≡◌, refl}
use pi_build_conductor.Domain.Reading.Paths.{join_reversed, split_slash}
use pi_build_conductor.Domain.Reading.Commands.{has_nul}
use pi_build_conductor.Domain.Types.{read_repository, mutate_repository}
use pi_build_conductor.Domain.Json.{Json, num, str, obj, arr, to_items, to_fields}
use pi_build_conductor.Domain.Text.{is_space}
use pi_build_conductor.Domain.Artifacts.Identity.{decimal}
use pi_build_conductor.Domain.Steps.{step_capabilities}
use pi_build_conductor.Domain.Reading.{issue, read_each, check_each}
use pi_build_conductor.Domain.Reading.Texts.{read_non_empty_string, read_string_array}
use pi_build_conductor.Domain.Reading.Paths.{read_safe_repository_paths}
use pi_build_conductor.Domain.Reading.Commands.{read_command_object}
use pi_build_conductor.Domain.TaskPlan.Document.{strings_value, command_value, commands_value}
use pi_build_conductor.Security.Envelope.{
  AuthorityEnvelope, authored, effective_step_capabilities, path_is_allowed,
}
use pi_build_conductor.Security.Envelope.Fields.{
  reject_unknown_keys, read_unique_strings, ordered_capabilities, read_known_capabilities,
  read_capability_array, read_capabilities, read_repository_root, check_repository_root,
  canonical_root, normalize_absolute, resolve_absolute, without_separators, read_scope_fields,
  read_mutation_scope,
}
use pi_build_conductor.Security.Envelope.Documents.{
  read_repository_entry, read_repository_item, read_repository_array, read_repositories,
  read_sandbox, read_required_command, read_required, read_expectation_fields,
  read_validation_expectations, reserved_escalation_conditions, check_conditions, read_escalation,
  read_authority_envelope, normalize_authority_envelope,
}
use pi_build_conductor.Security.Envelope.Accepted.{
  IsEnvelope, normalize_authority_envelope-IsEnvelope,
}
use pi_build_conductor.Security.Envelope.Derived.{
  envelope_issues, unique, plan_capabilities, plan_paths, plan_criteria, derived_envelope_value,
  derive_authority_envelope,
}
use pi_build_conductor.Security.Envelope.Derived.Returns.{derived_envelope}
use pi_build_conductor.Security.Envelope.Derived.Holds.{derive_authority_envelope-holds}
use pi_build_conductor.Security.Authority.{plan_authority_issues}
use pi_build_conductor.Examples.{plan, unit_tests}
use pi_build_conductor.Examples.StepPlans.{document, document_is_read, run_value, run_value_is_read}

-- An absent escalation reserves every condition.
abbrev approved : Json
approved = obj (
    to_fields (
      ("version", num 1)
      ∷ ("outcome", str "Ship the feature")
      ∷ ("acceptanceCriteria", strings_value ("it builds" ∷ []))
      ∷ (
        "repositories",
        arr (
            to_items (
              obj (
                to_fields (
                  ("root", str "/repo")
                  ∷ (
                    "mutation",
                    obj (
                        to_fields (
                          (
                            "capabilities",
                            strings_value ("mutate-repository" ∷ "read-repository" ∷ []),
                          )
                          ∷ ("allowedPaths", strings_value ("src/" ∷ []))
                          ∷ [])),
                  )
                  ∷ []))
              ∷ [])),
      )
      ∷ ("sandbox", obj (to_fields (("validation", str "nono") ∷ [])))
      ∷ ("validation", obj (to_fields (("required", commands_value (unit_tests ∷ [])) ∷ [])))
      ∷ []))

abbrev approved_authority : AuthorityEnvelope
approved_authority = record {
  outcome = "Ship the feature";
  acceptance_criteria = "it builds" ∷ [];
  repositories =
      record {
        root = "/repo";
        mutation = record {
          capabilities = read_repository ∷ mutate_repository ∷ [];
          allowed_paths = "src/" ∷ [];
          forbidden_paths = [];
        };
      }
      ∷ [];
  forbidden_actions = [];
  validation_sandboxed = true;
  validation = record { required = unit_tests ∷ []; per_change = true };
  escalation = record { conditions = reserved_escalation_conditions; reserved_decisions = [] };
}

approved_is_read : normalize_authority_envelope authored approved ≡ ok approved_authority
unfolding normalize_authority_envelope read_authority_envelope reject_unknown_keys check_each
    read_non_empty_string is_space read_unique_strings read_string_array read_each read_repositories
    read_repository_array read_repository_item read_repository_entry read_repository_root
    check_repository_root canonical_root normalize_absolute without_separators read_mutation_scope
    read_scope_fields read_capabilities read_capability_array read_known_capabilities
    ordered_capabilities read_safe_repository_paths path_is_allowed read_sandbox
    read_validation_expectations read_expectation_fields read_required read_required_command
    read_command_object command_value read_escalation check_conditions decimal resolve_absolute
approved_is_read = refl

normalize_authority_envelope-IsEnvelope_example : IsEnvelope authored approved_authority
normalize_authority_envelope-IsEnvelope_example =
    normalize_authority_envelope-IsEnvelope authored approved approved_authority approved_is_read

derive_authority_envelope-holds_example :
    (derive_authority_envelope "/repo" document none false
      ≡ ok (derived_envelope "/repo" plan none false))
    × (plan_authority_issues plan (derived_envelope "/repo" plan none false) "/repo" none ≡ [])
unfolding plan_capabilities effective_step_capabilities step_capabilities ordered_capabilities
derive_authority_envelope-holds_example =
    derive_authority_envelope-holds "/repo" document none false plan document_is_read refl refl
      ((refl, (refl, tt)), (tt, tt))

-- A plan that may run commands and not read implies no envelope.
run_plan_implies_none :
    derive_authority_envelope "/repo" run_value none false
    ≡ err (
        envelope_issues
          (issue "missing_read_capability" "repositories[0].mutation.capabilities" ∷ []))
unfolding derive_authority_envelope derived_envelope_value plan_criteria plan_paths unique
    plan_capabilities effective_step_capabilities step_capabilities normalize_authority_envelope
    read_authority_envelope reject_unknown_keys check_each read_non_empty_string is_space
    read_unique_strings read_string_array read_each read_repositories read_repository_array
    read_repository_item read_repository_entry read_repository_root check_repository_root
    canonical_root normalize_absolute without_separators read_mutation_scope read_scope_fields
    read_capabilities read_capability_array read_known_capabilities ordered_capabilities
    read_safe_repository_paths path_is_allowed read_sandbox read_validation_expectations
    read_expectation_fields read_required read_required_command read_command_object command_value
    read_escalation check_conditions decimal resolve_absolute
run_plan_implies_none = rw (run_value_is_read, derive_authority_envelope) refl

-- A root that leads back to the root directory is kept as it is written.
detour_is_accepted : check_repository_root "root" "/repo/.." ≡ (tt, [])
unfolding check_repository_root canonical_root normalize_absolute without_separators
    resolve_absolute has_nul join_reversed split_slash
detour_is_accepted = refl

slashes_are_accepted : check_repository_root "root" "///" ≡ (tt, [])
unfolding check_repository_root canonical_root normalize_absolute without_separators
    resolve_absolute has_nul join_reversed split_slash
slashes_are_accepted = refl
