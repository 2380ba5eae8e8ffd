-- ===== src/Security/Envelope/Derived/Returns.antt =====
-- src/security/envelope.ts: the envelope that is derived from a well-formed plan.
use pi_build_conductor.Prelude.{
  ℕ, String, Bool, true, false, List, [], ◌∷◌, Option, some, map, All, ◌==◌, string_eq, ok, ◌≡◌,
  refl, if◌then◌else◌,
}
use pi_build_conductor.Domain.Types.{
  StepCapability, capability_eq, ValidationCommand, RunCapabilityProfiles,
}
use pi_build_conductor.Domain.Artifacts.Identity.{decimal}
use pi_build_conductor.Domain.Json.{str, arr, obj, to_items, to_fields, items_of-to_items}
use pi_build_conductor.Domain.Steps.{WorkflowPlan}
use pi_build_conductor.Domain.Reading.{at_index, read_each, check_each}
use pi_build_conductor.Domain.Reading.Valid.{IsCommand}
use pi_build_conductor.Domain.TaskPlan.Document.{
  strings_value, command_value, commands_value, read_each-map, read_non_empty_string-str,
  read_string_array-strings_value, read_command_object-command_value,
}
use pi_build_conductor.Domain.StepPlan.{has_change}
use pi_build_conductor.Domain.StepPlan.Across.{AreFinal}
use pi_build_conductor.Domain.StepPlan.Accepted.{IsWorkflowPlan}
use pi_build_conductor.Security.Envelope.{EnvelopeMutationScope, AuthorityEnvelope, derived}
use pi_build_conductor.Security.Envelope.Fields.{
  reject_unknown_keys, read_unique_strings, read_repository_root, read_mutation_scope,
}
use pi_build_conductor.Security.Envelope.Documents.{
  read_repository_entry, read_repository_item, read_repository_array, read_repositories,
  read_sandbox, read_required_command, read_required, read_expectation_fields,
  read_validation_expectations, reserved_escalation_conditions, check_conditions, read_escalation,
  read_authority_envelope, normalize_authority_envelope,
}
use pi_build_conductor.Security.Envelope.Valid.{AreTexts}
use pi_build_conductor.Security.Envelope.Derived.{
  plan_capabilities, plan_paths, plan_criteria, scope_value, derived_envelope_value,
}
use pi_build_conductor.Security.Envelope.Derived.Collected.{plan_criteria-AreTexts}
use pi_build_conductor.Security.Envelope.Derived.Scopes.{derived_scope, MayRead, read_scope-derived}

-- The envelope, as it is stated of a plan.
abbrev pub derived_envelope :
    String → WorkflowPlan → Option RunCapabilityProfiles → Bool → AuthorityEnvelope
derived_envelope root plan profiles sandboxed = record {
  outcome = plan.title;
  acceptance_criteria = plan_criteria plan.steps;
  repositories = record { root = root; mutation = derived_scope plan profiles } ∷ [];
  forbidden_actions = [];
  validation_sandboxed = sandboxed;
  validation = record { required = plan.final_validation_commands; per_change = true };
  escalation = record { conditions = reserved_escalation_conditions; reserved_decisions = [] };
}

read_unique_strings-strings_value :
    (path : String) (texts : List String)
    → AreTexts texts
    → read_unique_strings path (some (strings_value texts)) ≡ (texts, [])
unfolding read_unique_strings
read_unique_strings-strings_value path texts h =
    rw (read_string_array-strings_value texts path h.0, h.1) refl

read_repositories-derived :
    (root : String) (cs : List StepCapability) (paths : List String) (scope : EnvelopeMutationScope)
    → (root == "") ≡ false
    → read_mutation_scope (some (scope_value cs paths)) "repositories[0].mutation" ≡ (scope, [])
    → read_repositories derived
        (some (
          arr (
            to_items (
              obj (to_fields (("root", str root) ∷ ("mutation", scope_value cs paths) ∷ []))
              ∷ []))))
        "repositories"
      ≡ (record { root = root; mutation = scope } ∷ [], [])
unfolding read_repositories read_repository_array read_each read_repository_item
    read_repository_entry reject_unknown_keys check_each read_repository_root decimal
read_repositories-derived root cs paths scope some_root read = rw (some_root, read) refl

read_required_command-command_value :
    (path : String) (c : ValidationCommand) (index : ℕ)
    → IsCommand c
    → read_required_command path (command_value c) index ≡ (c, [])
unfolding read_required_command reject_unknown_keys check_each command_value
read_required_command-command_value path c index h =
    rw (read_command_object-command_value c (at_index path index) h) refl

read_required-commands_value :
    (path : String) (commands : List ValidationCommand)
    → All IsCommand commands
    → read_required path (some (commands_value commands)) ≡ (commands, [])
unfolding read_required
read_required-commands_value path commands h = rw (items_of-to_items (map command_value commands)) (
    read_each-map (read_required_command path) IsCommand command_value
      (read_required_command-command_value path) 0 commands h)

final_commands :
    (changes : Bool) (commands : List ValidationCommand)
    → AreFinal changes commands
    → All IsCommand commands
final_commands true commands h = h.1
final_commands false commands h = h

read_sandbox-derived :
    (sandboxed : Bool)
    → read_sandbox
        (some (
          obj (
            to_fields (
              ("workers", str "worktree-only")
              ∷ ("validation", str (if sandboxed then "nono" else "none"))
              ∷ []))))
        "sandbox"
      ≡ (sandboxed, [])
unfolding read_sandbox reject_unknown_keys check_each
read_sandbox-derived true = refl
read_sandbox-derived false = refl

pub normalize_authority_envelope-derived :
    (root : String) (plan : WorkflowPlan) (profiles : Option RunCapabilityProfiles)
    (sandboxed : Bool)
    → IsWorkflowPlan plan
    → (root == "") ≡ false
    → MayRead (plan_capabilities plan.steps profiles)
    → normalize_authority_envelope derived (derived_envelope_value root plan profiles sandboxed)
      ≡ ok (derived_envelope root plan profiles sandboxed)
unfolding normalize_authority_envelope derived_envelope_value read_authority_envelope
    reject_unknown_keys check_each read_validation_expectations read_expectation_fields
    read_escalation check_conditions
normalize_authority_envelope-derived root plan profiles sandboxed h some_root reads =
    rw
      (
        read_non_empty_string-str plan.title "outcome" h.titled,
        read_unique_strings-strings_value "acceptanceCriteria" (plan_criteria plan.steps)
            (plan_criteria-AreTexts plan.steps h.steps),
        read_repositories-derived root (plan_capabilities plan.steps profiles)
            (plan_paths plan.steps profiles) (derived_scope plan profiles) some_root
            (read_scope-derived plan profiles _ h reads),
        read_sandbox-derived sandboxed,
        read_required-commands_value "validation.required" plan.final_validation_commands
            (final_commands (has_change plan.steps) plan.final_validation_commands h.commands),
      )
      refl
