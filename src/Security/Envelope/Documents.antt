-- ===== src/Security/Envelope/Documents.antt =====
-- src/security/envelope.ts: reading an envelope document, authored or derived.
use pi_build_conductor.Prelude.{
  ℕ, String, Bool, true, false, not, ◌&&◌, List, [], ◌∷◌, Option, none, some, Dict, get, any, all,
  includes, is_distinct, eqb, ltb, length, ◌==◌, string_eq, if◌then◌else◌, Result, ok, err,
}
use pi_build_conductor.Domain.Types.{mutate_repository, capability_eq, ValidationCommand}
use pi_build_conductor.Domain.Json.{Json, bool, as_array, as_record, as_text}
use pi_build_conductor.Domain.Reading.{
  PlanValidationIssue, Reading, ◌>>=◌, ◌>>◌, pure, failing, report_if, issue, at_field, at_index,
  read_each, check_each, names_of,
}
use pi_build_conductor.Domain.Reading.Texts.{read_non_empty_string}
use pi_build_conductor.Domain.Reading.Commands.{read_command_object}
use pi_build_conductor.Domain.TaskPlan.{is_version}
use pi_build_conductor.Security.Envelope.{
  EscalationCondition, add_repository, widen_mutation_authority, change_acceptance_criteria,
  skip_required_validation, external_effect, EnvelopeSource, authored, derived, EnvelopeRepository,
  EnvelopeValidationExpectations, EnvelopeEscalationPolicy, AuthorityEnvelope,
}
use pi_build_conductor.Security.Envelope.Fields.{
  reject_unknown_keys, or_empty, as_record_or_empty, is_other_than, read_unique_strings,
  read_repository_root, no_scope, read_mutation_scope,
}

unfoldable pub read_repository_entry :
    EnvelopeSource → Dict Json → String → Reading EnvelopeRepository
read_repository_entry source entry path = do
  reject_unknown_keys ("root" ∷ "mutation" ∷ []) path entry
  root ← read_repository_root source (get "root" entry) (at_field path "root")
  mutation ← read_mutation_scope (get "mutation" entry) (at_field path "mutation")
  pure (record { root = root; mutation = mutation })

unfoldable pub read_repository_item :
    EnvelopeSource → String → Json → ℕ → Reading EnvelopeRepository
read_repository_item source path entry index = elim (as_record (some entry)) [
  | none ↦
      failing (record { root = ""; mutation = no_scope })
        (issue "repository_object" (at_index path index))
  | some fields ↦ read_repository_entry source fields (at_index path index)
]

unfoldable pub read_repository_array :
    EnvelopeSource → String → List Json → Reading (List EnvelopeRepository)
read_repository_array source path entries = do
  repositories ← read_each (read_repository_item source path) 0 entries
  report_if (not (is_distinct (names_of (λ entry. entry.root) repositories)))
      (issue "duplicate_repository" path)
  report_if (ltb 1 (length repositories)) (issue "unsupported_repository_count" path)
  pure repositories

unfoldable pub read_repositories :
    EnvelopeSource → Option Json → String → Reading (List EnvelopeRepository)
read_repositories source value path = elim (as_array value) [
  | none ↦ failing [] (issue "required_repositories" path)
  | some [] ↦ failing [] (issue "required_repositories" path)
  | some (entry ∷ entries) ↦ read_repository_array source path (entry ∷ entries)
]

-- Whether the validation is sandboxed.
abbrev read_mode : Option Json → String → Reading Bool
read_mode value path = elim (as_text value) [
  | none ↦ failing false (issue "validation_sandbox" path)
  | some mode ↦
      if mode == "none"
      then pure false
      else if mode == "nono"
      then pure true
      else failing false (issue "validation_sandbox" path)
]

unfoldable pub read_sandbox : Option Json → String → Reading Bool
read_sandbox value path = elim (as_record value) [
  | none ↦ failing false (issue "sandbox_object" path)
  | some fields ↦ do
    reject_unknown_keys ("workers" ∷ "validation" ∷ []) path fields
    report_if (is_other_than "worktree-only" (get "workers" fields))
        (issue "worker_isolation" (at_field path "workers"))
    read_mode (get "validation" fields) (at_field path "validation")
]

abbrev check_command_keys : Json → String → Reading (Unit {0})
check_command_keys item path = elim (as_record (some item)) [
  | none ↦ pure tt
  | some fields ↦ reject_unknown_keys ("command" ∷ "args" ∷ []) path fields
]

unfoldable pub read_required_command : String → Json → ℕ → Reading ValidationCommand
read_required_command path item index =
    check_command_keys item (at_index path index)
    >> read_command_object (some item) (at_index path index)

unfoldable pub read_required : String → Option Json → Reading (List ValidationCommand)
read_required path value = elim (as_array value) [
  | none ↦ failing [] (issue "command_array" path)
  | some items ↦ read_each (read_required_command path) 0 items
]

abbrev is_flag : Option Json → Bool
is_flag none = true
is_flag (some (bool b)) = true
is_flag _ = false

-- `value !== false`.
abbrev unless_false : Option Json → Bool
unless_false (some (bool b)) = b
unless_false _ = true

unfoldable pub read_expectation_fields : Dict Json → String → Reading EnvelopeValidationExpectations
read_expectation_fields fields path = do
  reject_unknown_keys ("required" ∷ "perChange" ∷ []) path fields
  required ← or_empty (read_required (at_field path "required")) (get "required" fields)
  report_if (not (is_flag (get "perChange" fields)))
      (issue "per_change_flag" (at_field path "perChange"))
  pure (record { required = required; per_change = unless_false (get "perChange" fields) })

unfoldable pub read_validation_expectations :
    Option Json → String → Reading EnvelopeValidationExpectations
read_validation_expectations value path = elim (as_record value) [
  | none ↦ failing (record { required = []; per_change = true }) (issue "validation_object" path)
  | some fields ↦ read_expectation_fields fields path
]

abbrev pub escalation_text : EscalationCondition → String
escalation_text add_repository = "add-repository"
escalation_text widen_mutation_authority = "widen-mutation-authority"
escalation_text change_acceptance_criteria = "change-acceptance-criteria"
escalation_text skip_required_validation = "skip-required-validation"
escalation_text external_effect = "external-effect"

-- `RESERVED_ESCALATION_CONDITIONS`.
abbrev pub reserved_escalation_conditions : List EscalationCondition
reserved_escalation_conditions =
    add_repository ∷ widen_mutation_authority ∷ change_acceptance_criteria
    ∷ skip_required_validation ∷ external_effect ∷ []

abbrev names_condition : Json → EscalationCondition → Bool
names_condition entry condition = elim (as_text (some entry)) [
  | none ↦ false
  | some text ↦ text == escalation_text condition
]

-- The declared conditions are checked and not kept.
unfoldable pub check_conditions : String → Option Json → Reading (Unit {0})
check_conditions path none = pure tt
check_conditions path (some value) = elim (as_array (some value)) [
  | none ↦ report_if true (issue "escalation_array" path)
  | some entries ↦
      check_each
        (λ entry index.
          report_if (not (any (names_condition entry) reserved_escalation_conditions))
            (issue "unknown_escalation" (at_index path index)))
        0 entries
      >> report_if
          (not (
            all (λ condition. any (λ entry. names_condition entry condition) entries)
              reserved_escalation_conditions))
          (issue "missing_escalation" path)
]

abbrev escalation_of : List String → EnvelopeEscalationPolicy
escalation_of reserved_decisions = record {
  conditions = reserved_escalation_conditions;
  reserved_decisions = reserved_decisions;
}

unfoldable pub read_escalation : Option Json → String → Reading EnvelopeEscalationPolicy
read_escalation value path = elim (as_record_or_empty value) [
  | none ↦ failing (escalation_of []) (issue "escalation_object" path)
  | some escalation ↦ do
    reject_unknown_keys ("conditions" ∷ "reservedDecisions" ∷ []) path escalation
    reserved_decisions ←
        or_empty (read_unique_strings (at_field path "reservedDecisions"))
          (get "reservedDecisions" escalation)
    check_conditions (at_field path "conditions") (get "conditions" escalation)
    pure (escalation_of reserved_decisions)
]

abbrev is_authored : EnvelopeSource → Bool
is_authored authored = true
is_authored derived = false

abbrev pub mutates : List EnvelopeRepository → Bool
mutates repositories =
    any (λ repository. includes mutate_repository repository.mutation.capabilities) repositories

-- An authored envelope that lets a run mutate asks for a final check.
abbrev pub lacks_required : EnvelopeSource → List EnvelopeRepository → List ValidationCommand → Bool
lacks_required source repositories required =
    is_authored source && (mutates repositories && eqb (length required) 0)

abbrev envelope_keys : List String
envelope_keys =
    "version" ∷ "outcome" ∷ "acceptanceCriteria" ∷ "repositories" ∷ "forbiddenActions"
    ∷ "externalEffects" ∷ "sandbox" ∷ "validation" ∷ "escalation" ∷ []

abbrev pub authority_envelope_schema_version : ℕ
authority_envelope_schema_version = 1

unfoldable pub read_authority_envelope : EnvelopeSource → Dict Json → Reading AuthorityEnvelope
read_authority_envelope source value = do
  reject_unknown_keys envelope_keys "" value
  report_if (not (is_version authority_envelope_schema_version (get "version" value)))
      (issue "unsupported_envelope_version" "version")
  outcome ← read_non_empty_string (get "outcome" value) "outcome"
  acceptance_criteria ← read_unique_strings "acceptanceCriteria" (get "acceptanceCriteria" value)
  repositories ← read_repositories source (get "repositories" value) "repositories"
  forbidden_actions ←
      or_empty (read_unique_strings "forbiddenActions") (get "forbiddenActions" value)
  report_if (is_other_than "forbidden" (get "externalEffects" value))
      (issue "external_effects" "externalEffects")
  validation_sandboxed ← read_sandbox (get "sandbox" value) "sandbox"
  validation ← read_validation_expectations (get "validation" value) "validation"
  escalation ← read_escalation (get "escalation" value) "escalation"
  report_if (lacks_required source repositories validation.required)
      (issue "required_commands" "validation.required")
  pure (record {
    outcome = outcome;
    acceptance_criteria = acceptance_criteria;
    repositories = repositories;
    forbidden_actions = forbidden_actions;
    validation_sandboxed = validation_sandboxed;
    validation = validation;
    escalation = escalation;
  })

-- `if (issues.length > 0) throw`.
abbrev pub without_issues : {A : Type 0} → Reading A → Result (List PlanValidationIssue) A
without_issues (a, []) = ok a
without_issues (a, first ∷ issues) = err (first ∷ issues)

unfoldable pub normalize_authority_envelope :
    EnvelopeSource → Json → Result (List PlanValidationIssue) AuthorityEnvelope
normalize_authority_envelope source value = elim (as_record (some value)) [
  | none ↦ err (issue "envelope_object" "envelope" ∷ [])
  | some fields ↦ without_issues (read_authority_envelope source fields)
]

-- `validateAuthorityEnvelope`.
unfoldable pub read_authority_envelope_document :
    Json → Result (List PlanValidationIssue) AuthorityEnvelope
read_authority_envelope_document value = normalize_authority_envelope authored value
