-- ===== src/Domain/StepPlan/Step.antt =====
-- src/domain/steps.ts: one step, read from JSON.
use pi_build_conductor.Prelude.{
  ℕ, String, Bool, true, not, ◌&&◌, List, [], ◌∷◌, Option, none, some, Dict, get, any, eqb, length,
  ◌==◌, string_eq, if◌then◌else◌, or_else,
}
use pi_build_conductor.Domain.Types.{CapabilityProfileName, capability_eq}
use pi_build_conductor.Domain.Json.{Json, as_array, as_record, as_text}
use pi_build_conductor.Domain.Steps.{
  StepKind, StepBody, StepDefinition, step_kind_profiles, step_kind_capability_maxima,
}
use pi_build_conductor.Domain.Reading.{
  Reading, ◌>>=◌, ◌>>◌, pure, failing, report_if, issue, at_field, at_index, read_each, check_each,
}
use pi_build_conductor.Domain.Reading.Texts.{read_non_empty_string, read_string_array}
use pi_build_conductor.Domain.Reading.Paths.{read_allowed_paths}
use pi_build_conductor.Domain.Reading.Commands.{read_command_object, read_validation_commands}
use pi_build_conductor.Domain.StepPlan.Fields.{
  Declarations, read_declarations, profile_text, capability_text, known_capabilities,
}

-- `value.kind` in the `switch`.
abbrev pub kind_of : Option Json → Option StepKind
kind_of value = elim (as_text value) [
  | none ↦ none
  | some text ↦
      if text == "investigation"
      then some StepKind.investigation
      else if text == "change"
      then some StepKind.change
      else if text == "command"
      then some StepKind.command
      else if text == "approval"
      then some StepKind.approval
      else none
]

unfoldable pub read_questions : Option Json → String → Reading (List String)
read_questions value path = do
  questions ← read_string_array value path
  report_if (eqb (length questions) 0) (issue "required_questions" path)
  pure questions

unfoldable pub read_body : StepKind → Dict Json → String → Reading StepBody
read_body StepKind.investigation value path = do
  questions ← read_questions (get "questions" value) (at_field path "questions")
  pure (StepBody.investigation questions)
read_body StepKind.change value path = do
  acceptance_criteria ←
      read_string_array (get "acceptanceCriteria" value) (at_field path "acceptanceCriteria")
  allowed_paths ← read_allowed_paths (get "allowedPaths" value) (at_field path "allowedPaths")
  validation_commands ←
      read_validation_commands (get "validationCommands" value) (at_field path "validationCommands")
  pure (StepBody.change acceptance_criteria allowed_paths validation_commands)
read_body StepKind.command value path = do
  command ← read_command_object (get "command" value) (at_field path "command")
  pure (StepBody.command command)
read_body StepKind.approval value path = do
  prompt ← read_non_empty_string (get "prompt" value) (at_field path "prompt")
  pure (StepBody.approval prompt)

-- `{ ...common, kind, ... }`.
abbrev pub step_of :
    (id title description : String) (dependencies : List String)
    → Declarations
    → StepBody
    → StepDefinition
step_of id title description dependencies declared body = record {
  id = id;
  title = title;
  description = description;
  dependencies = dependencies;
  inputs = declared.inputs;
  outputs = declared.outputs;
  profile = declared.profile;
  capabilities = elim (declared.capabilities) [
    | none ↦ none
    | some texts ↦ some (known_capabilities texts)
  ];
  path_locks = declared.path_locks;
  resource_locks = declared.resource_locks;
  timeout_ms = declared.timeout_ms;
  retry = declared.retry;
  body = body;
}

abbrev pub is_profile_of : StepKind → Option CapabilityProfileName → Bool
is_profile_of kind none = true
is_profile_of kind (some name) =
    any (λ other. profile_text other == profile_text name) (step_kind_profiles kind)

-- `KIND_CAPABILITIES[kind].includes(text)`.
abbrev pub may_declare : StepKind → String → Bool
may_declare kind text =
    any (λ capability. capability_text capability == text) (step_kind_capability_maxima kind)

-- What a step asks for beyond the authority of its kind.
unfoldable pub check_authority : StepKind → Declarations → String → Reading (Unit {0})
check_authority kind declared path = do
  report_if (not (is_profile_of kind declared.profile))
      (issue "profile_not_allowed" (at_field path "profile"))
  check_each
      (λ text index.
        report_if (not (text == "") && not (may_declare kind text))
          (issue "capability_not_allowed" (at_index (at_field path "capabilities") index)))
      0 (or_else declared.capabilities [])

-- The `switch`, and what follows it; `make` puts the common fields in.
unfoldable pub read_kind :
    Option StepKind
    → (Declarations → StepBody → StepDefinition)
    → Declarations
    → Dict Json
    → String
    → Reading StepDefinition
read_kind none make declared value path =
    failing (make declared (StepBody.investigation [])) (issue "step_kind" (at_field path "kind"))
read_kind (some kind) make declared value path = do
  body ← read_body kind value path
  check_authority kind declared path
  pure (make declared body)

unfoldable pub read_step_fields : Dict Json → String → Reading StepDefinition
read_step_fields value path = do
  id ← read_non_empty_string (get "id" value) (at_field path "id")
  title ← read_non_empty_string (get "title" value) (at_field path "title")
  description ← read_non_empty_string (get "description" value) (at_field path "description")
  dependencies ← read_string_array (get "dependencies" value) (at_field path "dependencies")
  declared ← read_declarations value path
  read_kind (kind_of (get "kind" value)) (step_of id title description dependencies) declared value
      path

abbrev nothing_declared : Declarations
nothing_declared = record {
  inputs = none;
  outputs = none;
  profile = none;
  capabilities = none;
  path_locks = none;
  resource_locks = none;
  timeout_ms = none;
  retry = none;
}

unfoldable pub read_step : Json → ℕ → Reading StepDefinition
read_step value index = elim (as_record (some value)) [
  | none ↦
      failing (step_of "" "" "" [] nothing_declared (StepBody.investigation []))
        (issue "step_object" (at_index "steps" index))
  | some fields ↦ read_step_fields fields (at_index "steps" index)
]

unfoldable pub read_steps : Option Json → Reading (List StepDefinition)
read_steps value = elim (as_array value) [
  | none ↦ failing [] (issue "required_steps" "steps")
  | some [] ↦ failing [] (issue "required_steps" "steps")
  | some (step ∷ steps) ↦ read_each read_step 0 (step ∷ steps)
]
