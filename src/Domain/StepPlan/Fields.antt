-- ===== src/Domain/StepPlan/Fields.antt =====
-- src/domain/steps.ts: the fields of a step, read from JSON.
use pi_build_conductor.Prelude.{
  ℕ, String, Bool, true, false, not, ◌&&◌, List, [], ◌∷◌, Option, none, some, Dict, get, find_first,
  leb, is_distinct, if◌then◌else◌, ◌==◌, string_eq,
}
use pi_build_conductor.Domain.Types.{
  CapabilityProfileName, capability_profile_names, StepCapability, read_repository,
  mutate_repository, execute_commands, step_capability_names,
}
use pi_build_conductor.Domain.Artifacts.Identity.{is_name}
use pi_build_conductor.Domain.Json.{Json, num, as_array, as_record, as_text}
use pi_build_conductor.Domain.Steps.{StepInputReference, StepRetryPolicy}
use pi_build_conductor.Domain.Reading.{
  Reading, ◌>>=◌, ◌>>◌, pure, failing, report_if, issue, at_field, at_index, read_each, check_each,
}
use pi_build_conductor.Domain.Reading.Texts.{read_non_empty_string, read_string_array}
use pi_build_conductor.Domain.Reading.Paths.{read_safe_repository_paths}

-- A field that is there: `undefined` reads as nothing, without an issue.
abbrev pub read_present :
    {A : Type 0} → (Option Json → Reading A) → Option Json → Reading (Option A)
read_present read none = pure none
read_present read (some value) = do a ← read (some value); pure (some a)

unfoldable pub read_input : Json → String → Reading StepInputReference
read_input item path = elim (as_record (some item)) [
  | none ↦ failing (record { step_id = ""; output = "" }) (issue "input_object" path)
  | some fields ↦ do
    step_id ← read_non_empty_string (get "stepId" fields) (at_field path "stepId")
    output ← read_non_empty_string (get "output" fields) (at_field path "output")
    pure (record { step_id = step_id; output = output })
]

unfoldable pub read_inputs : String → Option Json → Reading (List StepInputReference)
read_inputs path value = elim (as_array value) [
  | none ↦ failing [] (issue "input_array" path)
  | some items ↦ read_each (λ item index. read_input item (at_index path index)) 0 items
]

-- The three patterns of names are one. An empty text has its issue already.
unfoldable pub read_named_identifiers :
    (format_code duplicate_code : String) → String → Option Json → Reading (List String)
read_named_identifiers format_code duplicate_code path value = do
  names ← read_string_array value path
  check_each
      (λ name index.
        report_if (not (name == "") && not (is_name name))
          (issue format_code (at_index path index)))
      0 names
  report_if (not (is_distinct names)) (issue duplicate_code path)
  pure names

abbrev pub profile_text : CapabilityProfileName → String
profile_text CapabilityProfileName.investigation = "investigation"
profile_text CapabilityProfileName.change = "change"
profile_text CapabilityProfileName.command = "command"
profile_text CapabilityProfileName.approval = "approval"
profile_text CapabilityProfileName.review = "review"
profile_text CapabilityProfileName.repair = "repair"

abbrev pub profile_named : String → Option CapabilityProfileName
profile_named text = find_first (λ name. profile_text name == text) capability_profile_names

-- A profile that is not known is reported and left out.
abbrev pub read_profile : String → Option Json → Reading (Option CapabilityProfileName)
read_profile path none = pure none
read_profile path (some value) = elim (as_text (some value)) [
  | none ↦ failing none (issue "unknown_profile" path)
  | some text ↦ elim (profile_named text) [
    | none ↦ failing none (issue "unknown_profile" path)
    | some name ↦ pure (some name)
  ]
]

abbrev pub capability_text : StepCapability → String
capability_text read_repository = "read-repository"
capability_text mutate_repository = "mutate-repository"
capability_text execute_commands = "execute-commands"

abbrev pub capability_named : String → Option StepCapability
capability_named text = find_first (λ name. capability_text name == text) step_capability_names

abbrev pub is_known_capability : String → Bool
is_known_capability text = elim (capability_named text) [ none ↦ false | some name ↦ true ]

-- The texts are kept until the plan is accepted, then each of them is known.
unfoldable pub read_capabilities : String → Option Json → Reading (List String)
read_capabilities path value = do
  capabilities ← read_string_array value path
  check_each
      (λ text index.
        report_if (not (text == "") && not (is_known_capability text))
          (issue "unknown_capability" (at_index path index)))
      0 capabilities
  pure capabilities

abbrev pub known_capabilities : List String → List StepCapability
known_capabilities [] = []
known_capabilities (text ∷ texts) =
    let rest = known_capabilities texts in
    elim (capability_named text) [ none ↦ rest | some name ↦ name ∷ rest ]

-- `Number.MAX_SAFE_INTEGER`.
abbrev pub max_safe_integer : ℕ
max_safe_integer = 9007199254740991

-- `Number.isSafeInteger(value)` for a number from 1, with a bound of the caller's.
abbrev pub as_positive : ℕ → Option Json → Option ℕ
as_positive bound (some (num n)) =
    if leb 1 n && (leb n bound && leb n max_safe_integer) then some n else none
as_positive bound _ = none

abbrev pub read_timeout : String → Option Json → Reading (Option ℕ)
read_timeout path none = pure none
read_timeout path (some value) = elim (as_positive max_safe_integer (some value)) [
  | none ↦ failing none (issue "invalid_timeout" path)
  | some n ↦ pure (some n)
]

abbrev pub max_step_retry_attempts : ℕ
max_step_retry_attempts = 5

abbrev pub retry_attempts : Option Json → Option ℕ
retry_attempts value = elim (as_record value) [
  | none ↦ none
  | some fields ↦ as_positive max_step_retry_attempts (get "maxAttempts" fields)
]

abbrev pub read_retry : String → Option Json → Reading (Option StepRetryPolicy)
read_retry path none = pure none
read_retry path (some value) = elim (retry_attempts (some value)) [
  | none ↦ failing none (issue "invalid_retry" path)
  | some n ↦ pure (some (record { max_attempts = n }))
]

-- What `readDeclarations` returns; a field that is absent is `none`.
pub record Declarations : Type 0 where
  pub inputs : Option (List StepInputReference)
  pub outputs : Option (List String)
  pub profile : Option CapabilityProfileName
  pub capabilities : Option (List String)
  pub path_locks : Option (List String)
  pub resource_locks : Option (List String)
  pub timeout_ms : Option ℕ
  pub retry : Option StepRetryPolicy

unfoldable pub read_declarations : Dict Json → String → Reading Declarations
read_declarations value path = do
  inputs ← read_present (read_inputs (at_field path "inputs")) (get "inputs" value)
  outputs ←
      read_present
        (read_named_identifiers "output_format" "duplicate_output" (at_field path "outputs"))
        (get "outputs" value)
  profile ← read_profile (at_field path "profile") (get "profile" value)
  capabilities ←
      read_present (read_capabilities (at_field path "capabilities")) (get "capabilities" value)
  path_locks ←
      read_present (λ locks. read_safe_repository_paths locks (at_field path "pathLocks"))
        (get "pathLocks" value)
  resource_locks ←
      read_present
        (read_named_identifiers "resource_lock_format" "duplicate_resource_lock"
          (at_field path "resourceLocks"))
        (get "resourceLocks" value)
  timeout_ms ← read_timeout (at_field path "timeoutMs") (get "timeoutMs" value)
  retry ← read_retry (at_field path "retry") (get "retry" value)
  pure (record {
    inputs = inputs;
    outputs = outputs;
    profile = profile;
    capabilities = capabilities;
    path_locks = path_locks;
    resource_locks = resource_locks;
    timeout_ms = timeout_ms;
    retry = retry;
  })
