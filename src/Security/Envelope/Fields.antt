-- ===== src/Security/Envelope/Fields.antt =====
-- src/security/envelope.ts: the parts of an envelope document, read from JSON.
use Prim.Native.Char.{code}
use text.Mathlib.Text.{starts_with}
use pi_build_conductor.Prelude.{
  ℕ, String, Bool, true, false, not, ◌&&◌, ◌||◌, List, [], ◌∷◌, Option, none, some, Dict, get, keys,
  filter, includes, is_distinct, eqb, length, ◌==◌, string_eq, if◌then◌else◌,
}
use pi_build_conductor.Domain.Types.{
  StepCapability, read_repository, mutate_repository, capability_eq, step_capability_names,
}
use pi_build_conductor.Domain.Json.{Json, as_array, as_record, as_text}
use pi_build_conductor.Domain.Text.{concat}
use pi_build_conductor.Domain.Reading.{
  Reading, ◌>>=◌, ◌>>◌, pure, failing, report_if, issue, at_field, at_index, check_each,
}
use pi_build_conductor.Domain.Reading.Texts.{read_non_empty_string, read_string_array}
use pi_build_conductor.Domain.Reading.Commands.{has_nul}
use pi_build_conductor.Domain.Reading.Paths.{
  split_slash, join_reversed, is_separator, read_safe_repository_paths,
}
use pi_build_conductor.Domain.StepPlan.Fields.{capability_named}
use pi_build_conductor.Security.Envelope.{
  EnvelopeSource, authored, derived, EnvelopeMutationScope, ends_with_slash, path_is_allowed,
}

abbrev key_path : String → String → String
key_path path key = if path == "" then key else at_field path key

unfoldable pub reject_unknown_keys : List String → String → Dict Json → Reading (Unit {0})
reject_unknown_keys allowed path value =
    check_each
      (λ key index.
        report_if (not (includes key allowed)) (issue "unknown_key" (key_path path key)))
      0 (keys value)

-- `value === undefined ? [] : read(value)`.
abbrev pub or_empty :
    {A : Type 0} → (Option Json → Reading (List A)) → Option Json → Reading (List A)
or_empty read none = pure []
or_empty read (some value) = read (some value)

-- `value ?? {}` where it has to be an object if it is there.
abbrev pub as_record_or_empty : Option Json → Option (Dict Json)
as_record_or_empty none = some []
as_record_or_empty (some value) = as_record (some value)

-- `value !== undefined && value !== text`.
abbrev pub is_other_than : String → Option Json → Bool
is_other_than text none = false
is_other_than text (some value) = elim (as_text (some value)) [
  | none ↦ true
  | some other ↦ not (other == text)
]

unfoldable pub read_unique_strings : String → Option Json → Reading (List String)
read_unique_strings path value = do
  values ← read_string_array value path
  report_if (not (is_distinct values)) (issue "duplicate_entry" path)
  pure values

-- `normalize` of `node:path` on a path that starts with a slash, where `/` is the separator.
abbrev keep_segment : String → List String → List String
keep_segment segment kept =
    if segment == "" || segment == "."
    then kept
    else if segment == ".."
    then elim kept [ [] ↦ [] | last ∷ rest ↦ rest ]
    else segment ∷ kept

unfoldable pub resolve_absolute : List String → List String → List String
resolve_absolute kept [] = kept
resolve_absolute kept (segment ∷ segments) = resolve_absolute (keep_segment segment kept) segments

unfoldable pub normalize_absolute : String → String
normalize_absolute path =
    let joined = join_reversed (resolve_absolute [] (split_slash path)) "" in
    if joined == ""
    then "/"
    else concat "/" (if ends_with_slash path then concat joined "/" else joined)

-- `text.replace(/[\\/]+$/, "")`.
unfoldable pub without_separators : String → String
without_separators String.[] = ""
without_separators (String.◌∷◌ c text) =
    let rest = without_separators text in
    if is_separator (code c) && rest == "" then "" else String.◌∷◌ c rest

unfoldable pub canonical_root : String → String
canonical_root root =
    let canonical = without_separators (normalize_absolute root) in
    if canonical == "" then root else canonical

unfoldable pub check_repository_root : String → String → Reading (Unit {0})
check_repository_root path root =
    if root == ""
    then pure tt
    else if not (starts_with root "/") || has_nul root
    then report_if true (issue "repository_root" path)
    else report_if (not (canonical_root root == root)) (issue "non_canonical_root" path)

unfoldable pub read_repository_root : EnvelopeSource → Option Json → String → Reading String
read_repository_root derived value path = elim (as_text value) [
  | none ↦ failing "" (issue "repository_root" path)
  | some root ↦ if root == "" then failing "" (issue "repository_root" path) else pure root
]
read_repository_root authored value path = do
  root ← read_non_empty_string value path
  check_repository_root path root
  pure root

unfoldable pub ordered_capabilities : List StepCapability → List StepCapability
ordered_capabilities capabilities =
    filter (λ capability. includes capability capabilities) step_capability_names

abbrev pub known_capability : Json → Option StepCapability
known_capability entry = elim (as_text (some entry)) [
  | none ↦ none
  | some text ↦ capability_named text
]

-- The loop over the entries: an unknown one is reported and passed over.
unfoldable pub read_known_capabilities : String → ℕ → List Json → Reading (List StepCapability)
read_known_capabilities path index [] = pure []
read_known_capabilities path index (entry ∷ entries) =
    let rest = read_known_capabilities path (ℕ.suc index) entries in
    elim (known_capability entry) [
      | none ↦ report_if true (issue "unknown_capability" (at_index path index)) >> rest
      | some capability ↦ rest >>= λ capabilities. pure (capability ∷ capabilities)
    ]

unfoldable pub read_capability_array : String → List Json → Reading (List StepCapability)
read_capability_array path entries = do
  capabilities ← read_known_capabilities path 0 entries
  report_if (not (is_distinct capabilities)) (issue "duplicate_capability" path)
  report_if (not (eqb (length capabilities) 0) && not (includes read_repository capabilities))
      (issue "missing_read_capability" path)
  pure (ordered_capabilities capabilities)

-- Absent capabilities are the least that can do anything.
unfoldable pub read_capabilities : String → Option Json → Reading (List StepCapability)
read_capabilities path none = pure (read_repository ∷ [])
read_capabilities path (some value) = elim (as_array (some value)) [
  | none ↦ failing [] (issue "capability_array" path)
  | some entries ↦ read_capability_array path entries
]

unfoldable pub read_scope_fields : Dict Json → String → Reading EnvelopeMutationScope
read_scope_fields scope path = do
  reject_unknown_keys ("capabilities" ∷ "allowedPaths" ∷ "forbiddenPaths" ∷ []) path scope
  capabilities ← read_capabilities (at_field path "capabilities") (get "capabilities" scope)
  allowed_paths ←
      or_empty (λ value. read_safe_repository_paths value (at_field path "allowedPaths"))
        (get "allowedPaths" scope)
  forbidden_paths ←
      or_empty (λ value. read_safe_repository_paths value (at_field path "forbiddenPaths"))
        (get "forbiddenPaths" scope)
  let mutates = includes mutate_repository capabilities
  report_if (mutates && eqb (length allowed_paths) 0)
      (issue "missing_allowed_paths" (at_field path "allowedPaths"))
  report_if (not mutates && not (eqb (length allowed_paths) 0))
      (issue "unusable_allowed_paths" (at_field path "allowedPaths"))
  check_each
      (λ allowed index.
        report_if (path_is_allowed allowed forbidden_paths)
          (issue "cancelled_path" (at_index (at_field path "allowedPaths") index)))
      0 allowed_paths
  pure (record {
    capabilities = capabilities;
    allowed_paths = allowed_paths;
    forbidden_paths = forbidden_paths;
  })

abbrev pub no_scope : EnvelopeMutationScope
no_scope = record { capabilities = []; allowed_paths = []; forbidden_paths = [] }

unfoldable pub read_mutation_scope : Option Json → String → Reading EnvelopeMutationScope
read_mutation_scope value path = elim (as_record_or_empty value) [
  | none ↦ failing no_scope (issue "mutation_object" path)
  | some scope ↦ read_scope_fields scope path
]
