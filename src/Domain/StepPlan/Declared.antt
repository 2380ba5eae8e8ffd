-- ===== src/Domain/StepPlan/Declared.antt =====
-- src/domain/steps.ts: the declarations that are read without an issue.
use pi_build_conductor.Prelude.{
  ℕ, String, true, false, not, ◌&&◌, List, [], ◌∷◌, Option, none, some, Dict, get, is_distinct, leb,
  All, ◌==◌, string_eq, ◌≡◌, arith, inl, inr, Bool-cases, Option-cases, leb→le, subst,
  some-injective,
}
use pi_build_conductor.Domain.Types.{capability_eq}
use pi_build_conductor.Domain.Artifacts.Identity.{is_name}
use pi_build_conductor.Domain.Json.{Json, num, as_array, as_record}
use pi_build_conductor.Domain.Reading.{Reading, issue, at_field, at_index}
use pi_build_conductor.Domain.Reading.Texts.{read_string_array}
use pi_build_conductor.Domain.Reading.Valid.{
  IsText, ArePaths, nil-append, report_if-none, read_each-All, check_each-All,
  read_non_empty_string-IsText, read_string_array-All, read_safe_repository_paths-ArePaths,
}
use pi_build_conductor.Domain.StepPlan.Fields.{
  read_present, read_input, read_inputs, read_named_identifiers, read_capabilities,
  is_known_capability, max_safe_integer, as_positive, read_timeout, max_step_retry_attempts,
  retry_attempts, read_retry, Declarations, read_declarations,
}
use pi_build_conductor.Domain.StepPlan.Valid.{Whenever, IsInput, AreNames, IsWithin}

read_present-Whenever :
    {A : Type 0} (read : Option Json → Reading A) (P : A → Type 0)
    → ((value : Option Json) → (read value).1 ≡ [] → P (read value).0)
    → (value : Option Json) → (read_present read value).1 ≡ []
    → Whenever P (read_present read value).0
read_present-Whenever read P sound none h = tt
read_present-Whenever read P sound (some value) h = sound (some value) (nil-append _ _ h).0

read_input-IsInput :
    (item : Json) (path : String) → (read_input item path).1 ≡ [] → IsInput (read_input item path).0
unfolding read_input
read_input-IsInput item path h = elim (Option-cases (as_record (some item))) [
  | inl q ↦ absurd (cc (rw (q, read_input) at h))
  | inr (fields, q) ↦
      let (a, h1) = nil-append _ _ (rw (q, read_input) at h) in
      rw (q, read_input)
        (
          read_non_empty_string-IsText (get "stepId" fields) _ a,
          read_non_empty_string-IsText (get "output" fields) _ (nil-append _ _ h1).0,
        )
]

read_inputs-All :
    (path : String) (value : Option Json)
    → (read_inputs path value).1 ≡ []
    → All IsInput (read_inputs path value).0
unfolding read_inputs
read_inputs-All path value h = elim (Option-cases (as_array value)) [
  | inl q ↦ absurd (cc (rw (q, read_inputs) at h))
  | inr (items, q) ↦
      rw (q, read_inputs)
        (read_each-All _ IsInput (λ item i k. read_input-IsInput item (at_index path i) k) 0 items
          (rw (q, read_inputs) at h))
]

named :
    (names : List String)
    → All IsText names
    → All (λ name. (not (name == "") && not (is_name name)) ≡ false) names
    → All (λ name. is_name name ≡ true) names
named [] texts h = tt
named (name ∷ names) texts h =
    let (_, some_text) = texts.0 in let first = h.0 in (ground arith, named names texts.1 h.1)

read_named_identifiers-AreNames :
    (format_code duplicate_code path : String) (value : Option Json)
    → (read_named_identifiers format_code duplicate_code path value).1 ≡ []
    → AreNames (read_named_identifiers format_code duplicate_code path value).0
unfolding read_named_identifiers
read_named_identifiers-AreNames format_code duplicate_code path value h =
    let (a, h1) = nil-append _ _ h in
    let (b, h2) = nil-append _ _ h1 in
    let (c, _) = nil-append _ [] h2 in
    let names = (read_string_array value path).0 in
    let distinct = report_if-none (not (is_distinct names)) (issue duplicate_code path) c in
    (
      named names (read_string_array-All value path a)
          (check_each-All _ _ (λ name i k. report_if-none _ _ k) 0 names b),
      ground arith,
    )

as_positive-IsWithin :
    (bound : ℕ) (value : Option Json) (n : ℕ) → as_positive bound value ≡ some n → IsWithin bound n
as_positive-IsWithin bound none n h = absurd (cc)
as_positive-IsWithin bound (some Json.null) n h = absurd (cc)
as_positive-IsWithin bound (some (Json.bool b)) n h = absurd (cc)
as_positive-IsWithin bound (some Json.other_num) n h = absurd (cc)
as_positive-IsWithin bound (some (Json.str text)) n h = absurd (cc)
as_positive-IsWithin bound (some (Json.arr items)) n h = absurd (cc)
as_positive-IsWithin bound (some (Json.obj fields)) n h = absurd (cc)
as_positive-IsWithin bound (some (num m)) n h =
    elim (Bool-cases (leb 1 m && (leb m bound && leb m max_safe_integer))) [
      | inr q ↦ absurd (cc (rw q at h))
      | inl q ↦
          let same : m ≡ n = some-injective (rw q at h) in
          subst (IsWithin bound) same (leb→le 1 m (ground arith), leb→le m bound (ground arith))
    ]

read_timeout-IsWithin :
    (path : String) (value : Option Json)
    → (read_timeout path value).1 ≡ []
    → Whenever (IsWithin max_safe_integer) (read_timeout path value).0
read_timeout-IsWithin path none h = tt
read_timeout-IsWithin path (some value) h =
    elim (Option-cases (as_positive max_safe_integer (some value))) [
      | inl q ↦ absurd (cc (rw (q, read_timeout) at h))
      | inr (n, q) ↦ rw (q, read_timeout) (as_positive-IsWithin max_safe_integer (some value) n q)
    ]

retry_attempts-IsWithin :
    (value : Option Json) (n : ℕ)
    → retry_attempts value ≡ some n
    → IsWithin max_step_retry_attempts n
retry_attempts-IsWithin value n h = elim (Option-cases (as_record value)) [
  | inl q ↦ absurd (cc (rw (q, retry_attempts) at h))
  | inr (fields, q) ↦
      as_positive-IsWithin max_step_retry_attempts (get "maxAttempts" fields) n
        (rw (q, retry_attempts) at h)
]

read_retry-IsWithin :
    (path : String) (value : Option Json)
    → (read_retry path value).1 ≡ []
    → Whenever (λ r. IsWithin max_step_retry_attempts r.max_attempts) (read_retry path value).0
read_retry-IsWithin path none h = tt
read_retry-IsWithin path (some value) h = elim (Option-cases (retry_attempts (some value))) [
  | inl q ↦ absurd (cc (rw (q, read_retry) at h))
  | inr (n, q) ↦ rw (q, read_retry) (retry_attempts-IsWithin (some value) n q)
]

-- The texts of capabilities are those of known ones.
abbrev pub AreKnown : List String → Type 0
AreKnown texts =
    All IsText texts
    × All (λ text. (not (text == "") && not (is_known_capability text)) ≡ false) texts

read_capabilities-AreKnown :
    (path : String) (value : Option Json)
    → (read_capabilities path value).1 ≡ []
    → AreKnown (read_capabilities path value).0
unfolding read_capabilities
read_capabilities-AreKnown path value h =
    let (a, h1) = nil-append _ _ h in
    (
      read_string_array-All value path a,
      check_each-All _ _ (λ text i k. report_if-none _ _ k) 0 (read_string_array value path).0
          (nil-append _ [] h1).0,
    )

-- What the declarations of a step satisfy before its kind is known.
pub record IsDeclared (d : Declarations) : Type 0 where
  pub inputs : Whenever (All IsInput) d.inputs
  pub outputs : Whenever AreNames d.outputs
  pub capabilities : Whenever AreKnown d.capabilities
  pub path_locks : Whenever ArePaths d.path_locks
  pub resource_locks : Whenever AreNames d.resource_locks
  pub timeout_ms : Whenever (IsWithin max_safe_integer) d.timeout_ms
  pub retry : Whenever (λ r. IsWithin max_step_retry_attempts r.max_attempts) d.retry

pub read_declarations-IsDeclared :
    (value : Dict Json) (path : String)
    → (read_declarations value path).1 ≡ []
    → IsDeclared (read_declarations value path).0
unfolding read_declarations
read_declarations-IsDeclared value path h =
    let (a, h1) = nil-append _ _ h in
    let (b, h2) = nil-append _ _ h1 in
    let (_, h3) = nil-append _ _ h2 in
    let (c, h4) = nil-append _ _ h3 in
    let (d, h5) = nil-append _ _ h4 in
    let (e, h6) = nil-append _ _ h5 in
    let (f, h7) = nil-append _ _ h6 in
    let (g, _) = nil-append _ [] h7 in
    record {
      inputs = read_present-Whenever _ (All IsInput) (read_inputs-All _) (get "inputs" value) a;
      outputs =
          read_present-Whenever _ AreNames (read_named_identifiers-AreNames _ _ _)
            (get "outputs" value) b;
      capabilities =
          read_present-Whenever _ AreKnown (read_capabilities-AreKnown _) (get "capabilities" value)
            c;
      path_locks =
          read_present-Whenever _ ArePaths
            (λ v k. read_safe_repository_paths-ArePaths v (at_field path "pathLocks") k)
            (get "pathLocks" value) d;
      resource_locks =
          read_present-Whenever _ AreNames (read_named_identifiers-AreNames _ _ _)
            (get "resourceLocks" value) e;
      timeout_ms = read_timeout-IsWithin (at_field path "timeoutMs") (get "timeoutMs" value) f;
      retry = read_retry-IsWithin (at_field path "retry") (get "retry" value) g;
    }
