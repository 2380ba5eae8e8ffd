-- ===== src/Domain/StepPlan/Sound.antt =====
-- src/domain/steps.ts: the steps that are read without an issue.
use pi_build_conductor.Prelude.{
  ℕ, String, true, false, not, ◌&&◌, List, [], ◌∷◌, Option, none, some, Dict, get, or_else, eqb,
  length, All, ◌==◌, string_eq, ◌≡◌, ◌≢◌, refl, arith, inl, inr, Option-cases,
}
use pi_build_conductor.Domain.Types.{capability_eq}
use pi_build_conductor.Domain.Json.{Json, as_array, as_record}
use pi_build_conductor.Domain.Steps.{StepKind, body_kind}
use pi_build_conductor.Domain.Reading.{at_field, at_index, read_each}
use pi_build_conductor.Domain.Reading.Texts.{read_string_array}
use pi_build_conductor.Domain.Reading.Valid.{
  IsText, nil-append, report_if-none, read_each-All, check_each-All, read_non_empty_string-IsText,
  read_string_array-All, read_allowed_paths-ArePaths, read_validation_commands-AreCommands,
  read_command_object-IsCommand,
}
use pi_build_conductor.Domain.StepPlan.Fields.{known_capabilities, Declarations}
use pi_build_conductor.Domain.StepPlan.Step.{
  kind_of, read_questions, read_body, step_of, is_profile_of, may_declare, check_authority,
  read_kind, read_step_fields, read_step, read_steps,
}
use pi_build_conductor.Domain.StepPlan.Valid.{
  Whenever, IsBody, AreCapabilities, IsStep, known_capabilities-AreCapabilities,
}
use pi_build_conductor.Domain.StepPlan.Declared.{AreKnown, IsDeclared, read_declarations-IsDeclared}

read_body-IsBody :
    (kind : StepKind) (value : Dict Json) (path : String)
    → (read_body kind value path).1 ≡ []
    → (body_kind (read_body kind value path).0 ≡ kind) × IsBody (read_body kind value path).0
unfolding read_body read_questions
read_body-IsBody StepKind.investigation value path h =
    let (a, _) = nil-append _ [] h in
    let (b, c) = nil-append _ _ a in
    let questions = (read_string_array (get "questions" value) (at_field path "questions")).0 in
    let some_questions = report_if-none (eqb (length questions) 0) _ (nil-append _ [] c).0 in
    (
      refl,
      (
        λ empty. absurd (cc (rw empty at some_questions)),
        read_string_array-All (get "questions" value) (at_field path "questions") b,
      ),
    )
read_body-IsBody StepKind.change value path h =
    let (a, h1) = nil-append _ _ h in
    let (b, h2) = nil-append _ _ h1 in
    let (c, _) = nil-append _ [] h2 in
    let (some_paths, paths) =
      read_allowed_paths-ArePaths (get "allowedPaths" value) (at_field path "allowedPaths") b in
    (
      refl,
      (
        read_string_array-All (get "acceptanceCriteria" value) (at_field path "acceptanceCriteria")
            a,
        some_paths,
        paths,
        read_validation_commands-AreCommands (get "validationCommands" value)
            (at_field path "validationCommands") c,
      ),
    )
read_body-IsBody StepKind.command value path h = (
  refl,
  read_command_object-IsCommand (get "command" value) (at_field path "command")
      (nil-append _ [] h).0,
)
read_body-IsBody StepKind.approval value path h = (
  refl,
  read_non_empty_string-IsText (get "prompt" value) (at_field path "prompt") (nil-append _ [] h).0,
)

check_authority-IsWithin :
    (kind : StepKind) (declared : Declarations) (path : String)
    → (check_authority kind declared path).1 ≡ []
    → (is_profile_of kind declared.profile ≡ true)
      × All
          (λ text. (not (text == "") && not (may_declare kind text)) ≡ false)
          (or_else declared.capabilities [])
unfolding check_authority
check_authority-IsWithin kind declared path h =
    let (a, b) = nil-append _ _ h in
    let profile = report_if-none (not (is_profile_of kind declared.profile)) _ a in
    (
      ground arith,
      check_each-All _ _ (λ text i k. report_if-none _ _ k) 0 (or_else declared.capabilities []) b,
    )

declared_capabilities :
    (kind : StepKind) (texts : Option (List String))
    → Whenever AreKnown texts
    → All (λ text. (not (text == "") && not (may_declare kind text)) ≡ false) (or_else texts [])
    → Whenever
        (AreCapabilities kind)
        (elim texts [ none ↦ none | some names ↦ some (known_capabilities names) ])
declared_capabilities kind none known h = tt
declared_capabilities kind (some texts) known h =
    known_capabilities-AreCapabilities kind texts known.0 h

read_kind-IsStep :
    (kind : Option StepKind) (id title description : String) (dependencies : List String)
    (declared : Declarations) (value : Dict Json) (path : String)
    → IsText id
    → IsText title
    → IsText description
    → All IsText dependencies
    → IsDeclared declared
    → (read_kind kind (step_of id title description dependencies) declared value path).1 ≡ []
    → IsStep (read_kind kind (step_of id title description dependencies) declared value path).0
unfolding read_kind
read_kind-IsStep none id title description dependencies declared value path a b c d e h =
    absurd (cc)
read_kind-IsStep (some kind) id title description dependencies declared value path a b c d e h =
    let (f, h1) = nil-append _ _ h in
    let (g, _) = nil-append _ [] h1 in
    let (same, body) = read_body-IsBody kind value path f in
    let (profile, capabilities) = check_authority-IsWithin kind declared path g in
    record {
      identified = a;
      titled = b;
      described = c;
      depends = d;
      inputs = e.inputs;
      outputs = e.outputs;
      path_locks = e.path_locks;
      resource_locks = e.resource_locks;
      timeout_ms = e.timeout_ms;
      retry = e.retry;
      profile = rw same profile;
      capabilities =
          rw same (declared_capabilities kind declared.capabilities e.capabilities capabilities);
      body = body;
    }

read_step_fields-IsStep :
    (value : Dict Json) (path : String)
    → (read_step_fields value path).1 ≡ []
    → IsStep (read_step_fields value path).0
unfolding read_step_fields
read_step_fields-IsStep value path h =
    let (a, h1) = nil-append _ _ h in
    let (b, h2) = nil-append _ _ h1 in
    let (c, h3) = nil-append _ _ h2 in
    let (d, h4) = nil-append _ _ h3 in
    let (e, f) = nil-append _ _ h4 in
    read_kind-IsStep (kind_of (get "kind" value)) _ _ _ _ _ value path
      (read_non_empty_string-IsText (get "id" value) (at_field path "id") a)
      (read_non_empty_string-IsText (get "title" value) (at_field path "title") b)
      (read_non_empty_string-IsText (get "description" value) (at_field path "description") c)
      (read_string_array-All (get "dependencies" value) (at_field path "dependencies") d)
      (read_declarations-IsDeclared value path e) f

read_step-IsStep :
    (value : Json) (index : ℕ) → (read_step value index).1 ≡ [] → IsStep (read_step value index).0
unfolding read_step
read_step-IsStep value index h = elim (Option-cases (as_record (some value))) [
  | inl q ↦ absurd (cc (rw (q, read_step) at h))
  | inr (fields, q) ↦
      rw (q, read_step)
        (read_step_fields-IsStep fields (at_index "steps" index) (rw (q, read_step) at h))
]

pub read_steps-All :
    (value : Option Json)
    → (read_steps value).1 ≡ []
    → ((read_steps value).0 ≢ []) × All IsStep (read_steps value).0
unfolding read_steps read_each
read_steps-All value h = elim (Option-cases (as_array value)) [
  | inl q ↦ absurd (cc (rw (q, read_steps) at h))
  | inr ([], q) ↦ absurd (cc (rw (q, read_steps) at h))
  | inr (step ∷ steps, q) ↦
      rw (q, read_steps)
        (
          λ empty. absurd (cc),
          read_each-All _ IsStep read_step-IsStep 0 (step ∷ steps) (rw (q, read_steps) at h),
        )
]
