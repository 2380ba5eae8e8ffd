-- ===== src/Domain/StepPlan/Valid.antt =====
-- src/domain/steps.ts: what a step that is read without an issue satisfies.
use pi_build_conductor.Prelude.{
  ℕ, ◌≤◌, String, Bool, true, false, not, ◌&&◌, List, [], ◌∷◌, Option, none, some, any, find_first,
  includes, is_distinct, All, ◌==◌, string_eq, ◌≡◌, ◌≢◌, refl, arith, inl, inr, Bool-cases,
  Option-cases, eq_of_beq, subst, sym, some-injective,
}
use pi_build_conductor.Domain.Types.{
  StepCapability, read_repository, mutate_repository, execute_commands, capability_eq,
  step_capability_names,
}
use pi_build_conductor.Domain.Artifacts.Identity.{is_name}
use pi_build_conductor.Domain.Steps.{
  StepKind, StepInputReference, StepBody, StepDefinition, step_kind, step_kind_capability_maxima,
}
use pi_build_conductor.Domain.Reading.Valid.{IsText, IsCommand, AreCommands, ArePaths}
use pi_build_conductor.Domain.StepPlan.Fields.{
  known_capabilities, capability_named, capability_text, max_safe_integer, max_step_retry_attempts,
}
use pi_build_conductor.Domain.StepPlan.Step.{is_profile_of, may_declare}

-- What holds of a value that is there.
abbrev pub Whenever : {A : Type 0} → (A → Type 0) → Option A → Type 0
Whenever P none = Unit
Whenever P (some a) = P a

abbrev pub IsInput : StepInputReference → Type 0
IsInput input = IsText input.step_id × IsText input.output

abbrev pub AreNames : List String → Type 0
AreNames names = All (λ name. is_name name ≡ true) names × (is_distinct names ≡ true)

abbrev pub IsWithin : ℕ → ℕ → Type 0
IsWithin bound n = (1 ≤ n) × (n ≤ bound)

abbrev pub IsBody : StepBody → Type 0
IsBody (StepBody.investigation questions) = (questions ≢ []) × All IsText questions
IsBody (StepBody.change criteria paths commands) =
    All IsText criteria × (paths ≢ []) × ArePaths paths × AreCommands commands
IsBody (StepBody.command c) = IsCommand c
IsBody (StepBody.approval prompt) = IsText prompt

-- The capabilities are among the largest of a kind.
abbrev pub AreCapabilities : StepKind → List StepCapability → Type 0
AreCapabilities kind = All (λ c. includes c (step_kind_capability_maxima kind) ≡ true)

pub record IsStep (step : StepDefinition) : Type 0 where
  pub identified : IsText step.id
  pub titled : IsText step.title
  pub described : IsText step.description
  pub depends : All IsText step.dependencies
  pub inputs : Whenever (All IsInput) step.inputs
  pub outputs : Whenever AreNames step.outputs
  pub path_locks : Whenever ArePaths step.path_locks
  pub resource_locks : Whenever AreNames step.resource_locks
  pub timeout_ms : Whenever (IsWithin max_safe_integer) step.timeout_ms
  pub retry : Whenever (λ r. IsWithin max_step_retry_attempts r.max_attempts) step.retry
  pub profile : is_profile_of (step_kind step) step.profile ≡ true
  pub capabilities : Whenever (AreCapabilities (step_kind step)) step.capabilities
  pub body : IsBody step.body

capability_among :
    (c : StepCapability) (cs : List StepCapability)
    → any (λ other. capability_text other == capability_text c) cs ≡ true
    → includes c cs ≡ true
capability_among c [] h = absurd (cc)
capability_among read_repository (read_repository ∷ cs) h = refl
capability_among read_repository (mutate_repository ∷ cs) h = capability_among read_repository cs h
capability_among read_repository (execute_commands ∷ cs) h = capability_among read_repository cs h
capability_among mutate_repository (read_repository ∷ cs) h =
    capability_among mutate_repository cs h
capability_among mutate_repository (mutate_repository ∷ cs) h = refl
capability_among mutate_repository (execute_commands ∷ cs) h =
    capability_among mutate_repository cs h
capability_among execute_commands (read_repository ∷ cs) h = capability_among execute_commands cs h
capability_among execute_commands (mutate_repository ∷ cs) h =
    capability_among execute_commands cs h
capability_among execute_commands (execute_commands ∷ cs) h = refl

find_first-holds :
    (p : StepCapability → Bool) (cs : List StepCapability) (c : StepCapability)
    → find_first p cs ≡ some c
    → p c ≡ true
find_first-holds p [] c h = absurd (cc)
find_first-holds p (x ∷ cs) c h = elim (Bool-cases (p x)) [
  | inl q ↦ subst (λ y. p y ≡ true) (some-injective (rw q at h)) q
  | inr q ↦ find_first-holds p cs c (rw q at h)
]

pub known_capabilities-AreCapabilities :
    (kind : StepKind) (texts : List String)
    → All IsText texts
    → All (λ text. (not (text == "") && not (may_declare kind text)) ≡ false) texts
    → AreCapabilities kind (known_capabilities texts)
known_capabilities-AreCapabilities kind [] texts h = tt
known_capabilities-AreCapabilities kind (text ∷ rest) texts h =
    elim (Option-cases (capability_named text)) [
      | inl q ↦
          rw (q, known_capabilities) (known_capabilities-AreCapabilities kind rest texts.1 h.1)
      | inr (c, q) ↦
          let some_text = texts.0.1 in
          let allowed = h.0 in
          let declared : may_declare kind text ≡ true = ground arith in
          let same =
            eq_of_beq (capability_text c) text
              (find_first-holds (λ name. capability_text name == text) step_capability_names c q) in
          rw (q, known_capabilities)
            (
              capability_among c (step_kind_capability_maxima kind) (rw (sym same) at declared),
              known_capabilities-AreCapabilities kind rest texts.1 h.1,
            )
    ]
