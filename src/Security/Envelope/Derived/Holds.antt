-- ===== src/Security/Envelope/Derived/Holds.antt =====
-- src/security/envelope.ts: a plan stays within the envelope that is derived from it.
use text.Mathlib.Text.{starts_with}
use text.Mathlib.TextPositions.{slice_all}
use pi_build_conductor.Prelude.{
  String, Bool, true, false, List, [], ◌∷◌, Option, or_else, flat_map, includes, includes-append,
  any, All, All-of, All-map, All-both, ◌==◌, string_eq, beq_refl, eq_of_beq, Eq, All-includes, ok,
  ◌≡◌, refl, ◌∙◌, arith, inl, inr, Bool-cases,
}
use pi_build_conductor.Domain.Types.{
  mutate_repository, capability_eq, ValidationCommand, RunCapabilityProfiles,
}
use pi_build_conductor.Domain.Json.{Json}
use pi_build_conductor.Domain.Steps.{StepBody, StepDefinition, WorkflowPlan}
use pi_build_conductor.Domain.StepPlan.Valid.{IsBody, IsStep}
use pi_build_conductor.Domain.StepPlan.Accepted.{IsWorkflowPlan}
use pi_build_conductor.Domain.Translation.{read_workflow_plan_document}
use pi_build_conductor.Domain.Translation.Accepted.{read_workflow_plan_document-IsWorkflowPlan}
use pi_build_conductor.Security.Envelope.{
  envelope_repository, effective_step_capabilities, path_is_allowed, ends_with_slash,
}
use pi_build_conductor.Security.Envelope.Fields.{ordered_capabilities}
use pi_build_conductor.Security.Envelope.Valid.{includes-ordered_capabilities}
use pi_build_conductor.Security.Envelope.Derived.{
  unique, change_paths, plan_capabilities, mutable_paths, plan_paths, derive_authority_envelope,
}
use pi_build_conductor.Security.Envelope.Derived.Collected.{includes-unique}
use pi_build_conductor.Security.Envelope.Derived.Scopes.{MayRead, derived_scope}
use pi_build_conductor.Security.Envelope.Derived.Returns.{
  derived_envelope, normalize_authority_envelope-derived,
}
use pi_build_conductor.Security.Authority.{
  same_args, same_command, lacks_validation, plan_authority_issues,
}
use pi_build_conductor.Security.Authority.Steps.{IsGranted, IsInScope, StaysInScope}
use pi_build_conductor.Security.Authority.Sound.{IsWithin, plan_authority_issues-none_iff}

-- The profiles grant what the step declares.
abbrev pub IsEffective : Option RunCapabilityProfiles → StepDefinition → Type 0
IsEffective profiles step = IsGranted (effective_step_capabilities step profiles) step

starts_with_refl : (text : String) → starts_with text text ≡ true
starts_with_refl text = rw (slice_all text) (beq_refl text)

path_is_allowed-member :
    (path : String) (paths : List String)
    → includes path paths ≡ true
    → path_is_allowed path paths ≡ true
unfolding path_is_allowed
path_is_allowed-member path [] h = absurd (cc)
path_is_allowed-member path (other ∷ paths) h = elim (Bool-cases (other == path)) [
  | inl q ↦
      let same = eq_of_beq other path q in
      elim (Bool-cases (ends_with_slash path)) [
        | inl e ↦ rw (same, e, starts_with_refl path) refl
        | inr e ↦ rw (same, e, beq_refl path) refl
      ]
  | inr q ↦ let rest = path_is_allowed-member path paths (rw q at h) in ground arith
]

none_withheld : (path : String) → path_is_allowed path [] ≡ false
unfolding path_is_allowed
none_withheld path = refl

same_args_refl : (args : List String) → same_args args args ≡ true
unfolding same_args
same_args_refl [] = refl
same_args_refl (arg ∷ args) = rw (beq_refl arg, same_args_refl args) refl

same_command_refl : (command : ValidationCommand) → same_command command command ≡ true
unfolding same_command
same_command_refl command = rw (beq_refl command.command, same_args_refl command.args) refl

-- What one of the items gives is among what all of them give.
collected :
    {A : Type 0} ⦃e : Eq A⦄ (f : StepDefinition → List A) (steps : List StepDefinition)
    → All (λ step. All (λ a. includes a (flat_map f steps) ≡ true) (f step)) steps
collected f [] = tt
collected f (step ∷ steps) =
    let later = flat_map f steps in
    (
      All-of _ (f step) (λ a m. let both = includes-append a (f step) later in ground arith),
      All-map _ _ steps
          (λ other found.
            All-map _ _ (f other)
              (λ a m. let both = includes-append a (f step) later in ground arith) found)
          (collected f steps),
    )

plan_capabilities-IsGranted :
    (steps : List StepDefinition) (profiles : Option RunCapabilityProfiles)
    → All (IsEffective profiles) steps
    → All (IsGranted (plan_capabilities steps profiles)) steps
unfolding plan_capabilities
plan_capabilities-IsGranted steps profiles effective =
    let all = flat_map (λ step. effective_step_capabilities step profiles) steps in
    All-both _ (IsEffective profiles) (IsGranted (ordered_capabilities all)) steps
      (λ step found asked.
        All-map _ _ (or_else step.capabilities [])
          (λ c m.
            includes-ordered_capabilities c all
            ∙ All-includes (λ d. includes d all ≡ true) c
                (effective_step_capabilities step profiles) found m)
          asked)
      (collected (λ step. effective_step_capabilities step profiles) steps) effective

derived_scope-StaysInScope :
    (plan : WorkflowPlan) (profiles : Option RunCapabilityProfiles)
    → All (StaysInScope (derived_scope plan profiles) profiles) plan.steps
unfolding plan_paths plan_capabilities
derived_scope-StaysInScope plan profiles =
    let all = flat_map (mutable_paths profiles) plan.steps in
    let capabilities = flat_map (λ step. effective_step_capabilities step profiles) plan.steps in
    All-both (λ step. All (λ path. includes path all ≡ true) (mutable_paths profiles step))
      (λ step.
        All (λ c. includes c capabilities ≡ true) (effective_step_capabilities step profiles))
      (StaysInScope (derived_scope plan profiles) profiles) plan.steps
      (λ step found granted.
        elim (Bool-cases (includes mutate_repository (effective_step_capabilities step profiles))) [
          | inr q ↦ inl q
          | inl q ↦
              let may =
                includes-ordered_capabilities mutate_repository capabilities
                ∙ All-includes (λ d. includes d capabilities ≡ true) mutate_repository
                    (effective_step_capabilities step profiles) granted q in
              inr (
                All-map (λ path. includes path all ≡ true) (IsInScope (derived_scope plan profiles))
                  (change_paths step.body)
                  (λ path m. rw may (
                    path_is_allowed-member path (unique all) (includes-unique path all ∙ m),
                    none_withheld path,
                  ))
                  (rw q at found))
        ])
      (collected (mutable_paths profiles) plan.steps)
      (collected (λ step. effective_step_capabilities step profiles) plan.steps)

validated : (body : StepBody) → IsBody body → lacks_validation body ≡ false
validated (StepBody.investigation _) h = refl
validated (StepBody.change _ _ []) h = absurd (h.3.0 refl)
validated (StepBody.change _ _ (c ∷ commands)) h = refl
validated (StepBody.command _) h = refl
validated (StepBody.approval _) h = refl

among_final :
    (commands : List ValidationCommand)
    → All (λ command. any (λ other. same_command other command) commands ≡ true) commands
among_final [] = tt
among_final (c ∷ commands) = (
  rw (same_command_refl c) refl,
  All-map (λ command. any (λ other. same_command other command) commands ≡ true) _ commands
      (λ command m. ground arith) (among_final commands),
)

derived_envelope-IsWithin :
    (root : String) (plan : WorkflowPlan) (profiles : Option RunCapabilityProfiles)
    (sandboxed : Bool)
    → IsWorkflowPlan plan
    → All (IsEffective profiles) plan.steps
    → IsWithin plan (derived_envelope root plan profiles sandboxed) root profiles
unfolding envelope_repository
derived_envelope-IsWithin root plan profiles sandboxed h effective = (
  record { root = root; mutation = derived_scope plan profiles },
  rw (beq_refl root) refl,
  All-both (IsGranted (plan_capabilities plan.steps profiles))
      (StaysInScope (derived_scope plan profiles) profiles) _ plan.steps
      (λ step granted stays. (granted, stays))
      (plan_capabilities-IsGranted plan.steps profiles effective)
      (derived_scope-StaysInScope plan profiles),
  among_final plan.final_validation_commands,
  inr (
      All-map IsStep (λ step. lacks_validation step.body ≡ false) plan.steps
        (λ step s. validated step.body s.body) h.steps),
)

-- If a plan document is read, the root is not empty, the steps together may do nothing or may
-- read, and the profiles grant each step what it declares, an envelope is derived: it names the
-- root with the capabilities of the steps and the paths of those that may mutate, and the plan
-- raises no issue under it.
pub derive_authority_envelope-holds :
    (root : String) (document : Json) (profiles : Option RunCapabilityProfiles) (sandboxed : Bool)
    (plan : WorkflowPlan)
    → read_workflow_plan_document document ≡ ok plan
    → (root == "") ≡ false
    → MayRead (plan_capabilities plan.steps profiles)
    → All (IsEffective profiles) plan.steps
    → let envelope = derived_envelope root plan profiles sandboxed in
      (derive_authority_envelope root document profiles sandboxed ≡ ok envelope)
      × (plan_authority_issues plan envelope root profiles ≡ [])
unfolding derive_authority_envelope
derive_authority_envelope-holds root document profiles sandboxed plan read some_root reads
      effective =
    let whole = (read_workflow_plan_document-IsWorkflowPlan document plan read).0 in
    (
      rw
          (
            read,
            derive_authority_envelope,
            normalize_authority_envelope-derived root plan profiles sandboxed whole some_root reads,
          )
          refl,
      (plan_authority_issues-none_iff plan (derived_envelope root plan profiles sandboxed) root
            profiles).1
          (derived_envelope-IsWithin root plan profiles sandboxed whole effective),
    )
