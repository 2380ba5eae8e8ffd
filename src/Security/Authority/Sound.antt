-- ===== src/Security/Authority/Sound.antt =====
-- src/security/authority.ts: that the issues are exactly what puts a plan outside its envelope.
use pi_build_conductor.Prelude.{
  some-injective, ℕ, suc, String, Bool, true, false, List, [], ◌∷◌, ◌++◌, Option, some, ◌≡◌, ◌↔◌,
  ◌⊎◌, inl, inr, refl, sym, subst, ◌∙◌, All, any, Option-cases, if◌then◌else◌, string_eq,
}
use pi_build_conductor.Domain.Types.{RunCapabilityProfiles, ValidationCommand, capability_eq}
use pi_build_conductor.Domain.Steps.{StepDefinition, WorkflowPlan}
use pi_build_conductor.Security.Envelope.{
  EnvelopeMutationScope, EnvelopeRepository, AuthorityEnvelope, envelope_repository,
}
use pi_build_conductor.Security.Authority.{
  AuthorityIssue, same_command, capability_issues, path_issues, required_issues, lacks_validation,
  per_change_issues, validation_issues, step_issues, plan_authority_issues,
}
use pi_build_conductor.Security.Authority.Steps.{
  append-none_iff, unless_iff, when_iff, IsGranted, StaysInScope, capability_issues-none_iff,
  path_issues-none_iff,
}

step_issues-none_iff :
    (index : ℕ) (steps : List StepDefinition) (scope : EnvelopeMutationScope)
    (profiles : Option RunCapabilityProfiles)
    → (step_issues index steps scope profiles ≡ [])
      ↔ All (λ step. IsGranted scope.capabilities step × StaysInScope scope profiles step) steps
unfolding step_issues
step_issues-none_iff index [] scope profiles = (λ e. tt, λ e. refl)
step_issues-none_iff index (step ∷ steps) scope profiles =
    let capabilities = capability_issues step index scope.capabilities in
    let paths = path_issues step index scope profiles in
    let rest = step_issues (suc index) steps scope profiles in
    (
      λ e.
          let (first, later) = (append-none_iff (capabilities ++ paths) rest).0 e in
          let (granted, kept) = (append-none_iff capabilities paths).0 first in
          (
            (
              (capability_issues-none_iff step index scope.capabilities).0 granted,
              (path_issues-none_iff step index scope profiles).0 kept,
            ),
            (step_issues-none_iff (suc index) steps scope profiles).0 later,
          ),
      λ ((granted, kept), later). (append-none_iff (capabilities ++ paths) rest).1 (
        (append-none_iff capabilities paths).1 (
          (capability_issues-none_iff step index scope.capabilities).1 granted,
          (path_issues-none_iff step index scope profiles).1 kept,
        ),
        (step_issues-none_iff (suc index) steps scope profiles).1 later,
      ),
    )

required_issues-none_iff :
    (index : ℕ) (final required : List ValidationCommand)
    → (required_issues index final required ≡ [])
      ↔ All (λ command. any (λ other. same_command other command) final ≡ true) required
unfolding required_issues
required_issues-none_iff index final [] = (λ e. tt, λ e. refl)
required_issues-none_iff index final (command ∷ required) =
    let present = any (λ other. same_command other command) final in
    let rest = required_issues (suc index) final required in
    (
      λ e.
          let (first, later) = (append-none_iff _ rest).0 e in
          (
            (unless_iff present _).0 first,
            (required_issues-none_iff (suc index) final required).0 later,
          ),
      λ (first, later). (append-none_iff _ rest).1 (
        (unless_iff present _).1 first,
        (required_issues-none_iff (suc index) final required).1 later,
      ),
    )

per_change_issues-none_iff :
    (index : ℕ) (steps : List StepDefinition)
    → (per_change_issues index steps ≡ []) ↔ All (λ step. lacks_validation step.body ≡ false) steps
unfolding per_change_issues
per_change_issues-none_iff index [] = (λ e. tt, λ e. refl)
per_change_issues-none_iff index (step ∷ steps) =
    let lacks = lacks_validation step.body in
    let rest = per_change_issues (suc index) steps in
    (
      λ e.
          let (first, later) = (append-none_iff _ rest).0 e in
          ((when_iff lacks _).0 first, (per_change_issues-none_iff (suc index) steps).0 later),
      λ (first, later).
          (append-none_iff _ rest).1
            ((when_iff lacks _).1 first, (per_change_issues-none_iff (suc index) steps).1 later),
    )

-- What a plan may do under an envelope: its repository is named, its steps ask for granted
-- capabilities and change only paths in scope, the required commands are among its final ones, and
-- every change has its own validation if the envelope asks for it.
abbrev pub IsWithin :
    WorkflowPlan → AuthorityEnvelope → String → Option RunCapabilityProfiles → Type 0
IsWithin plan envelope root profiles =
    (repository : EnvelopeRepository) × (envelope_repository envelope root ≡ some repository)
    × All
        (λ step.
          IsGranted repository.mutation.capabilities step
          × StaysInScope repository.mutation profiles step)
        plan.steps
    × All
        (λ command. any (λ other. same_command other command) plan.final_validation_commands ≡ true)
        envelope.validation.required
    × ((envelope.validation.per_change ≡ false)
        ⊎ All (λ step. lacks_validation step.body ≡ false) plan.steps)

when_asked_iff :
    {P : Type 0} (asked : Bool) (issues : List AuthorityIssue)
    → ((issues ≡ []) ↔ P)
    → ((if asked then issues else []) ≡ []) ↔ ((asked ≡ false) ⊎ P)
when_asked_iff false issues h = (λ e. inl refl, λ p. refl)
when_asked_iff true issues h =
    (λ e. inr (h.0 e), λ p. elim p [ inl bad ↦ absurd (cc) | inr q ↦ h.1 q ])

validation_issues-none_iff :
    (plan : WorkflowPlan) (envelope : AuthorityEnvelope)
    → (validation_issues plan envelope ≡ []) ↔ (
        All
          (λ command.
            any (λ other. same_command other command) plan.final_validation_commands ≡ true)
          envelope.validation.required
        × ((envelope.validation.per_change ≡ false)
            ⊎ All (λ step. lacks_validation step.body ≡ false) plan.steps))
unfolding validation_issues
validation_issues-none_iff plan envelope =
    let required =
      required_issues-none_iff 0 plan.final_validation_commands envelope.validation.required in
    let per_change =
      when_asked_iff envelope.validation.per_change (per_change_issues 0 plan.steps)
        (per_change_issues-none_iff 0 plan.steps) in
    (
      λ e. let (first, later) = (append-none_iff _ _).0 e in (required.0 first, per_change.0 later),
      λ (first, later). (append-none_iff _ _).1 (required.1 first, per_change.1 later),
    )

named_issues :
    (plan : WorkflowPlan) (envelope : AuthorityEnvelope) (root : String)
    (profiles : Option RunCapabilityProfiles) (repository : EnvelopeRepository)
    → envelope_repository envelope root ≡ some repository
    → plan_authority_issues plan envelope root profiles
      ≡ step_issues 0 plan.steps repository.mutation profiles ++ validation_issues plan envelope
unfolding plan_authority_issues
named_issues plan envelope root profiles repository e = rw (e, plan_authority_issues) refl

-- A plan raises no issue exactly if the envelope names its repository, its steps ask for granted
-- capabilities only, each step that can mutate changes only paths in scope, the required commands
-- are among the final ones, and every change has its own validation if the envelope asks for it.
pub plan_authority_issues-none_iff :
    (plan : WorkflowPlan) (envelope : AuthorityEnvelope) (root : String)
    (profiles : Option RunCapabilityProfiles)
    → (plan_authority_issues plan envelope root profiles ≡ [])
      ↔ IsWithin plan envelope root profiles
unfolding plan_authority_issues
plan_authority_issues-none_iff plan envelope root profiles =
    elim (Option-cases (envelope_repository envelope root)) [
      | inl e ↦ (
        λ h. absurd (let bad = rw (e, plan_authority_issues) at h in cc),
        λ within. absurd (let bad = sym e ∙ within.1 in cc),
      )
      | inr (repository, e) ↦
          let issues = named_issues plan envelope root profiles repository e in
          (
            λ h.
                let (steps, validation) = (append-none_iff _ _).0 (sym issues ∙ h) in
                let (required, per_change) =
                  (validation_issues-none_iff plan envelope).0 validation in
                (
                  repository,
                  e,
                  (step_issues-none_iff 0 plan.steps repository.mutation profiles).0 steps,
                  required,
                  per_change,
                ),
            λ (named, found, steps, required, per_change).
                let same : named ≡ repository = some-injective (sym found ∙ e) in
                issues
                ∙ (append-none_iff _ _).1 (
                  (step_issues-none_iff 0 plan.steps repository.mutation profiles).1 (
                      subst
                        (λ r.
                          All
                            (λ step.
                              IsGranted r.mutation.capabilities step
                              × StaysInScope r.mutation profiles step)
                            plan.steps)
                        same steps),
                  (validation_issues-none_iff plan envelope).1 (required, per_change),
                ),
          )
    ]
