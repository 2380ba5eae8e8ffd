-- ===== src/Security/Authority/Steps.antt =====
-- src/security/authority.ts: when the checks of one step raise no issue.
use pi_build_conductor.Prelude.{
  ℕ, String, Bool, true, false, not, List, [], ◌∷◌, ◌++◌, Option, or_else, ◌≡◌, ◌↔◌, ◌⊎◌, inl, inr,
  refl, All, includes, flat_map, if◌then◌else◌, string_eq,
}
use pi_build_conductor.Domain.Types.{
  StepCapability, mutate_repository, RunCapabilityProfiles, capability_eq,
}
use pi_build_conductor.Domain.Steps.{StepDefinition}
use pi_build_conductor.Security.Envelope.{
  EnvelopeMutationScope, path_is_allowed, effective_step_capabilities, widen_mutation_authority,
}
use pi_build_conductor.Security.Authority.{
  AuthorityIssue, capability_not_approved, capability_issues, path_issue, change_paths, path_issues,
}

module _ {ℓ} {A : Type ℓ} where
  pub append-none_iff : (xs ys : List A) → (xs ++ ys ≡ []) ↔ ((xs ≡ []) × (ys ≡ []))
  append-none_iff [] ys = (λ h. (refl, h), λ h. h.1)
  append-none_iff (x ∷ xs) ys = (λ h. absurd (cc), λ h. absurd (let bad = h.0 in cc))

flat_map-none_iff {ℓ κ} :
    {A : Type ℓ} (f : A → List AuthorityIssue) (P : A → Type κ)
    → ((a : A) → (f a ≡ []) ↔ P a)
    → (xs : List A) → (flat_map f xs ≡ []) ↔ All P xs
flat_map-none_iff f P h [] = (λ e. tt, λ e. refl)
flat_map-none_iff f P h (x ∷ xs) = (
  λ e.
      let (first, rest) = (append-none_iff (f x) (flat_map f xs)).0 e in
      ((h x).0 first, (flat_map-none_iff f P h xs).0 rest),
  λ (first, rest).
      (append-none_iff (f x) (flat_map f xs)).1
        ((h x).1 first, (flat_map-none_iff f P h xs).1 rest),
)

-- A test whose failure is an issue.
pub unless_iff :
    (b : Bool) (issue : AuthorityIssue) → ((if b then [] else issue ∷ []) ≡ []) ↔ (b ≡ true)
unless_iff true issue = (λ h. refl, λ h. refl)
unless_iff false issue = (λ h. absurd (cc), λ h. absurd (cc))

pub when_iff :
    (b : Bool) (issue : AuthorityIssue) → ((if b then issue ∷ [] else []) ≡ []) ↔ (b ≡ false)
when_iff true issue = (λ h. absurd (cc), λ h. absurd (cc))
when_iff false issue = (λ h. refl, λ h. refl)

-- Every capability that a step asks for is among those granted.
abbrev pub IsGranted : List StepCapability → StepDefinition → Type 0
IsGranted granted step =
    All (λ capability. includes capability granted ≡ true) (or_else step.capabilities [])

-- A path that the scope allows and does not withhold.
abbrev pub IsInScope : EnvelopeMutationScope → String → Type 0
IsInScope scope path =
    (path_is_allowed path scope.allowed_paths ≡ true)
    × (path_is_allowed path scope.forbidden_paths ≡ false)

-- A step that cannot mutate the repository, or whose paths are all in scope.
abbrev pub StaysInScope :
    EnvelopeMutationScope → Option RunCapabilityProfiles → StepDefinition → Type 0
StaysInScope scope profiles step =
    (includes mutate_repository (effective_step_capabilities step profiles) ≡ false)
    ⊎ All (IsInScope scope) (change_paths step.body)

pub capability_issues-none_iff :
    (step : StepDefinition) (index : ℕ) (granted : List StepCapability)
    → (capability_issues step index granted ≡ []) ↔ IsGranted granted step
unfolding capability_issues
capability_issues-none_iff step index granted =
    flat_map-none_iff
      (λ capability.
        if includes capability granted
        then []
        else record {
          code = capability_not_approved;
          index = index;
          value = step.id;
          condition = widen_mutation_authority;
        }
          ∷ [])
      (λ capability. includes capability granted ≡ true)
      (λ capability. unless_iff (includes capability granted) _) (or_else step.capabilities [])

two_tests_iff :
    (allowed withheld : Bool) (first second : AuthorityIssue)
    → ((if not allowed then first ∷ [] else if withheld then second ∷ [] else []) ≡ [])
      ↔ ((allowed ≡ true) × (withheld ≡ false))
two_tests_iff true withheld first second =
    (λ h. (refl, (when_iff withheld second).0 h), λ h. (when_iff withheld second).1 h.1)
two_tests_iff false withheld first second = (λ h. absurd (cc), λ h. absurd (let bad = h.0 in cc))

path_issue-none_iff :
    (index : ℕ) (scope : EnvelopeMutationScope) (path : String)
    → (path_issue index scope path ≡ []) ↔ IsInScope scope path
unfolding path_issue
path_issue-none_iff index scope path =
    two_tests_iff (path_is_allowed path scope.allowed_paths)
      (path_is_allowed path scope.forbidden_paths) _ _

guarded_iff :
    {P : Type 0} (can : Bool) (issues : List AuthorityIssue)
    → ((issues ≡ []) ↔ P)
    → ((if not can then [] else issues) ≡ []) ↔ ((can ≡ false) ⊎ P)
guarded_iff false issues h = (λ e. inl refl, λ p. refl)
guarded_iff true issues h =
    (λ e. inr (h.0 e), λ p. elim p [ inl bad ↦ absurd (cc) | inr q ↦ h.1 q ])

pub path_issues-none_iff :
    (step : StepDefinition) (index : ℕ) (scope : EnvelopeMutationScope)
    (profiles : Option RunCapabilityProfiles)
    → (path_issues step index scope profiles ≡ []) ↔ StaysInScope scope profiles step
unfolding path_issues
path_issues-none_iff step index scope profiles =
    let paths =
      flat_map-none_iff (path_issue index scope) (IsInScope scope) (path_issue-none_iff index scope)
        (change_paths step.body) in
    guarded_iff (includes mutate_repository (effective_step_capabilities step profiles)) _ paths
