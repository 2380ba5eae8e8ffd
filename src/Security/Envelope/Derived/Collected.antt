-- ===== src/Security/Envelope/Derived/Collected.antt =====
-- src/security/envelope.ts: what is collected from the steps of a well-formed plan.
use pi_build_conductor.Prelude.{
  String, Bool, true, not, List, [], ◌∷◌, Option, none, some, or_else, filter, flat_map, includes,
  includes-append, includes-filter, is_distinct, All, All-append, All-includes, ◌==◌, string_eq,
  ◌≡◌, ◌≢◌, refl, arith, inl, inr, Bool-cases, Option-cases, beq_refl,
}
use pi_build_conductor.Domain.Types.{
  CapabilityProfileName, StepCapability, mutate_repository, capability_eq, RunCapabilityProfiles,
}
use pi_build_conductor.Domain.Steps.{
  StepKind, StepBody, body_kind, StepDefinition, step_kind, kind_profile_name, step_profile_name,
  step_capabilities, step_kind_capability_maxima,
}
use pi_build_conductor.Domain.Reading.Valid.{IsText, IsPath, ArePaths, nil-append}
use pi_build_conductor.Domain.StepPlan.Step.{is_profile_of}
use pi_build_conductor.Domain.StepPlan.Valid.{Whenever, IsBody, AreCapabilities, IsStep}
use pi_build_conductor.Security.Capabilities.{capability_profile_maxima, step_capability_profile}
use pi_build_conductor.Security.Capabilities.Narrowing.{narrow-capabilities}
use pi_build_conductor.Security.Envelope.{effective_step_capabilities}
use pi_build_conductor.Security.Envelope.Valid.{AreTexts, includes-ordered_capabilities}
use pi_build_conductor.Security.Envelope.Derived.{
  unique, change_criteria, change_paths, plan_capabilities, mutable_paths, plan_paths,
  plan_criteria,
}

filter-kept :
    {A : Type 0} (P : A → Type 0) (p : A → Bool) (xs : List A) → All P xs → All P (filter p xs)
filter-kept P p [] h = tt
filter-kept P p (x ∷ xs) h = elim (Bool-cases (p x)) [
  | inl q ↦ rw q (h.0, filter-kept P p xs h.1)
  | inr q ↦ rw q (filter-kept P p xs h.1)
]

is_distinct-filter :
    (p : String → Bool) (xs : List String)
    → is_distinct xs ≡ true
    → is_distinct (filter p xs) ≡ true
is_distinct-filter p [] h = refl
is_distinct-filter p (x ∷ xs) h =
    let rest = is_distinct-filter p xs (ground arith) in
    let apart = includes-filter x p xs in
    elim (Bool-cases (p x)) [ inl q ↦ rw q (ground arith) | inr q ↦ rw q rest ]

pub includes-unique : (y : String) (xs : List String) → includes y (unique xs) ≡ includes y xs
unfolding unique
includes-unique y [] = refl
includes-unique y (x ∷ xs) =
    let same = includes-unique y xs in
    let kept = includes-filter y (λ other. not (x == other)) (unique xs) in ground arith

is_distinct-unique : (xs : List String) → is_distinct (unique xs) ≡ true
unfolding unique
is_distinct-unique [] = refl
is_distinct-unique (x ∷ xs) =
    let apart = includes-filter x (λ other. not (x == other)) (unique xs) in
    let rest = is_distinct-filter (λ other. not (x == other)) (unique xs) (is_distinct-unique xs) in
    let same = beq_refl x in ground arith

All-unique : (P : String → Type 0) (xs : List String) → All P xs → All P (unique xs)
unfolding unique
All-unique P [] h = tt
All-unique P (x ∷ xs) h = (h.0, filter-kept P _ (unique xs) (All-unique P xs h.1))

All-flat_map :
    {A B : Type 0} (P : B → Type 0) (Q : A → Type 0) (f : A → List B)
    → ((a : A) → Q a → All P (f a))
    → (items : List A) → All Q items
    → All P (flat_map f items)
All-flat_map P Q f each [] h = tt
All-flat_map P Q f each (item ∷ items) h =
    All-append P (f item) (flat_map f items) (each item h.0) (All-flat_map P Q f each items h.1)

criteria_of : (body : StepBody) → IsBody body → All IsText (change_criteria body)
criteria_of (StepBody.investigation _) h = tt
criteria_of (StepBody.change _ _ _) h = h.0
criteria_of (StepBody.command _) h = tt
criteria_of (StepBody.approval _) h = tt

pub plan_criteria-AreTexts :
    (steps : List StepDefinition) → All IsStep steps → AreTexts (plan_criteria steps)
unfolding plan_criteria
plan_criteria-AreTexts steps h = (
  All-unique IsText _ (
      All-flat_map IsText IsStep (λ step. change_criteria step.body)
        (λ step s. criteria_of step.body s.body) steps h),
  is_distinct-unique _,
)

paths_of :
    (body : StepBody)
    → IsBody body
    → All IsText (change_paths body) × All IsPath (change_paths body)
paths_of (StepBody.investigation _) h = (tt, tt)
paths_of (StepBody.change _ _ _) h = (h.2.0, h.2.1)
paths_of (StepBody.command _) h = (tt, tt)
paths_of (StepBody.approval _) h = (tt, tt)

All-mutable_paths :
    (P : String → Type 0) (profiles : Option RunCapabilityProfiles) (step : StepDefinition)
    → All P (change_paths step.body)
    → All P (mutable_paths profiles step)
All-mutable_paths P profiles step h =
    elim (Bool-cases (includes mutate_repository (effective_step_capabilities step profiles))) [
      | inl q ↦ rw q h
      | inr q ↦ rw q tt
    ]

All-plan_paths :
    (P : String → Type 0) (steps : List StepDefinition) (profiles : Option RunCapabilityProfiles)
    → ((step : StepDefinition) → IsStep step → All P (change_paths step.body))
    → All IsStep steps
    → All P (plan_paths steps profiles)
unfolding plan_paths
All-plan_paths P steps profiles given h = All-unique P _ (
    All-flat_map P IsStep (mutable_paths profiles)
      (λ step s. All-mutable_paths P profiles step (given step s)) steps h)

pub plan_paths-ArePaths :
    (steps : List StepDefinition) (profiles : Option RunCapabilityProfiles)
    → All IsStep steps
    → ArePaths (plan_paths steps profiles)
unfolding plan_paths
plan_paths-ArePaths steps profiles h = (
  All-plan_paths IsText steps profiles (λ step s. (paths_of step.body s.body).0) h,
  All-plan_paths IsPath steps profiles (λ step s. (paths_of step.body s.body).1) h,
  is_distinct-unique _,
)

-- A profile that a kind may declare grants no more than the kind.
profile_within :
    (kind : StepKind) (profile : Option CapabilityProfileName)
    → is_profile_of kind profile ≡ true
    → includes mutate_repository
        (capability_profile_maxima (or_else profile (kind_profile_name kind)))
      ≡ true
    → includes mutate_repository (step_kind_capability_maxima kind) ≡ true
profile_within StepKind.change profile h m = refl
profile_within StepKind.investigation none h m = absurd (cc)
profile_within StepKind.investigation (some CapabilityProfileName.change) h m = absurd (cc)
profile_within StepKind.investigation (some CapabilityProfileName.repair) h m = absurd (cc)
profile_within StepKind.investigation (some _) h m = absurd (cc)
profile_within StepKind.command none h m = absurd (cc)
profile_within StepKind.command (some CapabilityProfileName.change) h m = absurd (cc)
profile_within StepKind.command (some CapabilityProfileName.repair) h m = absurd (cc)
profile_within StepKind.command (some _) h m = absurd (cc)
profile_within StepKind.approval none h m = absurd (cc)
profile_within StepKind.approval (some CapabilityProfileName.change) h m = absurd (cc)
profile_within StepKind.approval (some CapabilityProfileName.repair) h m = absurd (cc)
profile_within StepKind.approval (some _) h m = absurd (cc)

among :
    (step : StepDefinition)
    → Whenever (AreCapabilities (step_kind step)) step.capabilities
    → (start : List StepCapability)
    → (includes mutate_repository start ≡ true
        → includes mutate_repository (step_kind_capability_maxima (step_kind step)) ≡ true)
    → includes mutate_repository (or_else step.capabilities start) ≡ true
    → includes mutate_repository (step_kind_capability_maxima (step_kind step)) ≡ true
among step declared start within m = elim (Option-cases step.capabilities) [
  | inl q ↦ within (rw q at m)
  | inr (names, q) ↦
      All-includes (λ c. includes c (step_kind_capability_maxima (step_kind step)) ≡ true)
        mutate_repository names (rw q at declared) (rw q at m)
]

may_mutate :
    (profiles : Option RunCapabilityProfiles) (step : StepDefinition)
    → IsStep step
    → includes mutate_repository (effective_step_capabilities step profiles) ≡ true
    → includes mutate_repository (step_kind_capability_maxima (step_kind step)) ≡ true
unfolding effective_step_capabilities step_capabilities step_capability_profile step_profile_name
may_mutate none step h m =
    among step h.capabilities (step_kind_capability_maxima (step_kind step)) (λ k. k) m
may_mutate (some profiles) step h m =
    let name = or_else step.profile (kind_profile_name (step_kind step)) in
    let declared = or_else step.capabilities (capability_profile_maxima name) in
    let narrowed = narrow-capabilities (profiles name) declared mutate_repository in
    among step h.capabilities (capability_profile_maxima name)
      (profile_within (step_kind step) step.profile h.profile) (ground arith)

change_has_paths :
    (body : StepBody)
    → IsBody body
    → includes mutate_repository (step_kind_capability_maxima (body_kind body)) ≡ true
    → change_paths body ≢ []
change_has_paths (StepBody.investigation _) h m = absurd (cc)
change_has_paths (StepBody.change _ _ _) h m = h.1
change_has_paths (StepBody.command _) h m = absurd (cc)
change_has_paths (StepBody.approval _) h m = absurd (cc)

some_paths :
    (steps : List StepDefinition) (profiles : Option RunCapabilityProfiles)
    → All IsStep steps
    → includes mutate_repository
        (flat_map (λ step. effective_step_capabilities step profiles) steps)
      ≡ true
    → flat_map (mutable_paths profiles) steps ≢ []
some_paths [] profiles h m empty = absurd (cc)
some_paths (step ∷ steps) profiles h m empty =
    let (first, rest) =
      nil-append (mutable_paths profiles step) (flat_map (mutable_paths profiles) steps) empty in
    let either =
      includes-append mutate_repository (effective_step_capabilities step profiles)
        (flat_map (λ step. effective_step_capabilities step profiles) steps) in
    elim (Bool-cases (includes mutate_repository (effective_step_capabilities step profiles))) [
      | inl q ↦ change_has_paths step.body h.0.body (may_mutate profiles step h.0 q) (rw q at first)
      | inr q ↦ some_paths steps profiles h.1 (ground arith) rest
    ]

unique-ne-nil : (xs : List String) → xs ≢ [] → unique xs ≢ []
unfolding unique
unique-ne-nil [] h = absurd (h refl)
unique-ne-nil (x ∷ xs) h = cc

-- If the plan may mutate, it names a path that it may mutate.
pub plan_paths-ne-nil :
    (steps : List StepDefinition) (profiles : Option RunCapabilityProfiles)
    → All IsStep steps
    → includes mutate_repository (plan_capabilities steps profiles) ≡ true
    → plan_paths steps profiles ≢ []
unfolding plan_capabilities plan_paths
plan_paths-ne-nil steps profiles h m = unique-ne-nil _ (
    some_paths steps profiles h (
      rw
        (includes-ordered_capabilities mutate_repository
          (flat_map (λ step. effective_step_capabilities step profiles) steps))
        at m))
