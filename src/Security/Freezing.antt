-- ===== src/Security/Freezing.antt =====
-- src/security/authority.ts: the authority that a run is frozen under.
pub mod Frozen
use pi_build_conductor.Prelude.{
  String, Bool, true, false, not, ◌&&◌, List, [], ◌∷◌, Option, none, some, or_else, is_some, all,
  ◌==◌, string_eq, if◌then◌else◌, Result, ok, err, ◌>>=◌, ◌>>◌, guard,
}
use pi_build_conductor.Domain.Types.{
  RunCapabilityProfiles, CapabilityProfile, StepCapability, capability_eq, capability_profile_names,
}
use pi_build_conductor.Domain.Steps.{WorkflowPlan}
use pi_build_conductor.Domain.Steps.Equality.{list_eq}
use pi_build_conductor.Domain.Json.{Json}
use pi_build_conductor.Domain.Reading.{PlanValidationIssue}
use pi_build_conductor.Domain.StepPlan.Document.{plan_value}
use pi_build_conductor.Security.Envelope.Derived.{
  DeriveError, plan_issues, envelope_issues, derive_authority_envelope,
}
use pi_build_conductor.Domain.Translation.{read_workflow_plan_document}
use pi_build_conductor.Security.Envelope.{
  AuthorityEnvelope, EnvelopeSource, authored, derived, FrozenAuthority, envelope_repository,
}
use pi_build_conductor.Security.Authority.{
  AuthorityIssue, capability_profiles_from_envelope, plan_authority_issues,
}
use pi_build_conductor.Security.Policy.{
  PolicyVersion, version_2, nono, unsandboxed, ValidationSandboxMode, RunSecurityPolicy,
  WorkerBoundary,
}

pub data FreezeError : Type 0 where
  invalid_plan : List PlanValidationIssue → FreezeError
  invalid_envelope : List PlanValidationIssue → FreezeError
  policy_cannot_enforce_envelope validation_sandbox_mismatch : FreezeError
  unnamed_repository : AuthorityIssue → FreezeError
  exceeds_authority : List AuthorityIssue → FreezeError
  frozen_profiles_would_change : FreezeError

pub record FreezeAuthorityInput : Type 0 where
  pub repository_root : String
  pub plan : Json
  pub security_policy : RunSecurityPolicy
  pub envelope : Option AuthorityEnvelope

pub record FrozenRunAuthority : Type 0 where
  pub authority : FrozenAuthority
  pub security_policy : RunSecurityPolicy

abbrev is_version_2 : PolicyVersion → Bool
is_version_2 version_2 = true
is_version_2 _ = false

-- `envelopeSandboxPolicy`; the isolation of workers has one value.
unfoldable pub is_sandboxed : RunSecurityPolicy → Bool
is_sandboxed policy = elim (policy.validation.sandbox) [ nono ↦ true | unsandboxed ↦ false ]

abbrev same_sandbox : Bool → Bool → Bool
same_sandbox true sandboxed = sandboxed
same_sandbox false sandboxed = not sandboxed

abbrev plan_error : {A : Type 0} → Result (List PlanValidationIssue) A → Result FreezeError A
plan_error (ok a) = ok a
plan_error (err issues) = err (invalid_plan issues)

abbrev derive_error : {A : Type 0} → Result DeriveError A → Result FreezeError A
derive_error (ok a) = ok a
derive_error (err (plan_issues issues)) = err (invalid_plan issues)
derive_error (err (envelope_issues issues)) = err (invalid_envelope issues)

abbrev repository_error : {A : Type 0} → Result AuthorityIssue A → Result FreezeError A
repository_error (ok a) = ok a
repository_error (err issue) = err (unnamed_repository issue)

unfoldable pub assert_plan_within_authority :
    WorkflowPlan
    → AuthorityEnvelope
    → String
    → Option RunCapabilityProfiles
    → Result FreezeError (Unit {0})
assert_plan_within_authority plan envelope root profiles =
    elim (plan_authority_issues plan envelope root profiles) [
      | [] ↦ ok tt
      | first ∷ issues ↦ err (exceeds_authority (first ∷ issues))
    ]

-- `input.envelope ?? deriveAuthorityEnvelope(...)`; the plan that was read is read again.
unfoldable pub approved_envelope :
    FreezeAuthorityInput → WorkflowPlan → Result FreezeError AuthorityEnvelope
unfolding is_sandboxed
approved_envelope input plan = elim (input.envelope) [
  | some envelope ↦ ok envelope
  | none ↦ derive_error (
      derive_authority_envelope input.repository_root (plan_value plan)
        input.security_policy.workers.capability_profiles (is_sandboxed input.security_policy))
]

-- `authorityEnvelopeDigest` is a hash of the text of the envelope, by `node:crypto`.
module _ (authority_envelope_digest : AuthorityEnvelope → String) where
  unfoldable pub freeze_run_authority : FreezeAuthorityInput → Result FreezeError FrozenRunAuthority
  freeze_run_authority input = do
    plan ← plan_error (read_workflow_plan_document input.plan)
    guard (is_version_2 input.security_policy.version) policy_cannot_enforce_envelope
    envelope ← approved_envelope input plan
    guard (same_sandbox envelope.validation_sandboxed (is_sandboxed input.security_policy))
        validation_sandbox_mismatch
    profiles ← repository_error (capability_profiles_from_envelope envelope input.repository_root)
    assert_plan_within_authority plan envelope input.repository_root (some profiles)
    ok (record {
      authority = record {
        source = if is_some input.envelope then authored else derived;
        digest = authority_envelope_digest envelope;
        envelope = envelope;
      };
      security_policy = record input.security_policy {
        workers = record input.security_policy.workers { capability_profiles = some profiles };
      };
    })

  -- A derived envelope follows the revised plan; an authored one has to hold it.
  unfoldable pub revise_run_authority :
      FrozenAuthority → FreezeAuthorityInput → Result FreezeError FrozenRunAuthority
  unfolding freeze_run_authority
  revise_run_authority authority input = elim (authority.source) [
    | derived ↦ freeze_run_authority input
    | authored ↦ freeze_run_authority (record input { envelope = some authority.envelope })
  ]

-- `withheldPaths`.
unfoldable pub withheld_paths : Option FrozenAuthority → String → List String
unfolding envelope_repository
withheld_paths none root = []
withheld_paths (some authority) root = elim (envelope_repository authority.envelope root) [
  | none ↦ []
  | some repository ↦ repository.mutation.forbidden_paths
]

abbrev pub same_source : EnvelopeSource → EnvelopeSource → Bool
same_source authored authored = true
same_source derived derived = true
same_source _ _ = false

pub data TransitionError : Type 0 where
  gained_authority dropped_authority source_is_immutable : TransitionError
  envelope_is_immutable plan_did_not_change : TransitionError

unfoldable pub assert_authority_transition :
    Option FrozenAuthority → Option FrozenAuthority → Bool → Result TransitionError (Unit {0})
assert_authority_transition none none plan_changed = ok tt
assert_authority_transition none (some proposed) plan_changed = err gained_authority
assert_authority_transition (some current) none plan_changed = err dropped_authority
assert_authority_transition (some current) (some proposed) plan_changed =
    if not (same_source proposed.source current.source)
    then err source_is_immutable
    else if proposed.digest == current.digest
    then ok tt
    else if same_source current.source authored
    then err envelope_is_immutable
    else if not plan_changed
    then err plan_did_not_change
    else ok tt

-- `JSON.stringify(left) === JSON.stringify(right)` for profiles.
abbrev same_profile : CapabilityProfile → CapabilityProfile → Bool
same_profile left right = left.capabilities == right.capabilities && left.tools == right.tools

unfoldable pub same_profiles : RunCapabilityProfiles → RunCapabilityProfiles → Bool
same_profiles left right =
    all (λ name. same_profile (left name) (right name)) capability_profile_names
