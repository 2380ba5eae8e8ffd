-- ===== src/Security/Freezing/Frozen.antt =====
-- src/security/authority.ts: what holds of an authority that was frozen or revised.
use pi_build_conductor.Prelude.{
  String, Bool, true, false, Option, none, some, is_some, ◌==◌, string_eq, beq_refl, if◌then◌else◌,
  Result, ok, err, guard, bound, ok-injective, ◌≡◌, ◌⊎◌, refl, sym, ap, ◌∙◌, subst, inl, inr,
  Bool-cases, List, List-cases,
}
use pi_build_conductor.Domain.Types.{RunCapabilityProfiles}
use pi_build_conductor.Domain.Steps.{WorkflowPlan}
use pi_build_conductor.Domain.Reading.{PlanValidationIssue}
use pi_build_conductor.Domain.StepPlan.Accepted.{IsWorkflowPlan}
use pi_build_conductor.Domain.Translation.{read_workflow_plan_document}
use pi_build_conductor.Domain.Translation.Accepted.{read_workflow_plan_document-IsWorkflowPlan}
use pi_build_conductor.Security.Envelope.{
  AuthorityEnvelope, EnvelopeSource, authored, derived, FrozenAuthority,
}
use pi_build_conductor.Security.Authority.{
  AuthorityIssue, capability_profiles_from_envelope, plan_authority_issues,
}
use pi_build_conductor.Security.Authority.Sound.{IsWithin, plan_authority_issues-none_iff}
use pi_build_conductor.Security.Freezing.{
  FreezeError, FreezeAuthorityInput, FrozenRunAuthority, is_sandboxed, is_version_2, same_sandbox,
  plan_error, repository_error, assert_plan_within_authority, approved_envelope,
  freeze_run_authority, revise_run_authority, assert_authority_transition,
  policy_cannot_enforce_envelope, validation_sandbox_mismatch,
}

same_sandbox-eq : (a b : Bool) → same_sandbox a b ≡ true → a ≡ b
same_sandbox-eq true b h = sym h
same_sandbox-eq false true h = absurd (cc)
same_sandbox-eq false false h = refl

guard-eq-ok :
    (test : Bool) (e : FreezeError) {last : Unit {0}} → guard test e ≡ ok last → test ≡ true
guard-eq-ok true e h = refl
guard-eq-ok false e h = absurd (cc)

plan_error-eq-ok :
    {A : Type 0} (r : Result (List PlanValidationIssue) A) (a : A) → plan_error r ≡ ok a → r ≡ ok a
plan_error-eq-ok (ok b) a h = ap ok (ok-injective h)
plan_error-eq-ok (err issues) a h = absurd (cc)

repository_error-eq-ok :
    {A : Type 0} (r : Result AuthorityIssue A) (a : A) → repository_error r ≡ ok a → r ≡ ok a
repository_error-eq-ok (ok b) a h = ap ok (ok-injective h)
repository_error-eq-ok (err issue) a h = absurd (cc)

assert_plan_within_authority-IsWithin :
    (plan : WorkflowPlan) (envelope : AuthorityEnvelope) (root : String)
    (profiles : Option RunCapabilityProfiles) (done : Unit {0})
    → assert_plan_within_authority plan envelope root profiles ≡ ok done
    → IsWithin plan envelope root profiles
unfolding assert_plan_within_authority
assert_plan_within_authority-IsWithin plan envelope root profiles done h =
    elim (List-cases (plan_authority_issues plan envelope root profiles)) [
      | inl q ↦ (plan_authority_issues-none_iff plan envelope root profiles).0 q
      | inr (first, issues, q) ↦ absurd (cc (rw (q, assert_plan_within_authority) at h))
    ]

EnvelopeSource-cases : (source : EnvelopeSource) → (source ≡ authored) ⊎ (source ≡ derived)
EnvelopeSource-cases authored = inl refl
EnvelopeSource-cases derived = inr refl

-- What a permitted change of a frozen authority looks like.
permitted_authored :
    (current proposed : FrozenAuthority)
    → current.source ≡ authored
    → proposed.source ≡ authored
    → proposed.digest ≡ current.digest
    → assert_authority_transition (some current) (some proposed) true ≡ ok tt
unfolding assert_authority_transition
permitted_authored current proposed p q same = rw (p, q, same, beq_refl current.digest) refl

permitted_derived :
    (current proposed : FrozenAuthority)
    → current.source ≡ derived
    → proposed.source ≡ derived
    → assert_authority_transition (some current) (some proposed) true ≡ ok tt
unfolding assert_authority_transition
permitted_derived current proposed p q = elim (Bool-cases (proposed.digest == current.digest)) [
  | inl same ↦ rw (p, q, same) refl
  | inr other ↦ rw (p, q, other) refl
]

module _ (digest_of : AuthorityEnvelope → String) where
  -- The plan that was read fits into the frozen envelope under the frozen profiles, and these are
  -- the ones that the envelope grants.
  pub record IsFrozen (input : FreezeAuthorityInput) (frozen : FrozenRunAuthority) : Type 0 where
    pub plan : WorkflowPlan
    pub read : read_workflow_plan_document input.plan ≡ ok plan
    pub whole : IsWorkflowPlan plan
    pub approved : approved_envelope input plan ≡ ok (frozen.authority.envelope)
    pub sandbox :
        frozen.authority.envelope.validation_sandboxed ≡ is_sandboxed input.security_policy
    pub profiles : RunCapabilityProfiles
    pub granted :
        capability_profiles_from_envelope frozen.authority.envelope input.repository_root
        ≡ ok profiles
    pub stored : frozen.security_policy.workers.capability_profiles ≡ some profiles
    pub within : IsWithin plan frozen.authority.envelope input.repository_root (some profiles)
    pub digest : frozen.authority.digest ≡ digest_of frozen.authority.envelope
    pub source : frozen.authority.source ≡ (if is_some input.envelope then authored else derived)

  -- Whatever the digest of an envelope is, if freezing returns an authority, the plan document
  -- was read to a well-formed plan, the envelope is the approved one or the one derived from the
  -- plan, it names the sandbox of the policy, the stored profiles are the ones that the envelope
  -- grants, the plan stays within the envelope under these profiles, and the digest and source
  -- are those of that envelope.
  pub freeze_run_authority-IsFrozen :
      (input : FreezeAuthorityInput) (frozen : FrozenRunAuthority)
      → freeze_run_authority digest_of input ≡ ok frozen
      → IsFrozen input frozen
  unfolding freeze_run_authority
  freeze_run_authority-IsFrozen input frozen h =
      let (plan, read, h1) = bound {m = plan_error (read_workflow_plan_document input.plan)} h in
      let document = plan_error-eq-ok (read_workflow_plan_document input.plan) plan read in
      let (_, version, h2) =
        bound
          {m = guard (is_version_2 input.security_policy.version) policy_cannot_enforce_envelope}
          h1 in
      let (envelope, approved, h3) = bound {m = approved_envelope input plan} h2 in
      let (_, sandbox, h4) =
        bound
          {m = guard
            (same_sandbox envelope.validation_sandboxed (is_sandboxed input.security_policy))
            validation_sandbox_mismatch}
          h3 in
      let (profiles, granted, h5) =
        bound
          {m = repository_error (capability_profiles_from_envelope envelope input.repository_root)}
          h4 in
      let (done, within, h6) =
        bound {m = assert_plan_within_authority plan envelope input.repository_root (some profiles)}
          h5 in
      subst (IsFrozen input) (ok-injective h6) (record {
        plan = plan;
        read = document;
        whole = (read_workflow_plan_document-IsWorkflowPlan input.plan plan document).0;
        approved = approved;
        sandbox = same_sandbox-eq _ _ (guard-eq-ok _ _ sandbox);
        profiles = profiles;
        granted = repository_error-eq-ok _ profiles granted;
        stored = refl;
        within =
            assert_plan_within_authority-IsWithin plan envelope input.repository_root
              (some profiles) done within;
        digest = refl;
        source = refl;
      })

  revised_authored :
      (authority : FrozenAuthority) (input : FreezeAuthorityInput) (frozen : FrozenRunAuthority)
      → authority.source ≡ authored
      → revise_run_authority digest_of authority input ≡ ok frozen
      → (frozen.authority.source ≡ authored)
        × (frozen.authority.envelope ≡ authority.envelope)
        × (frozen.authority.digest ≡ digest_of authority.envelope)
  unfolding revise_run_authority approved_envelope
  revised_authored authority input frozen q h =
      let f =
        freeze_run_authority-IsFrozen (record input { envelope = some authority.envelope }) frozen
          (rw (q, revise_run_authority) at h) in
      let same : authority.envelope ≡ frozen.authority.envelope = ok-injective f.approved in
      (f.source, sym same, f.digest ∙ ap digest_of (sym same))

  revised_derived :
      (authority : FrozenAuthority) (input : FreezeAuthorityInput) (frozen : FrozenRunAuthority)
      → authority.source ≡ derived
      → input.envelope ≡ none
      → revise_run_authority digest_of authority input ≡ ok frozen
      → frozen.authority.source ≡ derived
  unfolding revise_run_authority
  revised_derived authority input frozen q fresh h =
      let f = freeze_run_authority-IsFrozen input frozen (rw (q, revise_run_authority) at h) in
      rw fresh at (f.source)

  -- If the digest of a frozen authority is the one of its envelope, and a revision without an
  -- envelope of its own returns an authority, the transition to it is permitted when the plan
  -- changes, and an authored envelope is kept as it is.
  pub revise_run_authority-permitted :
      (authority : FrozenAuthority) (input : FreezeAuthorityInput) (frozen : FrozenRunAuthority)
      → authority.digest ≡ digest_of authority.envelope
      → input.envelope ≡ none
      → revise_run_authority digest_of authority input ≡ ok frozen
      → (assert_authority_transition (some authority) (some frozen.authority) true ≡ ok tt)
        × (authority.source ≡ authored → frozen.authority.envelope ≡ authority.envelope)
  revise_run_authority-permitted authority input frozen identified fresh h = (
    elim (EnvelopeSource-cases authority.source) [
      | inl q ↦
          let (source, _, digest) = revised_authored authority input frozen q h in
          permitted_authored authority frozen.authority q source (digest ∙ sym identified)
      | inr q ↦
          permitted_derived authority frozen.authority q
            (revised_derived authority input frozen q fresh h)
    ],
    λ q. (revised_authored authority input frozen q h).1,
  )
