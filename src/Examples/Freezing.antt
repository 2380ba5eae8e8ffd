-- ===== src/Examples/Freezing.antt =====
-- The example plan frozen under an authored envelope, and a revision that keeps it.
use pi_build_conductor.Prelude.{String, true, none, some, ok, ◌≡◌, refl}
use pi_build_conductor.Domain.Types.{RunCapabilityProfiles}
use pi_build_conductor.Security.Capabilities.{default_capability_profiles}
use pi_build_conductor.Security.Envelope.{authored, AuthorityEnvelope}
use pi_build_conductor.Security.Authority.{plan_authority_issues, capability_profiles_from_envelope}
use pi_build_conductor.Security.Policy.{
  RunSecurityPolicy, version_2, configured, ToolPolicy, ResourceDiscovery, BlockedWorkerPolicy,
  nono, ValidationNetwork,
}
use pi_build_conductor.Security.Freezing.{
  FreezeAuthorityInput, FrozenRunAuthority, freeze_run_authority, revise_run_authority,
  assert_plan_within_authority, assert_authority_transition, approved_envelope,
}
use pi_build_conductor.Security.Freezing.Frozen.{
  IsFrozen, freeze_run_authority-IsFrozen, revise_run_authority-permitted,
}
use pi_build_conductor.Examples.{from_ok}
use pi_build_conductor.Examples.StepPlans.{document, document_is_read}
use pi_build_conductor.Examples.Authority.{envelope}

-- An envelope is known by its outcome.
abbrev digest_of : AuthorityEnvelope → String
digest_of envelope = envelope.outcome

abbrev policy : RunSecurityPolicy
policy = record {
  version = version_2;
  source = configured;
  workers = record {
    tool_policy = ToolPolicy.server_allowlist_v1;
    resource_discovery = ResourceDiscovery.disabled;
    ui_policy = BlockedWorkerPolicy.decline;
    capability_profiles = some default_capability_profiles;
  };
  validation = record {
    sandbox = nono;
    network = ValidationNetwork.blocked;
    sandbox_executable = some "/usr/bin/nono";
  };
}

abbrev input : FreezeAuthorityInput
input = record {
  repository_root = "/repo";
  plan = document;
  security_policy = policy;
  envelope = some envelope;
}

abbrev granted : RunCapabilityProfiles
granted = from_ok default_capability_profiles (capability_profiles_from_envelope envelope "/repo")

abbrev frozen : FrozenRunAuthority
frozen = record {
  authority = record { source = authored; digest = envelope.outcome; envelope = envelope };
  security_policy = record policy {
    workers = record policy.workers { capability_profiles = some granted };
  };
}

input_freezes : freeze_run_authority digest_of input ≡ ok frozen
unfolding freeze_run_authority approved_envelope capability_profiles_from_envelope
    assert_plan_within_authority plan_authority_issues
input_freezes = rw document_is_read refl

freeze_run_authority-IsFrozen_example : IsFrozen digest_of input frozen
freeze_run_authority-IsFrozen_example =
    freeze_run_authority-IsFrozen digest_of input frozen input_freezes

abbrev fresh : FreezeAuthorityInput
fresh = record input { envelope = none }

-- The authored envelope is kept.
authority_is_kept : revise_run_authority digest_of frozen.authority fresh ≡ ok frozen
unfolding revise_run_authority approved_envelope capability_profiles_from_envelope
    assert_plan_within_authority plan_authority_issues
authority_is_kept = rw document_is_read refl

revise_run_authority-permitted_example :
    (assert_authority_transition (some frozen.authority) (some frozen.authority) true ≡ ok tt)
    × (frozen.authority.source ≡ authored → frozen.authority.envelope ≡ frozen.authority.envelope)
unfolding freeze_run_authority approved_envelope capability_profiles_from_envelope
    assert_plan_within_authority plan_authority_issues
revise_run_authority-permitted_example =
    revise_run_authority-permitted digest_of frozen.authority fresh frozen refl refl
      authority_is_kept
