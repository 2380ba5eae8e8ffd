-- ===== src/Security/Policy.antt =====
-- src/security/policy.ts: the security policy of a run, and what its workers may be launched with.
use pi_build_conductor.Prelude.{
  String, Bool, true, false, List, [], ◌∷◌, Option, none, some, includes, filter, string_eq,
  if◌then◌else◌,
}
use pi_build_conductor.Domain.Types.{
  CapabilityProfile, CapabilityProfileName, RunCapabilityProfiles,
}

pub data PolicyVersion : Type 0 where
  version_1 version_2 : PolicyVersion

pub data PolicySource : Type 0 where
  configured legacy_migrated : PolicySource

pub data ToolPolicy : Type 0 where
  server_allowlist_v1 orchestrator_allowlist_v1 legacy_unrestricted : ToolPolicy

pub data ResourceDiscovery : Type 0 where
  disabled host : ResourceDiscovery

pub data BlockedWorkerPolicy : Type 0 where
  decline cancel : BlockedWorkerPolicy

-- `unsandboxed` is "none".
pub data ValidationSandboxMode : Type 0 where
  unsandboxed nono : ValidationSandboxMode

pub data ValidationNetwork : Type 0 where
  host blocked : ValidationNetwork

-- The fields with one possible value are left out: `isolation`, `sandbox`, `network` and
-- `credentialExposure` of the workers, and `environment` of the validation.
pub record WorkerBoundary : Type 0 where
  pub tool_policy : ToolPolicy
  pub resource_discovery : ResourceDiscovery
  pub ui_policy : BlockedWorkerPolicy
  pub capability_profiles : Option RunCapabilityProfiles

pub record ValidationBoundary : Type 0 where
  pub sandbox : ValidationSandboxMode
  pub network : ValidationNetwork
  pub sandbox_executable : Option String

pub record RunSecurityPolicy : Type 0 where
  pub version : PolicyVersion
  pub source : PolicySource
  pub workers : WorkerBoundary
  pub validation : ValidationBoundary

pub data WorkerRole : Type 0 where
  implementation review repair : WorkerRole

-- `ROLE_TOOLS` and `ROLE_PROFILES`.
abbrev pub role_tools : WorkerRole → List String
role_tools WorkerRole.review = "read" ∷ "grep" ∷ "find" ∷ "ls" ∷ []
role_tools _ = "read" ∷ "grep" ∷ "find" ∷ "ls" ∷ "bash" ∷ "edit" ∷ "write" ∷ []

abbrev pub role_profile : WorkerRole → CapabilityProfileName
role_profile WorkerRole.implementation = CapabilityProfileName.change
role_profile WorkerRole.review = CapabilityProfileName.review
role_profile WorkerRole.repair = CapabilityProfileName.repair

unfoldable pub is_worker_allowlist_policy : ToolPolicy → Bool
is_worker_allowlist_policy server_allowlist_v1 = true
is_worker_allowlist_policy orchestrator_allowlist_v1 = true
is_worker_allowlist_policy legacy_unrestricted = false

unfoldable pub legacy_security_policy : BlockedWorkerPolicy → RunSecurityPolicy
legacy_security_policy ui_policy = record {
  version = version_1;
  source = legacy_migrated;
  workers = record {
    tool_policy = legacy_unrestricted;
    resource_discovery = ResourceDiscovery.host;
    ui_policy = ui_policy;
    capability_profiles = none;
  };
  validation = record {
    sandbox = unsandboxed;
    network = ValidationNetwork.host;
    sandbox_executable = none;
  };
}

-- `version` and `resourceDiscovery` of a launch policy have one value each.
pub record WorkerLaunchPolicy : Type 0 where
  pub role : WorkerRole
  pub tools : List String

abbrev launch_tools : Option RunCapabilityProfiles → WorkerRole → List String
launch_tools (some profiles) role = (profiles (role_profile role)).tools
launch_tools none role = role_tools role

unfoldable pub worker_launch_policy : RunSecurityPolicy → WorkerRole → Option WorkerLaunchPolicy
unfolding is_worker_allowlist_policy
worker_launch_policy policy role =
    if is_worker_allowlist_policy policy.workers.tool_policy
    then some (record { role = role; tools = launch_tools policy.workers.capability_profiles role })
    else none

unfoldable pub step_worker_launch_policy :
    RunSecurityPolicy → WorkerRole → CapabilityProfile → Option WorkerLaunchPolicy
unfolding worker_launch_policy
step_worker_launch_policy policy role profile = elim (worker_launch_policy policy role) [
  | none ↦ none
  | some launch ↦
      some (record launch { tools = filter (λ tool. includes tool profile.tools) launch.tools })
]

pub data WorkerUiMethod : Type 0 where
  select confirm input editor : WorkerUiMethod

pub data WorkerUiResponse : Type 0 where
  value : String → WorkerUiResponse
  confirmation : (confirmed : Bool) → WorkerUiResponse
  cancelled : WorkerUiResponse

-- Of a request only its method is read.
unfoldable pub blocked_worker_response : BlockedWorkerPolicy → WorkerUiMethod → WorkerUiResponse
blocked_worker_response decline confirm = confirmation false
blocked_worker_response _ _ = WorkerUiResponse.cancelled
