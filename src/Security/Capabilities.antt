-- ===== src/Security/Capabilities.antt =====
-- src/security/capabilities.ts: capability profiles, their tools and their narrowing.
pub mod Narrowing
use pi_build_conductor.Prelude.{
  String, Bool, true, false, not, ◌&&◌, List, [], ◌∷◌, map, Option, none, some, or_else, Dict, get,
  includes, filter, flat_map, length, ltb,
}
use pi_build_conductor.Domain.Types.{
  StepCapability, read_repository, mutate_repository, execute_commands, CapabilityProfileName,
  CapabilityProfile, RunCapabilityProfiles, capability_eq,
}
use pi_build_conductor.Domain.Steps.{
  StepKind, StepDefinition, step_profile_name, step_kind_capability_maxima,
}

-- `CAPABILITY_TOOLS`.
abbrev pub capability_tools : StepCapability → List String
capability_tools read_repository = "read" ∷ "grep" ∷ "find" ∷ "ls" ∷ []
capability_tools execute_commands = "bash" ∷ []
capability_tools mutate_repository = "edit" ∷ "write" ∷ []

-- `CAPABILITY_ORDER`.
abbrev pub capability_order : List StepCapability
capability_order = read_repository ∷ execute_commands ∷ mutate_repository ∷ []

-- `TOOL_CAPABILITY`.
abbrev pub tool_capabilities : Dict StepCapability
tool_capabilities =
    flat_map (λ capability. map (λ tool. (tool, capability)) (capability_tools capability))
      capability_order

unfoldable pub tool_capability : String → Option StepCapability
tool_capability tool = get tool tool_capabilities

unfoldable pub ordered_capabilities : List StepCapability → List StepCapability
ordered_capabilities capabilities =
    filter (λ capability. includes capability capabilities) capability_order

-- The loop that refuses an unknown capability never fires on a value of the type.
unfoldable pub capability_profile_for : List StepCapability → CapabilityProfile
unfolding ordered_capabilities
capability_profile_for capabilities =
    let ordered = ordered_capabilities capabilities in
    record { capabilities = ordered; tools = flat_map capability_tools ordered }

-- Whether the capability that a tool belongs to is among `capabilities`.
unfoldable pub grants_tool : List StepCapability → String → Bool
unfolding tool_capability
grants_tool capabilities tool = elim (tool_capability tool) [
  | none ↦ false
  | some capability ↦ includes capability capabilities
]

unfoldable pub narrow_capability_profile :
    CapabilityProfile → List StepCapability → CapabilityProfile
unfolding ordered_capabilities grants_tool
narrow_capability_profile profile declared =
    let kept = filter (λ capability. includes capability declared) profile.capabilities in
    record {
      capabilities = ordered_capabilities kept;
      tools = filter (grants_tool kept) profile.tools;
    }

-- `CAPABILITY_PROFILE_MAXIMA`.
abbrev pub capability_profile_maxima : CapabilityProfileName → List StepCapability
capability_profile_maxima CapabilityProfileName.investigation =
    step_kind_capability_maxima StepKind.investigation
capability_profile_maxima CapabilityProfileName.change = step_kind_capability_maxima StepKind.change
capability_profile_maxima CapabilityProfileName.command =
    step_kind_capability_maxima StepKind.command
capability_profile_maxima CapabilityProfileName.approval =
    step_kind_capability_maxima StepKind.approval
capability_profile_maxima CapabilityProfileName.review = read_repository ∷ []
capability_profile_maxima CapabilityProfileName.repair =
    read_repository ∷ mutate_repository ∷ execute_commands ∷ []

unfoldable pub default_capability_profiles : RunCapabilityProfiles
unfolding capability_profile_for
default_capability_profiles name = capability_profile_for (capability_profile_maxima name)

unfoldable pub step_capability_profile : RunCapabilityProfiles → StepDefinition → CapabilityProfile
unfolding step_profile_name narrow_capability_profile
step_capability_profile profiles step =
    let name = step_profile_name step in
    narrow_capability_profile (profiles name)
      (or_else step.capabilities (capability_profile_maxima name))

-- `assertCapabilityBoundary`: whether it returns without throwing.
unfoldable pub within_capability_boundary : CapabilityProfile → List String → Bool
within_capability_boundary profile changed_paths =
    not (ltb 0 (length changed_paths) && not (includes mutate_repository profile.capabilities))
