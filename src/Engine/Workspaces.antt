-- ===== src/Engine/Workspaces.antt =====
-- src/engine/workspaces.ts: how much of the repository a step gets.
pub mod Narrowed
use pi_build_conductor.Prelude.{Bool, true, false, includes, length, eqb, if◌then◌else◌}
use pi_build_conductor.Domain.Types.{
  mutate_repository, CapabilityProfile, RunCapabilityProfiles, capability_eq,
}
use pi_build_conductor.Domain.Steps.{StepDefinition}
use pi_build_conductor.Security.Capabilities.{step_capability_profile}

pub data WorkspaceRequirement : Type 0 where
  none read_only mutable : WorkspaceRequirement

unfoldable pub workspace_requirement_for : CapabilityProfile → WorkspaceRequirement
workspace_requirement_for profile =
    if includes mutate_repository profile.capabilities
    then mutable
    else if eqb (length profile.capabilities) 0
    then none
    else read_only

unfoldable pub step_workspace_requirement :
    RunCapabilityProfiles → StepDefinition → WorkspaceRequirement
unfolding workspace_requirement_for step_capability_profile
step_workspace_requirement profiles step =
    workspace_requirement_for (step_capability_profile profiles step)

abbrev is_none : WorkspaceRequirement → Bool
is_none none = true
is_none _ = false

abbrev is_mutable : WorkspaceRequirement → Bool
is_mutable mutable = true
is_mutable _ = false

unfoldable pub step_consumes_worker_slot : RunCapabilityProfiles → StepDefinition → Bool
unfolding step_workspace_requirement
step_consumes_worker_slot profiles step =
    if is_none (step_workspace_requirement profiles step) then false else true

unfoldable pub step_requires_integration : RunCapabilityProfiles → StepDefinition → Bool
unfolding step_workspace_requirement
step_requires_integration profiles step = is_mutable (step_workspace_requirement profiles step)
