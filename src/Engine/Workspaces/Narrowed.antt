-- ===== src/Engine/Workspaces/Narrowed.antt =====
-- src/engine/workspaces.ts: who gets a workspace that can change the repository.
use pi_build_conductor.Prelude.{
  ◌&&◌, ◌≡◌, refl, ◌∙◌, inl, inr, Bool-cases, or_else, includes, eqb, length,
}
use pi_build_conductor.Domain.Types.{
  CapabilityProfile, RunCapabilityProfiles, mutate_repository, capability_eq,
}
use pi_build_conductor.Domain.Steps.{StepDefinition, step_profile_name}
use pi_build_conductor.Security.Capabilities.{capability_profile_maxima, step_capability_profile}
use pi_build_conductor.Security.Capabilities.Narrowing.{narrow-capabilities}
use pi_build_conductor.Engine.Workspaces.{
  is_mutable, workspace_requirement_for, step_workspace_requirement, step_requires_integration,
}

mutable_includes :
    (profile : CapabilityProfile)
    → is_mutable (workspace_requirement_for profile)
      ≡ includes mutate_repository profile.capabilities
unfolding workspace_requirement_for
mutable_includes profile = elim (Bool-cases (includes mutate_repository profile.capabilities)) [
  | inl e ↦ rw e refl
  | inr e ↦ elim (Bool-cases (eqb (length profile.capabilities) 0)) [
    | inl z ↦ rw (e, z) refl
    | inr z ↦ rw (e, z) refl
  ]
]

-- A step must be integrated exactly when the run's profile for it can mutate the repository and
-- the step declares, or defaults to, the capability to mutate it.
pub step_requires_integration-narrowed :
    (profiles : RunCapabilityProfiles) (step : StepDefinition)
    → step_requires_integration profiles step ≡ (
        includes mutate_repository (profiles (step_profile_name step)).capabilities
        && includes mutate_repository
            (or_else step.capabilities (capability_profile_maxima (step_profile_name step))))
unfolding step_requires_integration step_workspace_requirement step_capability_profile
step_requires_integration-narrowed profiles step =
    let name = step_profile_name step in
    mutable_includes (step_capability_profile profiles step)
    ∙ narrow-capabilities (profiles name)
        (or_else step.capabilities (capability_profile_maxima name)) mutate_repository
