-- ===== src/Examples.antt =====
-- A small run on which the properties are tried: a change that publishes evidence, and an
-- investigation that waits for it.
pub mod Scheduling
pub mod Settling
pub mod Runs
pub mod Authority
pub mod Graphs
pub mod Growing
pub mod Reviewing
pub mod TaskPlans
pub mod StepPlans
pub mod TaskRuns
pub mod Stopping
pub mod Freezing
pub mod Envelopes
use pi_build_conductor.Prelude.{String, List, [], ◌∷◌, none, some, Result, ok, err}
use pi_build_conductor.Domain.Types.{
  AttemptState, mutate_repository, read_repository, execute_commands, ValidationCommand,
}
use pi_build_conductor.Domain.Steps.{StepBody, StepDefinition, WorkflowPlan}
use pi_build_conductor.Security.Capabilities.{default_capability_profiles}
use pi_build_conductor.Engine.Workspaces.{WorkspaceRequirement}
use pi_build_conductor.Engine.State.{
  StepRunState, WorkflowRunLifecycleState, CreateInput, WorkflowRunState, WorkflowStepRecord,
  WorkflowStepAttempt, fresh_record,
}

-- The value of a call that succeeds.
abbrev pub from_ok : {E A : Type 0} → A → Result E A → A
from_ok a (ok b) = b
from_ok a (err e) = a

abbrev pub unit_tests : ValidationCommand
unit_tests = record { command = "npm"; args = "test" ∷ [] }

abbrev pub build : StepDefinition
build = record {
  id = "build";
  title = "Build";
  description = "Build the feature";
  dependencies = [];
  inputs = none;
  outputs = some ("evidence" ∷ []);
  profile = none;
  capabilities = some (read_repository ∷ mutate_repository ∷ []);
  path_locks = none;
  resource_locks = none;
  timeout_ms = none;
  retry = some (record { max_attempts = 2 });
  body = StepBody.change ("it builds" ∷ []) ("src/" ∷ []) (unit_tests ∷ []);
}

abbrev pub explain : StepDefinition
explain = record {
  id = "explain";
  title = "Explain";
  description = "Explain the feature";
  dependencies = "build" ∷ [];
  inputs = none;
  outputs = none;
  profile = none;
  capabilities = none;
  path_locks = none;
  resource_locks = none;
  timeout_ms = none;
  retry = none;
  body = StepBody.investigation ("what changed?" ∷ []);
}

abbrev pub plan : WorkflowPlan
plan = record {
  title = "Feature";
  steps = build ∷ explain ∷ [];
  final_validation_commands = unit_tests ∷ [];
}

abbrev pub input : CreateInput
input = record {
  id = "run";
  plan = plan;
  repository_root = "/repo";
  base_branch = "main";
  base_commit = "c0";
  integration_branch = "run/integration";
  integration_head = "c0";
  capability_profiles = default_capability_profiles;
  authority = none;
  max_concurrent_workers = 1;
  created_at = "t0";
}

abbrev pub created : WorkflowRunState
created = record {
  id = "run";
  state = WorkflowRunLifecycleState.running;
  plan = plan;
  repository_root = "/repo";
  base_branch = "main";
  base_commit = "c0";
  integration_branch = "run/integration";
  integration_head = "c0";
  capability_profiles = default_capability_profiles;
  authority = none;
  steps =
      ("build", fresh_record StepRunState.ready build)
      ∷ ("explain", fresh_record StepRunState.planned explain)
      ∷ [];
  attempts = [];
  events = [];
  event_sequence = 0;
  dropped_events = 0;
  max_concurrent_workers = 1;
  error = none;
  created_at = "t0";
  updated_at = "t0";
}

abbrev pub attempt : WorkflowStepAttempt
attempt = record {
  id = "build-1";
  step_id = "build";
  number = 1;
  state = AttemptState.prepared;
  workspace_requirement = WorkspaceRequirement.mutable;
  workspace_path = "/work/build";
  branch = some "run/build";
  base_commit = "c0";
  started_at = "t1";
  finished_at = none;
  summary = none;
  error = none;
  worker_id = none;
  commit = none;
  evidence = none;
  artifact_ids = none;
  workspace_release_error = none;
}

-- The run while the first attempt of `build` is on its way.
abbrev pub building : WorkflowRunState
building = record created {
  steps =
      ("build", record (fresh_record StepRunState.running build) { attempt_ids = "build-1" ∷ [] })
      ∷ ("explain", fresh_record StepRunState.planned explain)
      ∷ [];
  attempts = attempt ∷ [];
}
