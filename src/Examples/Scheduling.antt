-- ===== src/Examples/Scheduling.antt =====
-- What may start in the example run.
use pi_build_conductor.Prelude.{
  true, false, ◌+◌, ◌≤◌, [], ◌∷◌, ◌≡◌, refl, arith, ok, All, get, some,
}
use pi_build_conductor.Domain.Types.{is_active_attempt_state}
use pi_build_conductor.Domain.Steps.{step_path_locks, step_resource_locks}
use pi_build_conductor.Domain.Graph.Topological.{topological_ids}
use pi_build_conductor.Security.Capabilities.{default_capability_profiles}
use pi_build_conductor.Engine.Workspaces.{step_consumes_worker_slot, step_requires_integration}
use pi_build_conductor.Engine.State.{
  StepRunState, WorkflowStepRecord, WorkflowRunState, fresh_record, update_step, require_step,
}
use pi_build_conductor.Engine.Scheduler.{
  next_integrable_step_id, launchable_step_ids, reconcile_workflow_steps, occupied_slots,
  topological_step_ids, running_records, definitions_of, conflicts_with_held_locks, held_locks_of,
}
use pi_build_conductor.Engine.Scheduler.Launch.{StartsTogether, slots_used, tracked_ids}
use pi_build_conductor.Engine.Scheduler.Launch.Safe.{
  IsFinished, launchable-StartsTogether, launchable-slots, launchable-IsFinished,
}
use pi_build_conductor.Engine.Launch.{reserve_step}
use pi_build_conductor.Engine.Launch.Reserved.{IsReserved, reserve_step-IsReserved}
use pi_build_conductor.Engine.Scheduler.Integrable.{IsNext, next_integrable_step_id-IsNext}
use pi_build_conductor.Examples.{from_ok, created, building, attempt, build, explain}

created_launchable : launchable_step_ids created ≡ ok ("build" ∷ [])
unfolding launchable_step_ids topological_ids conflicts_with_held_locks step_path_locks
    held_locks_of step_resource_locks step_consumes_worker_slot default_capability_profiles
created_launchable = refl

building_launchable : launchable_step_ids building ≡ ok []
unfolding launchable_step_ids is_active_attempt_state topological_ids
building_launchable = refl

created_occupied : occupied_slots (reconcile_workflow_steps created) ≡ ok 0
unfolding occupied_slots reconcile_workflow_steps topological_ids
created_occupied = refl

launchable-StartsTogether_example :
    StartsTogether created.capability_profiles
      (reconcile_workflow_steps created).steps
      (tracked_ids created)
      (topological_step_ids created.plan)
      (definitions_of (running_records (reconcile_workflow_steps created).steps))
      ("build" ∷ [])
launchable-StartsTogether_example =
    launchable-StartsTogether created ("build" ∷ []) created_launchable

launchable-IsFinished_example :
    All
      (λ id.
        (step : WorkflowStepRecord) × (get id (reconcile_workflow_steps created).steps ≡ some step)
        × All
            (λ d.
              IsFinished created.capability_profiles
                (get d (reconcile_workflow_steps created).steps))
            step.definition.dependencies)
      ("build" ∷ [])
launchable-IsFinished_example = launchable-IsFinished created ("build" ∷ []) created_launchable

launchable-slots_example :
    0
      + slots_used created.capability_profiles
          (reconcile_workflow_steps created).steps
          ("build" ∷ [])
    ≤ 1
launchable-slots_example =
    launchable-slots created ("build" ∷ []) created_launchable 0 created_occupied (omega arith)

abbrev reserved : WorkflowRunState
reserved = (from_ok (created, false) (reserve_step created attempt "t1")).0

created_reserves : reserve_step created attempt "t1" ≡ ok (reserved, true)
unfolding reserve_step launchable_step_ids topological_ids conflicts_with_held_locks step_path_locks
    held_locks_of step_resource_locks step_consumes_worker_slot default_capability_profiles
    update_step require_step
created_reserves = refl

reserve_step-IsReserved_example : IsReserved created reserved attempt true
reserve_step-IsReserved_example =
    reserve_step-IsReserved created reserved attempt "t1" true created_reserves

abbrev built : WorkflowRunState
built = record created {
  steps =
      ("build", fresh_record StepRunState.succeeded build)
      ∷ ("explain", fresh_record StepRunState.planned explain)
      ∷ [];
}

built_is_next : next_integrable_step_id built ≡ some "build"
unfolding next_integrable_step_id topological_ids step_requires_integration
    default_capability_profiles
built_is_next = refl

next_integrable_step_id-IsNext_example :
    IsNext built.capability_profiles built.steps (topological_step_ids built.plan) "build"
next_integrable_step_id-IsNext_example = next_integrable_step_id-IsNext built "build" built_is_next
