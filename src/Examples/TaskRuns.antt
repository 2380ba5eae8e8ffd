-- ===== src/Examples/TaskRuns.antt =====
-- A run of the two tasks: created, revised, restored, approved, interrupted and recovered.
use pi_build_conductor.Prelude.{String, false, List, [], ◌∷◌, ◌++◌, none, some, ok, ◌≡◌, refl}
use pi_build_conductor.Domain.Types.{TaskDefinition, TaskState}
use pi_build_conductor.Domain.Graph.Topological.{topological_ids}
use pi_build_conductor.Domain.TaskPlan.RoundTrip.{validate_task_plan_result-task_plan_value}
use pi_build_conductor.Domain.Run.Scheduling.Reconcile.{reconcile_task_states-valid}
use pi_build_conductor.Security.Envelope.{AuthorityEnvelope}
use pi_build_conductor.Security.Policy.{decline, legacy_security_policy}
use pi_build_conductor.Domain.Run.{RunState, RunTask, PlanRevisionSource, OrchestrationRun}
use pi_build_conductor.Domain.Run.Scheduling.{reconcile_ids, launchable_task_ids}
use pi_build_conductor.Domain.Run.Scheduling.Launch.{IsLaunch, launchable_task_ids-IsLaunch}
use pi_build_conductor.Domain.Run.Authority.{
  frozen_authority_for, revised_authority_for, CreateRunInput, ReviseRunPlanInput,
}
use pi_build_conductor.Domain.Run.Lifecycle.{
  assert_plan_editable, assert_worker_limit, with_plan, create_orchestration_run, revise_run_plan,
  restore_run_plan_revision, approve_run,
}
use pi_build_conductor.Domain.Run.Recovery.{recover_interrupted_run, is_interrupted_run}
use pi_build_conductor.Domain.Run.Recovered.{recover_interrupted_run-settles}
use pi_build_conductor.Domain.Run.Editing.Operations.{create_orchestration_run-IsHistory}
use pi_build_conductor.Domain.TaskPlan.Valid.{IsTaskPlan}
use pi_build_conductor.Domain.Run.Editing.Agreed.{
  proposed, ProposalStep, proposals_of, created-Reach-ProposalStep,
}
use pi_build_conductor.Domain.Run.Editing.Undo.{restore_run_plan_revision-revise_run_plan}
use pi_build_conductor.Domain.Run.Editing.Traces.{
  Step, Reach, IsConducted, Extends, created-Reach-IsConducted,
}
use pi_build_conductor.Examples.{from_ok}
use pi_build_conductor.Examples.TaskPlans.{
  api, ui, two_tasks, two_tasks-IsTaskPlan, one_task, one_task-IsTaskPlan,
}

-- An envelope is known by its outcome.
abbrev digest_of : AuthorityEnvelope → String
digest_of envelope = envelope.outcome

abbrev request : CreateRunInput
request = record {
  id = "run";
  repository_root = "/repo";
  base_branch = "main";
  base_commit = "c0";
  integration_branch = "run/integration";
  request = record { source_path = "feature.md"; text = "Add the resource" };
  security_policy = none;
  envelope = none;
  plan = two_tasks;
  max_concurrent_workers = 2;
  plan_source = none;
  now = "t0";
}

abbrev pub new_task : TaskDefinition → TaskState → RunTask
new_task definition state = record {
  definition = definition;
  state = state;
  attempt_ids = [];
  integrated_commit = none;
  integration_error = none;
}

abbrev pub new_run : OrchestrationRun
new_run = record {
  revision = 0;
  id = "run";
  state = RunState.awaiting_approval;
  repository_root = "/repo";
  base_branch = "main";
  base_commit = "c0";
  integration_branch = "run/integration";
  request = record { source_path = "feature.md"; text = "Add the resource" };
  security_policy = legacy_security_policy decline;
  authority = none;
  plan = two_tasks;
  plan_revision = 1;
  plan_revisions =
      record {
        number = 1;
        created_at = "t0";
        source = PlanRevisionSource.generated;
        plan = two_tasks;
        max_concurrent_workers = 2;
        restored_from = none;
      }
      ∷ [];
  approved_plan_revision = none;
  tasks = ("ui", new_task ui TaskState.planned) ∷ ("api", new_task api TaskState.ready) ∷ [];
  attempts = [];
  integration_head = "c0";
  review_rounds = [];
  review_attempts = [];
  repair_attempts = [];
  blocked_workers = [];
  final_validation_attempts = [];
  merge_ready_evidence = none;
  error = none;
  max_concurrent_workers = 2;
  created_at = "t0";
  updated_at = "t0";
  approved_at = none;
}

abbrev unreconciled : OrchestrationRun
unreconciled = record new_run {
  tasks = ("ui", new_task ui TaskState.planned) ∷ ("api", new_task api TaskState.planned) ∷ [];
}

request_creates : create_orchestration_run digest_of request ≡ ok new_run
unfolding create_orchestration_run frozen_authority_for reconcile_ids topological_ids
    legacy_security_policy
request_creates =
    rw
      (
        validate_task_plan_result-task_plan_value two_tasks two_tasks-IsTaskPlan,
        reconcile_task_states-valid unreconciled two_tasks-IsTaskPlan,
      )
      refl

abbrev approved_run : OrchestrationRun
approved_run = from_ok new_run (approve_run new_run "t1" 1)

approved_by_user : approve_run new_run "t1" 1 ≡ ok approved_run
unfolding approve_run
approved_by_user = refl

launchable_task_ids-IsLaunch_example :
    (ids : List String) × (launchable_task_ids approved_run ≡ ok ids) × IsLaunch approved_run ids
unfolding approve_run
launchable_task_ids-IsLaunch_example =
    launchable_task_ids-IsLaunch approved_run two_tasks-IsTaskPlan

abbrev started : OrchestrationRun
started = record approved_run {
  tasks = ("ui", new_task ui TaskState.planned) ∷ ("api", new_task api TaskState.running) ∷ [];
}

recover_interrupted_run-settles_example :
    (last : OrchestrationRun) × (recover_interrupted_run started "t2" ≡ ok last)
    × (is_interrupted_run last ≡ false)
    × ((later : String) → recover_interrupted_run last later ≡ ok last)
    × (last.plan ≡ started.plan)
    × (last.plan_revisions ≡ started.plan_revisions)
unfolding approve_run
recover_interrupted_run-settles_example =
    recover_interrupted_run-settles started "t2" two_tasks-IsTaskPlan

abbrev shorter : ReviseRunPlanInput
shorter = record {
  plan = one_task;
  max_concurrent_workers = 3;
  expected_plan_revision = 1;
  now = "t1";
}

abbrev unreconciled_revision : OrchestrationRun
unreconciled_revision = with_plan new_run one_task 3 none PlanRevisionSource.edited none "t1"

abbrev revised_run : OrchestrationRun
revised_run = record new_run {
  plan = one_task;
  plan_revision = 2;
  plan_revisions =
      new_run.plan_revisions
      ++ record {
        number = 2;
        created_at = "t1";
        source = PlanRevisionSource.edited;
        plan = one_task;
        max_concurrent_workers = 3;
        restored_from = none;
      }
        ∷ [];
  tasks = ("api", new_task api TaskState.ready) ∷ [];
  max_concurrent_workers = 3;
  updated_at = "t1";
}

revised_by_user : revise_run_plan digest_of new_run shorter ≡ ok revised_run
unfolding revise_run_plan assert_plan_editable assert_worker_limit revised_authority_for with_plan
    reconcile_ids topological_ids
revised_by_user =
    rw
      (
        validate_task_plan_result-task_plan_value one_task one_task-IsTaskPlan,
        reconcile_task_states-valid unreconciled_revision one_task-IsTaskPlan,
      )
      refl

abbrev restored_run : OrchestrationRun
restored_run = record revised_run {
  plan = two_tasks;
  plan_revision = 3;
  plan_revisions =
      revised_run.plan_revisions
      ++ record {
        number = 3;
        created_at = "t2";
        source = PlanRevisionSource.restored;
        plan = two_tasks;
        max_concurrent_workers = 2;
        restored_from = some 1;
      }
        ∷ [];
  tasks = ("ui", new_task ui TaskState.planned) ∷ ("api", new_task api TaskState.ready) ∷ [];
  max_concurrent_workers = 2;
  updated_at = "t2";
}

restored_by_user : restore_run_plan_revision digest_of revised_run 1 2 "t2" ≡ ok restored_run
unfolding restore_run_plan_revision assert_plan_editable revised_authority_for with_plan
    reconcile_ids topological_ids
restored_by_user =
    rw
      (reconcile_task_states-valid
        (with_plan revised_run two_tasks 2 none PlanRevisionSource.restored (some 1) "t2")
        two_tasks-IsTaskPlan)
      refl

restore_run_plan_revision-revise_run_plan_example :
    (restored_run.plan ≡ new_run.plan)
    × (restored_run.max_concurrent_workers ≡ new_run.max_concurrent_workers)
restore_run_plan_revision-revise_run_plan_example =
    restore_run_plan_revision-revise_run_plan digest_of new_run revised_run restored_run shorter 2
      "t2" (create_orchestration_run-IsHistory digest_of request new_run request_creates).0
      revised_by_user restored_by_user

revised_reached : Reach digest_of new_run revised_run
revised_reached = Reach.step Reach.here (Step.revised shorter revised_by_user)

restoring_step : Step digest_of revised_run restored_run
restoring_step = Step.restored 1 2 "t2" restored_by_user

created-Reach-IsConducted_example : IsConducted restored_run × Extends revised_run restored_run
created-Reach-IsConducted_example =
    created-Reach-IsConducted digest_of request new_run revised_run restored_run request_creates
      revised_reached (Reach.step Reach.here restoring_step)

created-Reach-ProposalStep_example :
    IsTaskPlan two_tasks
    × (proposals_of new_run ≡ proposed (two_tasks ∷ []))
    × ProposalStep (proposals_of revised_run) (proposals_of restored_run)
created-Reach-ProposalStep_example =
    created-Reach-ProposalStep digest_of request new_run revised_run restored_run request_creates
      revised_reached restoring_step
