-- ===== src/Domain/Run/Lifecycle.antt =====
-- src/domain/run.ts: creating, revising, restoring and approving a run of task plans.
use pi_build_conductor.Prelude.{
  ℕ, ◌+◌, String, Bool, true, false, not, ◌&&◌, ◌||◌, List, [], ◌∷◌, ◌++◌, Option, none, some,
  or_else, is_some, Dict, find_first, leb, ◌==◌, string_eq, nat_eq, Result, ok, err, ◌>>=◌, ◌>>◌,
  guard,
}
use pi_build_conductor.Domain.Types.{TaskDefinition, TaskPlan, planned}
use pi_build_conductor.Domain.TaskPlan.{validate_task_plan_result}
use pi_build_conductor.Domain.TaskPlan.Document.{task_plan_value}
use pi_build_conductor.Security.Envelope.{FrozenAuthority}
use pi_build_conductor.Security.Policy.{RunSecurityPolicy, decline, legacy_security_policy}
use pi_build_conductor.Security.Freezing.{FrozenRunAuthority}
use pi_build_conductor.Security.Envelope.{AuthorityEnvelope}
use pi_build_conductor.Domain.Run.{
  RunState, PlanRevisionSource, edited, restored, RunTask, OrchestrationRun, plan_eq,
}
use pi_build_conductor.Domain.Run.Scheduling.{reconcile_task_states}
use pi_build_conductor.Domain.Run.Authority.{
  RunError, worker_limit, not_editable, resources_exist, stale_revision, unknown_revision,
  not_awaiting_approval, CreateRunInput, ReviseRunPlanInput, plan_error, frozen_authority_for,
  revised_authority_for,
}

-- The bounds are `MIN_CONCURRENT_WORKERS` and `MAX_CONCURRENT_WORKERS`.
unfoldable pub assert_worker_limit : ℕ → Result RunError (Unit {0})
assert_worker_limit limit = guard (leb 2 limit && leb limit 4) worker_limit

unfoldable pub tasks_for_plan : List TaskDefinition → Dict RunTask
tasks_for_plan [] = []
tasks_for_plan (definition ∷ definitions) =
    (
      definition.id,
      record {
        definition = definition;
        state = planned;
        attempt_ids = [];
        integrated_commit = none;
        integration_error = none;
      },
    )
    ∷ tasks_for_plan definitions

abbrev pub is_editable : RunState → Bool
is_editable RunState.planning = true
is_editable RunState.awaiting_approval = true
is_editable _ = false

abbrev pub has_some : {A : Type 0} → List A → Bool
has_some [] = false
has_some (a ∷ as') = true

unfoldable pub has_execution_resources : OrchestrationRun → Bool
has_execution_resources run =
    is_some run.approved_at
    || (is_some run.approved_plan_revision
        || (has_some run.attempts
            || (has_some run.review_rounds
                || (has_some run.review_attempts
                    || (has_some run.repair_attempts
                        || (has_some run.final_validation_attempts
                            || (not (run.integration_head == run.base_commit)
                                || is_some run.merge_ready_evidence)))))))

unfoldable pub assert_plan_editable : OrchestrationRun → Result RunError (Unit {0})
unfolding has_execution_resources
assert_plan_editable run = do
  guard (is_editable run.state) not_editable
  guard (not (has_execution_resources run)) resources_exist

-- A new plan, its number and its entry in the history.
unfoldable pub with_plan :
    OrchestrationRun
    → TaskPlan
    → ℕ
    → Option FrozenAuthority
    → (source : PlanRevisionSource) → (restored_from : Option ℕ) → (now : String) → OrchestrationRun
unfolding tasks_for_plan
with_plan run plan limit authority source restored_from now = record run {
  authority = elim authority [ some revised ↦ some revised | none ↦ run.authority ];
  plan = plan;
  plan_revision = run.plan_revision + 1;
  plan_revisions =
      run.plan_revisions
      ++ record {
        number = run.plan_revision + 1;
        created_at = now;
        source = source;
        plan = plan;
        max_concurrent_workers = limit;
        restored_from = restored_from;
      }
        ∷ [];
  tasks = tasks_for_plan plan.tasks;
  max_concurrent_workers = limit;
  updated_at = now;
}

module _ (digest_of : AuthorityEnvelope → String) where
  abbrev frozen_policy : Option FrozenRunAuthority → RunSecurityPolicy → RunSecurityPolicy
  frozen_policy none policy = policy
  frozen_policy (some frozen) policy = frozen.security_policy

  abbrev frozen_envelope : Option FrozenRunAuthority → Option FrozenAuthority
  frozen_envelope none = none
  frozen_envelope (some frozen) = some frozen.authority

  unfoldable pub create_orchestration_run : CreateRunInput → Result RunError OrchestrationRun
  unfolding assert_worker_limit tasks_for_plan
  create_orchestration_run input = do
    assert_worker_limit input.max_concurrent_workers
    plan ← plan_error (validate_task_plan_result (task_plan_value input.plan))
    let policy = or_else input.security_policy (legacy_security_policy decline)
    frozen ← frozen_authority_for digest_of input plan policy
    plan_error (
        reconcile_task_states (record {
          revision = 0;
          id = input.id;
          state = RunState.awaiting_approval;
          repository_root = input.repository_root;
          base_branch = input.base_branch;
          base_commit = input.base_commit;
          integration_branch = input.integration_branch;
          request = input.request;
          security_policy = frozen_policy frozen policy;
          authority = frozen_envelope frozen;
          plan = plan;
          plan_revision = 1;
          plan_revisions =
              record {
                number = 1;
                created_at = input.now;
                source = or_else input.plan_source PlanRevisionSource.generated;
                plan = plan;
                max_concurrent_workers = input.max_concurrent_workers;
                restored_from = none;
              }
              ∷ [];
          approved_plan_revision = none;
          tasks = tasks_for_plan plan.tasks;
          attempts = [];
          integration_head = input.base_commit;
          review_rounds = [];
          review_attempts = [];
          repair_attempts = [];
          blocked_workers = [];
          final_validation_attempts = [];
          merge_ready_evidence = none;
          error = none;
          max_concurrent_workers = input.max_concurrent_workers;
          created_at = input.now;
          updated_at = input.now;
          approved_at = none;
        }))

  unfoldable pub revise_run_plan :
      OrchestrationRun → ReviseRunPlanInput → Result RunError OrchestrationRun
  revise_run_plan run input = do
    assert_plan_editable run
    guard (run.plan_revision == input.expected_plan_revision) stale_revision
    assert_worker_limit input.max_concurrent_workers
    plan ← plan_error (validate_task_plan_result (task_plan_value input.plan))
    elim (plan == run.plan && input.max_concurrent_workers == run.max_concurrent_workers) [
      | true ↦ ok run
      | false ↦ revised_authority_for digest_of run plan >>= λ revised. plan_error (
          reconcile_task_states
            (with_plan run plan input.max_concurrent_workers revised edited none input.now))
    ]

  unfoldable pub restore_run_plan_revision :
      OrchestrationRun → ℕ → ℕ → String → Result RunError OrchestrationRun
  restore_run_plan_revision run number expected now = do
    assert_plan_editable run
    guard (run.plan_revision == expected) stale_revision
    elim (find_first (λ revision. revision.number == number) run.plan_revisions) [
      | none ↦ err unknown_revision
      | some found ↦ revised_authority_for digest_of run found.plan >>= λ revised. plan_error (
          reconcile_task_states (
            with_plan run found.plan found.max_concurrent_workers revised restored (some number)
              now))
    ]

abbrev pub is_awaiting_approval : RunState → Bool
is_awaiting_approval RunState.awaiting_approval = true
is_awaiting_approval _ = false

unfoldable pub approve_run : OrchestrationRun → String → ℕ → Result RunError OrchestrationRun
approve_run run now expected = do
  guard (is_awaiting_approval run.state) not_awaiting_approval
  guard (run.plan_revision == expected) stale_revision
  ok (record run {
    state = RunState.running;
    approved_plan_revision = some run.plan_revision;
    approved_at = some now;
    updated_at = now;
  })
