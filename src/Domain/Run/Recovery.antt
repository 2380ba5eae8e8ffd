-- ===== src/Domain/Run/Recovery.antt =====
-- src/domain/run.ts: `recoverInterruptedRun`.
use pi_build_conductor.Prelude.{
  String, Bool, true, false, ◌||◌, List, [], ◌∷◌, some, Dict, string_eq, nat_eq, if◌then◌else◌,
  Result, ok,
}
use pi_build_conductor.Domain.Types.{AttemptState, is_active_attempt_state, planned}
use pi_build_conductor.Domain.Run.{
  RunState, TaskAttempt, RunTask, ReviewAttempt, RepairAttempt, FinalValidationAttemptState,
  FinalValidationAttempt, OrchestrationRun, plan_eq,
}
use pi_build_conductor.Domain.Run.Scheduling.{reconcile_task_states, is_under_way}
use pi_build_conductor.Domain.Run.Authority.{RunError, plan_error}
use pi_build_conductor.Domain.Run.Lifecycle.{has_some}

abbrev restarted : String
restarted = "Orchestrator restarted"

-- The three `map` calls over attempts, and the one over final validations.
unfoldable pub interrupt_attempts : String → List TaskAttempt → List TaskAttempt
interrupt_attempts now [] = []
interrupt_attempts now (attempt ∷ attempts) =
    (if is_active_attempt_state attempt.state
      then record attempt {
        state = AttemptState.interrupted;
        finished_at = some now;
        error = some restarted;
      }
      else attempt)
    ∷ interrupt_attempts now attempts

unfoldable pub interrupt_reviews : String → List ReviewAttempt → List ReviewAttempt
interrupt_reviews now [] = []
interrupt_reviews now (attempt ∷ attempts) =
    (if is_active_attempt_state attempt.state
      then record attempt {
        state = AttemptState.interrupted;
        finished_at = some now;
        error = some restarted;
      }
      else attempt)
    ∷ interrupt_reviews now attempts

unfoldable pub interrupt_repairs : String → List RepairAttempt → List RepairAttempt
interrupt_repairs now [] = []
interrupt_repairs now (attempt ∷ attempts) =
    (if is_active_attempt_state attempt.state
      then record attempt {
        state = AttemptState.interrupted;
        finished_at = some now;
        error = some restarted;
      }
      else attempt)
    ∷ interrupt_repairs now attempts

abbrev pub is_running_validation : FinalValidationAttemptState → Bool
is_running_validation FinalValidationAttemptState.running = true
is_running_validation _ = false

unfoldable pub interrupt_validations :
    String → List FinalValidationAttempt → List FinalValidationAttempt
interrupt_validations now [] = []
interrupt_validations now (attempt ∷ attempts) =
    (if is_running_validation attempt.state
      then record attempt {
        state = FinalValidationAttemptState.interrupted;
        finished_at = some now;
        error = some restarted;
      }
      else attempt)
    ∷ interrupt_validations now attempts

unfoldable pub reset_tasks : Dict RunTask → Dict RunTask
reset_tasks [] = []
reset_tasks ((id, run_task) ∷ tasks) =
    (id, if is_under_way run_task.state then record run_task { state = planned } else run_task)
    ∷ reset_tasks tasks

-- `changed`: whether anything was under way.
abbrev pub any_active : List AttemptState → Bool
any_active [] = false
any_active (state ∷ states) = is_active_attempt_state state || any_active states

abbrev pub attempt_states : List TaskAttempt → List AttemptState
attempt_states [] = []
attempt_states (attempt ∷ attempts) = attempt.state ∷ attempt_states attempts

abbrev pub review_states : List ReviewAttempt → List AttemptState
review_states [] = []
review_states (attempt ∷ attempts) = attempt.state ∷ review_states attempts

abbrev pub repair_states : List RepairAttempt → List AttemptState
repair_states [] = []
repair_states (attempt ∷ attempts) = attempt.state ∷ repair_states attempts

abbrev pub any_validating : List FinalValidationAttempt → Bool
any_validating [] = false
any_validating (attempt ∷ attempts) = is_running_validation attempt.state || any_validating attempts

abbrev pub any_under_way : Dict RunTask → Bool
any_under_way [] = false
any_under_way ((id, run_task) ∷ tasks) = is_under_way run_task.state || any_under_way tasks

unfoldable pub is_interrupted_run : OrchestrationRun → Bool
is_interrupted_run run =
    has_some run.blocked_workers
    || (any_active (attempt_states run.attempts)
        || (any_active (review_states run.review_attempts)
            || (any_active (repair_states run.repair_attempts)
                || (any_validating run.final_validation_attempts || any_under_way run.tasks))))

abbrev pub recovered_state : RunState → RunState
recovered_state RunState.validating = RunState.reviewed
recovered_state state = state

unfoldable pub recover_interrupted_run :
    OrchestrationRun → String → Result RunError OrchestrationRun
recover_interrupted_run run now = elim (is_interrupted_run run) [
  | false ↦ ok run
  | true ↦ plan_error (
      reconcile_task_states (record run {
        state = recovered_state run.state;
        attempts = interrupt_attempts now run.attempts;
        review_attempts = interrupt_reviews now run.review_attempts;
        repair_attempts = interrupt_repairs now run.repair_attempts;
        blocked_workers = [];
        final_validation_attempts = interrupt_validations now run.final_validation_attempts;
        tasks = reset_tasks run.tasks;
        updated_at = now;
      }))
]
