-- ===== src/Domain/Run.antt =====
-- src/domain/types.ts: the state of a run of task plans.
pub mod Scheduling
pub mod Authority
pub mod Lifecycle
pub mod Editing
pub mod Recovery
pub mod Recovered
pub mod Progress
use pi_build_conductor.Prelude.{
  ℕ, String, Bool, true, false, List, [], ◌∷◌, Option, Dict, Eq, string_eq, ◌≡◌, refl,
}
use pi_build_conductor.Domain.Types.{
  TaskState, AttemptState, TaskDefinition, TaskPlan, ValidationCommand, ValidationCheckEvidence,
  TaskValidationEvidence,
}
use pi_build_conductor.Domain.Steps.Equality.{equality_of, command_eq, list_eq, pair_eq}
use pi_build_conductor.Security.Envelope.{FrozenAuthority}
use pi_build_conductor.Security.Policy.{RunSecurityPolicy, WorkerUiMethod}
use pi_build_conductor.Review.Policy.{ReviewCategory, ReviewFinding}

pub data RunState : Type 0 where
  planning awaiting_approval running integrating reviewing repairing reviewed : RunState
  validating completed failed cancelled : RunState

pub data PlanRevisionSource : Type 0 where
  generated sidecar edited restored migrated : PlanRevisionSource

pub record PlanRevision : Type 0 where
  pub number : ℕ
  pub created_at : String
  pub source : PlanRevisionSource
  pub plan : TaskPlan
  pub max_concurrent_workers : ℕ
  pub restored_from : Option ℕ

pub record TaskAttempt : Type 0 where
  pub id : String
  pub task_id : String
  pub number : ℕ
  pub state : AttemptState
  pub branch : String
  pub worktree_path : String
  pub base_commit : String
  pub worker_id : Option String
  pub started_at : String
  pub finished_at : Option String
  pub error : Option String
  pub commit : Option String
  pub evidence : Option TaskValidationEvidence

pub record RunTask : Type 0 where
  pub definition : TaskDefinition
  pub state : TaskState
  pub attempt_ids : List String
  pub integrated_commit : Option String
  pub integration_error : Option String

pub record ReviewAttempt : Type 0 where
  pub id : String
  pub round : ℕ
  pub category : ReviewCategory
  pub number : ℕ
  pub state : AttemptState
  pub branch : Option String
  pub worktree_path : String
  pub base_commit : String
  pub worker_id : Option String
  pub started_at : String
  pub finished_at : Option String
  pub error : Option String
  pub summary : Option String
  pub findings : Option (List ReviewFinding)

pub data ReviewRoundState : Type 0 where
  running repairing succeeded failed cancelled : ReviewRoundState

pub record ReviewRound : Type 0 where
  pub number : ℕ
  pub state : ReviewRoundState
  pub base_commit : String
  pub attempt_ids : List String
  pub started_at : String
  pub finished_at : Option String
  pub repair_attempt_id : Option String
  pub error : Option String

pub record RepairAttempt : Type 0 where
  pub id : String
  pub round : ℕ
  pub number : ℕ
  pub state : AttemptState
  pub finding_ids : List String
  pub branch : String
  pub worktree_path : String
  pub base_commit : String
  pub worker_id : Option String
  pub started_at : String
  pub finished_at : Option String
  pub error : Option String
  pub commit : Option String
  pub integrated_commit : Option String
  pub evidence : Option TaskValidationEvidence

pub data AttemptKind : Type 0 where
  task review repair : AttemptKind

pub record BlockedWorkerState : Type 0 where
  pub attempt_kind : AttemptKind
  pub attempt_id : String
  pub worker_id : String
  pub blocked_at : String
  pub request_id : String
  pub method : WorkerUiMethod
  pub timeout_at : Option String

pub data FinalValidationAttemptState : Type 0 where
  running succeeded failed cancelled interrupted : FinalValidationAttemptState

pub record FinalValidationEvidence : Type 0 where
  pub started_at : String
  pub finished_at : String
  pub passed : Bool
  pub checks : List ValidationCheckEvidence

pub record FinalValidationAttempt : Type 0 where
  pub id : String
  pub number : ℕ
  pub state : FinalValidationAttemptState
  pub integration_commit : String
  pub worktree_path : String
  pub started_at : String
  pub finished_at : Option String
  pub error : Option String
  pub evidence : Option FinalValidationEvidence

pub record RunRequest : Type 0 where
  pub source_path : String
  pub text : String

-- `schemaVersion` has one value. Of the merge-ready evidence only its presence is read; its
-- generation time stands for it.
pub record OrchestrationRun : Type 0 where
  pub revision : ℕ
  pub id : String
  pub state : RunState
  pub repository_root : String
  pub base_branch : String
  pub base_commit : String
  pub integration_branch : String
  pub request : RunRequest
  pub security_policy : RunSecurityPolicy
  pub authority : Option FrozenAuthority
  pub plan : TaskPlan
  pub plan_revision : ℕ
  pub plan_revisions : List PlanRevision
  pub approved_plan_revision : Option ℕ
  pub tasks : Dict RunTask
  pub attempts : List TaskAttempt
  pub integration_head : String
  pub review_rounds : List ReviewRound
  pub review_attempts : List ReviewAttempt
  pub repair_attempts : List RepairAttempt
  pub blocked_workers : List BlockedWorkerState
  pub final_validation_attempts : List FinalValidationAttempt
  pub merge_ready_evidence : Option String
  pub error : Option String
  pub max_concurrent_workers : ℕ
  pub created_at : String
  pub updated_at : String
  pub approved_at : Option String

-- `JSON.stringify(left) === JSON.stringify(right)` on task plans: equality of all fields.
abbrev TaskForm : Type 0
TaskForm =
    String
    × (String × (String × (List String × (List String × (List String × List ValidationCommand)))))

abbrev write_task : TaskDefinition → TaskForm
write_task definition = (
  definition.id,
  (
    definition.title,
    (
      definition.description,
      (
        definition.dependencies,
        (
          definition.acceptance_criteria,
          (definition.allowed_paths, definition.validation_commands),
        ),
      ),
    ),
  ),
)

abbrev read_task : TaskForm → TaskDefinition
read_task (a, (b, (c, (d, (e, (f, g)))))) = record {
  id = a;
  title = b;
  description = c;
  dependencies = d;
  acceptance_criteria = e;
  allowed_paths = f;
  validation_commands = g;
}

instance abbrev pub task_eq : Eq TaskDefinition
task_eq = equality_of write_task read_task (λ definition. refl) pair_eq

abbrev PlanForm : Type 0
PlanForm = String × (List TaskDefinition × List ValidationCommand)

abbrev write_plan : TaskPlan → PlanForm
write_plan plan = (plan.title, (plan.tasks, plan.final_validation_commands))

abbrev read_plan : PlanForm → TaskPlan
read_plan (a, (b, c)) = record { title = a; tasks = b; final_validation_commands = c }

instance abbrev pub plan_eq : Eq TaskPlan
plan_eq = equality_of write_plan read_plan (λ plan. refl) pair_eq
