-- ===== src/Domain/Run/Authority.antt =====
-- src/domain/run.ts: what its operations take and throw, and the authority that a run executes under.
use pi_build_conductor.Prelude.{
  ℕ, String, Bool, true, false, List, Option, none, some, is_some, string_eq, nat_eq, if◌then◌else◌,
  Result, ok, err, ◌>>=◌, ◌>>◌, guard,
}
use pi_build_conductor.Domain.Types.{TaskPlan}
use pi_build_conductor.Domain.Reading.{PlanValidationIssue}
use pi_build_conductor.Domain.TaskPlan.Document.{task_plan_value}
use pi_build_conductor.Security.Envelope.{AuthorityEnvelope, FrozenAuthority}
use pi_build_conductor.Security.Policy.{RunSecurityPolicy, PolicyVersion, version_2}
use pi_build_conductor.Security.Envelope.{AuthorityEnvelope}
use pi_build_conductor.Security.Freezing.{
  FreezeError, policy_cannot_enforce_envelope, frozen_profiles_would_change, FrozenRunAuthority,
  freeze_run_authority, revise_run_authority, same_profiles,
}
use pi_build_conductor.Domain.Run.{PlanRevisionSource, RunRequest, OrchestrationRun, plan_eq}

pub data RunError : Type 0 where
  invalid_plan : List PlanValidationIssue → RunError
  refused_authority : FreezeError → RunError
  worker_limit not_editable resources_exist stale_revision unknown_revision : RunError
  not_awaiting_approval : RunError

pub record CreateRunInput : Type 0 where
  pub id : String
  pub repository_root : String
  pub base_branch : String
  pub base_commit : String
  pub integration_branch : String
  pub request : RunRequest
  pub security_policy : Option RunSecurityPolicy
  pub envelope : Option AuthorityEnvelope
  pub plan : TaskPlan
  pub max_concurrent_workers : ℕ
  pub plan_source : Option PlanRevisionSource
  pub now : String

-- `source` can only be "edited".
pub record ReviseRunPlanInput : Type 0 where
  pub plan : TaskPlan
  pub max_concurrent_workers : ℕ
  pub expected_plan_revision : ℕ
  pub now : String

abbrev pub plan_error : {A : Type 0} → Result (List PlanValidationIssue) A → Result RunError A
plan_error (ok a) = ok a
plan_error (err issues) = err (invalid_plan issues)

abbrev authority_error : {A : Type 0} → Result FreezeError A → Result RunError A
authority_error (ok a) = ok a
authority_error (err error) = err (refused_authority error)

-- The revised policy is a copy of the run's but for its profiles.
abbrev keeps_profiles : RunSecurityPolicy → RunSecurityPolicy → Bool
keeps_profiles left right = elim (left.workers.capability_profiles) [
  | none ↦ elim (right.workers.capability_profiles) [ none ↦ true | some profiles ↦ false ]
  | some profiles ↦ elim (right.workers.capability_profiles) [
    | none ↦ false
    | some others ↦ same_profiles profiles others
  ]
]

abbrev is_version_2 : PolicyVersion → Bool
is_version_2 version_2 = true
is_version_2 _ = false

module _ (digest_of : AuthorityEnvelope → String) where
  unfoldable pub frozen_authority_for :
      CreateRunInput → TaskPlan → RunSecurityPolicy → Result RunError (Option FrozenRunAuthority)
  frozen_authority_for input plan policy = elim (is_version_2 policy.version) [
    | true ↦
        authority_error (
          freeze_run_authority digest_of (record {
            repository_root = input.repository_root;
            plan = task_plan_value plan;
            security_policy = policy;
            envelope = input.envelope;
          }))
        >>= λ frozen. ok (some frozen)
    | false ↦
        if is_some input.envelope
        then err (refused_authority policy_cannot_enforce_envelope)
        else ok none
  ]

  unfoldable pub revised_authority_for :
      OrchestrationRun → TaskPlan → Result RunError (Option FrozenAuthority)
  revised_authority_for run plan = elim (run.authority) [
    | none ↦ ok none
    | some current ↦
        authority_error (
          revise_run_authority digest_of current (record {
            repository_root = run.repository_root;
            plan = task_plan_value plan;
            security_policy = run.security_policy;
            envelope = none;
          }))
        >>= λ revised.
            guard (keeps_profiles revised.security_policy run.security_policy)
              (refused_authority frozen_profiles_would_change)
            >> ok (some revised.authority)
  ]
