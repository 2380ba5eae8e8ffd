-- ===== src/Examples/Runs.antt =====
-- The example run through several transactions, to its end, and after an interruption.
use pi_build_conductor.Prelude.{
  true, false, [], ◌∷◌, some, all, All, Result, ◌≡◌, ◌≢◌, ◌↔◌, refl, ok, err,
}
use pi_build_conductor.Domain.Types.{TaskValidationEvidence, is_active_attempt_state}
use pi_build_conductor.Domain.Artifacts.Identity.{artifact_id_for}
use pi_build_conductor.Engine.State.{
  WorkflowRunLifecycleState, StepRunState, WorkflowRunState, create_workflow_run_state, StateError,
  fresh_record, update_step, update_step_attempt, require_step,
}
use pi_build_conductor.Engine.Events.Timeline.{IsTimeline}
use pi_build_conductor.Engine.Scheduler.{is_succeeded}
use pi_build_conductor.Engine.Lifecycle.{
  request_cancellation, settle_run, states_of, survives_cancellation,
}
use pi_build_conductor.Engine.Lifecycle.Final.{settle_run-completed_iff, settle_run-leaves_nothing}
use pi_build_conductor.Engine.Recovery.{
  RecoverySources, InterruptedAttemptDecision, no_decision, inspect_interrupted_attempt,
}
use pi_build_conductor.Engine.Recovery.Adoption.{
  IsAdoptable, inspect_interrupted_attempt-IsAdoptable,
}
use pi_build_conductor.Engine.Recovery.Returns.{recover_transaction-returns}
use pi_build_conductor.Engine.Recovery.Settled.{recover_transaction-settles}
use pi_build_conductor.Engine.Recovery.Transaction.{recover_transaction}
use pi_build_conductor.Engine.Transitions.{Transaction, Reach}
use pi_build_conductor.Engine.Transitions.History.{Reach-IsTimeline}
use pi_build_conductor.Examples.{input, created, building, build, attempt}

created_by_input : create_workflow_run_state input ≡ ok created
unfolding create_workflow_run_state
created_by_input = refl

abbrev cancelled : WorkflowRunState
cancelled = settle_run (request_cancellation created "no longer needed" "t1") true "t2"

created_to_cancelled : Reach created cancelled
created_to_cancelled =
    Reach.step (Reach.step Reach.here (Transaction.asked_to_cancel "no longer needed" "t1"))
      (Transaction.finished true "t2")

Reach-IsTimeline_example : IsTimeline cancelled
Reach-IsTimeline_example =
    Reach-IsTimeline input created cancelled created_by_input created_to_cancelled

settle_run-completed_iff_example :
    ((settle_run created false "t1").state ≢ WorkflowRunLifecycleState.running)
    × (((settle_run created false "t1").state ≡ WorkflowRunLifecycleState.completed)
        ↔ (all is_succeeded (states_of (settle_run created false "t1").steps) ≡ true))
settle_run-completed_iff_example = settle_run-completed_iff created false "t1" refl

settle_run-leaves_nothing_example :
    all survives_cancellation (states_of (settle_run created true "t1").steps) ≡ true
settle_run-leaves_nothing_example = settle_run-leaves_nothing created true "t1" refl

abbrev failed : WorkflowRunState
failed = record created { state = WorkflowRunLifecycleState.failed }

failed_not_running : failed.state ≢ WorkflowRunLifecycleState.running
failed_not_running h = cc

abbrev passed : TaskValidationEvidence
passed = record { passed = true; changed_files = []; diff_hash = "h"; checks = [] }

abbrev sources : RecoverySources
sources = record {
  branch_head = λ branch. ok "c1";
  verify_commit = λ branch commit base. ok tt;
  has_artifact_store = true;
  durable = "build.evidence.1" ∷ [];
  read = some (λ id. some passed);
}

abbrev adopted : InterruptedAttemptDecision
adopted = record no_decision {
  commit = some "c1";
  artifact_ids = some ("build.evidence.1" ∷ []);
  evidence = some passed;
}

building_is_adopted : inspect_interrupted_attempt sources building attempt ≡ ok adopted
unfolding inspect_interrupted_attempt require_step artifact_id_for
building_is_adopted = refl

inspect_interrupted_attempt-IsAdoptable_example : IsAdoptable sources build attempt adopted "c1"
inspect_interrupted_attempt-IsAdoptable_example =
    inspect_interrupted_attempt-IsAdoptable sources building attempt
      (record (fresh_record StepRunState.running build) { attempt_ids = "build-1" ∷ [] }) adopted
      "c1" refl building_is_adopted refl

abbrev state_or : WorkflowRunState → Result StateError WorkflowRunState → WorkflowRunState
state_or otherwise (ok state) = state
state_or otherwise (err error) = otherwise

-- The attempt of `building` is adopted with its commit.
abbrev recovered : WorkflowRunState
recovered = state_or building (recover_transaction building (("build-1", adopted) ∷ []) "t9")

recovered_by_adoption : recover_transaction building (("build-1", adopted) ∷ []) "t9" ≡ ok recovered
unfolding recover_transaction is_active_attempt_state require_step update_step update_step_attempt
recovered_by_adoption = refl

recover_transaction-settles_example :
    All (λ a. is_active_attempt_state a.state ≡ false) recovered.attempts
recover_transaction-settles_example =
    recover_transaction-settles building recovered (("build-1", adopted) ∷ []) "t9"
      recovered_by_adoption

-- Without a decision the attempt is interrupted.
recover_transaction-returns_example :
    (t : WorkflowRunState) × (recover_transaction building [] "t9" ≡ ok t)
unfolding is_active_attempt_state
recover_transaction-returns_example = recover_transaction-returns building [] "t9" (refl, tt)
