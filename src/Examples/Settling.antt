-- ===== src/Examples/Settling.antt =====
-- What becomes of the first attempt of the example run.
use pi_build_conductor.Prelude.{false, [], ◌∷◌, none, some, get, ◌≡◌, ◌≢◌, ◌↔◌, refl, ok, map}
use pi_build_conductor.Domain.Artifacts.{ArtifactKind, ArtifactPayload, StepArtifactDraft}
use pi_build_conductor.Engine.State.{
  WorkflowRunLifecycleState, StepRunState, WorkflowRunState, WorkflowStepRecord, fresh_record,
  require_step, update_step, update_step_attempt,
}
use pi_build_conductor.Engine.Retry.{StepOutcome, classify_step_failure}
use pi_build_conductor.Engine.Routing.{plan_step_artifacts, write_request}
use pi_build_conductor.Engine.Routing.Exact.{ProducesDeclared, outputs_of, plan_step_artifacts_iff}
use pi_build_conductor.Engine.Settle.{
  StepExecutionResult, Routed, settle_step, classification, is_retrying,
}
use pi_build_conductor.Engine.Settle.Outcome.{GoesOn, settle_step-running_iff}
use pi_build_conductor.Engine.Settle.Ended.{settle_step-IsEnded, IsEnded}
use pi_build_conductor.Examples.{from_ok, building, build, attempt}

abbrev lost : StepOutcome
lost = StepOutcome.failed "the worker was lost" none none

abbrev rejected : StepOutcome
rejected = StepOutcome.failed "the diff was rejected" none (some false)

abbrev result : StepOutcome → StepExecutionResult
result outcome = record {
  outcome = outcome;
  finished_at = "t2";
  timed_out = false;
  workspace_release_error = none;
}

abbrev nothing_routed : Routed
nothing_routed = record { artifact_ids = []; events = [] }

abbrev running_build : WorkflowStepRecord
running_build = record (fresh_record StepRunState.running build) { attempt_ids = "build-1" ∷ [] }

abbrev after : StepOutcome → WorkflowRunState
after outcome =
    from_ok building
      (settle_step building "build" attempt (result outcome) outcome nothing_routed "t3")

lost_settles :
    settle_step building "build" attempt (result lost) lost nothing_routed "t3" ≡ ok (after lost)
unfolding settle_step require_step update_step update_step_attempt
lost_settles = refl

rejected_settles :
    settle_step building "build" attempt (result rejected) rejected nothing_routed "t3"
    ≡ ok (after rejected)
unfolding settle_step require_step update_step update_step_attempt
rejected_settles = refl

settle_step-running_iff_example :
    ((after lost).state ≡ WorkflowRunLifecycleState.running) ↔ GoesOn build 1 lost
settle_step-running_iff_example =
    settle_step-running_iff building (after lost) "build" running_build attempt (result lost) lost
      nothing_routed "t3" refl refl lost_settles

rejected_for_good : is_retrying (classification build 1 false rejected) ≡ false
unfolding classify_step_failure
rejected_for_good = refl

settle_step-IsEnded_example :
    (next : WorkflowStepRecord) × (get "build" (after rejected).steps ≡ some next)
    × IsEnded rejected running_build next
settle_step-IsEnded_example =
    settle_step-IsEnded building (after rejected) "build" running_build attempt (result rejected)
      rejected nothing_routed "t3" refl rejected_for_good rejected_settles

abbrev evidence_draft : StepArtifactDraft
evidence_draft = record {
  output = "evidence";
  kind = ArtifactKind.test_evidence;
  title = "Evidence";
  payload = ArtifactPayload.json "{}";
}

undeclared_draft_is_refused :
    plan_step_artifacts "run" build 1 (record evidence_draft { output = "notes" } ∷ [])
    ≢ ok (map (write_request "run" build 1) (evidence_draft ∷ []))
unfolding plan_step_artifacts
undeclared_draft_is_refused h = absurd (cc)

plan_step_artifacts_iff_example :
    (plan_step_artifacts "run" build 1 (evidence_draft ∷ [])
      ≡ ok (map (write_request "run" build 1) (evidence_draft ∷ [])))
    ↔ (ProducesDeclared ("evidence" ∷ []) (outputs_of (evidence_draft ∷ []))
        × (map (write_request "run" build 1) (evidence_draft ∷ [])
            ≡ map (write_request "run" build 1) (evidence_draft ∷ [])))
plan_step_artifacts_iff_example =
    plan_step_artifacts_iff "run" build 1 (evidence_draft ∷ [])
      (map (write_request "run" build 1) (evidence_draft ∷ []))
