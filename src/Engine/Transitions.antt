-- ===== src/Engine/Transitions.antt =====
-- src/engine/engine.ts and src/engine/recovery.ts: the transactions as one step relation, since each
-- runs alone in the run's queue and the next one starts from what it stored.
pub mod Follows
pub mod Operations
pub mod Recovered
pub mod History
pub mod Recorded
pub mod Growth
use pi_build_conductor.Prelude.{String, Bool, List, Option, Dict, ◌≡◌, Result, ok}
use pi_build_conductor.Engine.State.{
  WorkflowRunState, WorkflowStepAttempt, CreateInput, create_workflow_run_state,
}
use pi_build_conductor.Engine.Retry.{StepOutcome}
use pi_build_conductor.Engine.Launch.{reserve_step, mark_running, fail_step}
use pi_build_conductor.Engine.Settle.{StepExecutionResult, Routed, settle_step}
use pi_build_conductor.Engine.Integrate.{record_integration, record_integration_failure}
use pi_build_conductor.Engine.Lifecycle.{request_cancellation, settle_run}
use pi_build_conductor.Engine.Recovery.{InterruptedAttemptDecision}
use pi_build_conductor.Engine.Recovery.Transaction.{recover_transaction}

-- One transaction of the engine, whichever it is and whatever it is called with.
pub data Transaction (s : WorkflowRunState) : WorkflowRunState → Type 0 where
  reserved :
      {t : WorkflowRunState} (attempt : WorkflowStepAttempt) (now : String) (stored : Bool)
      → reserve_step s attempt now ≡ ok (t, stored)
      → Transaction s t
  marked : (attempt_id now : String) → Transaction s (mark_running s attempt_id now)
  failed_to_start :
      {t : WorkflowRunState} (step_id message now : String)
      → fail_step s step_id message now ≡ ok t
      → Transaction s t
  settled :
      {t : WorkflowRunState} (step_id : String) (attempt : WorkflowStepAttempt)
      (result : StepExecutionResult) (outcome : StepOutcome) (routed : Routed) (now : String)
      → settle_step s step_id attempt result outcome routed now ≡ ok t
      → Transaction s t
  integrated :
      {t : WorkflowRunState} (step_id : String) (commit : Option String)
      (integrated_commit now : String)
      → record_integration s step_id commit integrated_commit now ≡ ok t
      → Transaction s t
  failed_to_integrate :
      {t : WorkflowRunState} (step_id attempt_id message now : String)
      → record_integration_failure s step_id attempt_id message now ≡ ok t
      → Transaction s t
  asked_to_cancel : (reason now : String) → Transaction s (request_cancellation s reason now)
  finished : (cancelled : Bool) (now : String) → Transaction s (settle_run s cancelled now)
  recovered :
      {t : WorkflowRunState} (decisions : Dict InterruptedAttemptDecision) (now : String)
      → recover_transaction s decisions now ≡ ok t
      → Transaction s t

-- The states that a run can come to, from one that it was in.
pub data Reach (s : WorkflowRunState) : WorkflowRunState → Type 0 where
  here : Reach s s
  step : {t u : WorkflowRunState} → Reach s t → Transaction t u → Reach s u
