-- ===== src/Engine/State/Updates.antt =====
-- src/engine/workflow-state.ts: what a lookup or an update that succeeds has done.
use pi_build_conductor.Prelude.{String, some, get, put, ◌≡◌, sym, arith, ok, bound, ok-injective}
use pi_build_conductor.Engine.State.{
  WorkflowStepRecord, WorkflowRunState, require_step, update_step,
}

pub require_step-eq-ok :
    (s : WorkflowRunState) (step_id : String) (step : WorkflowStepRecord)
    → require_step s step_id ≡ ok step
    → get step_id s.steps ≡ some step
unfolding require_step
require_step-eq-ok s step_id step h = ground arith

-- What an update that keeps the definition does.
pub update_step-eq-ok :
    (s t : WorkflowRunState) (step_id : String) (update : WorkflowStepRecord → WorkflowStepRecord)
    → update_step s step_id update ≡ ok t
    → (step : WorkflowStepRecord) × (get step_id s.steps ≡ some step)
      × (t ≡ record s { steps = put step_id (update step) s.steps })
unfolding update_step require_step
update_step-eq-ok s t step_id update h =
    let (step, found, e) = bound {m = require_step s step_id} h in
    (step, require_step-eq-ok s step_id step found, sym (ok-injective e))
