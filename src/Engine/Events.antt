-- ===== src/Engine/Events.antt =====
-- src/engine/events.ts: the bounded timeline of a run.
pub mod Timeline
pub mod Kept
use pi_build_conductor.Prelude.{
  ℕ, suc, ◌+◌, ◌-◌, String, Bool, true, false, not, ◌&&◌, ◌||◌, List, [], ◌∷◌, ◌++◌, Option, none,
  some, Dict, get, filter, drop, length, ltb, if◌then◌else◌,
}
use pi_build_conductor.Engine.State.{
  StepRunState, is_terminal_step_failure, WorkflowStepRecord, WorkflowEventBody, step_blocked,
  WorkflowEvent, WorkflowRunState,
}

abbrev pub max_workflow_events : ℕ
max_workflow_events = 2000

-- The events of the loop, numbered from the one after `sequence`.
unfoldable pub number_events : ℕ → String → List WorkflowEventBody → List WorkflowEvent
number_events sequence at [] = []
number_events sequence at (body ∷ bodies) =
    record { sequence = suc sequence; at = at; body = body }
    ∷ number_events (suc sequence) at bodies

-- Without bodies the source returns its argument. With `dropped` at 0, `slice(0)` is the whole list.
unfoldable pub append_workflow_events :
    WorkflowRunState → List WorkflowEventBody → String → WorkflowRunState
unfolding number_events
append_workflow_events state [] at = state
append_workflow_events state (body ∷ bodies) at =
    let events = state.events ++ number_events state.event_sequence at (body ∷ bodies) in
    let dropped = length events - max_workflow_events in
    record state {
      events = if ltb 0 dropped then drop dropped events else events;
      event_sequence = state.event_sequence + length (body ∷ bodies);
      dropped_events = state.dropped_events + dropped;
    }

abbrev pub append_workflow_event : WorkflowRunState → WorkflowEventBody → String → WorkflowRunState
append_workflow_event state body at = append_workflow_events state (body ∷ []) at

abbrev pub is_blocked : StepRunState → Bool
is_blocked StepRunState.blocked = true
is_blocked _ = false

abbrev pub has_state : (StepRunState → Bool) → Option WorkflowStepRecord → Bool
has_state test none = false
has_state test (some step) = test step.state

-- Whether a dependency stops its dependents: it is missing or has failed for good.
abbrev pub stops : Option WorkflowStepRecord → Bool
stops none = true
stops (some step) = is_terminal_step_failure step.state

unfoldable pub blocked_events_of :
    Dict WorkflowStepRecord
    → Dict WorkflowStepRecord
    → Dict WorkflowStepRecord
    → List WorkflowEventBody
blocked_events_of previous next [] = []
blocked_events_of previous next ((step_id, step) ∷ entries) =
    let rest = blocked_events_of previous next entries in
    if is_blocked step.state && not (has_state is_blocked (get step_id previous))
    then step_blocked step_id (filter (λ d. stops (get d next)) step.definition.dependencies) ∷ rest
    else rest

unfoldable pub blocked_step_events : WorkflowRunState → WorkflowRunState → List WorkflowEventBody
unfolding blocked_events_of
blocked_step_events previous next = blocked_events_of previous.steps next.steps next.steps
