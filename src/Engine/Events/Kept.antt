-- ===== src/Engine/Events/Kept.antt =====
-- src/engine/events.ts: what appending events leaves as it is.
use pi_build_conductor.Prelude.{String, List, [], ◌∷◌, ◌≡◌, refl}
use pi_build_conductor.Engine.State.{WorkflowEventBody, WorkflowRunState}
use pi_build_conductor.Engine.Events.{append_workflow_events}

-- Events do not touch the state of the run, its steps or its attempts.
pub append-same_state :
    (s : WorkflowRunState) (bodies : List WorkflowEventBody) (now : String)
    → (append_workflow_events s bodies now).state ≡ s.state
unfolding append_workflow_events
append-same_state s [] now = refl
append-same_state s (body ∷ bodies) now = refl

pub append-same_steps :
    (s : WorkflowRunState) (bodies : List WorkflowEventBody) (now : String)
    → (append_workflow_events s bodies now).steps ≡ s.steps
unfolding append_workflow_events
append-same_steps s [] now = refl
append-same_steps s (body ∷ bodies) now = refl

pub append-same_attempts :
    (s : WorkflowRunState) (bodies : List WorkflowEventBody) (now : String)
    → (append_workflow_events s bodies now).attempts ≡ s.attempts
unfolding append_workflow_events
append-same_attempts s [] now = refl
append-same_attempts s (body ∷ bodies) now = refl
