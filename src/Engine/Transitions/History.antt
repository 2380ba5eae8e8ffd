-- ===== src/Engine/Transitions/History.antt =====
-- What every run keeps: src/engine/engine.ts and src/engine/recovery.ts, transaction by transaction.
use pi_build_conductor.Prelude.{
  ℕ, String, List, ◌++◌, ◌≡◌, ltb, ◌≡◌, refl, subst, arith, inl, inr, Bool-cases, string_eq, ok,
  ok-injective,
}
use pi_build_conductor.Engine.State.{WorkflowRunState, CreateInput, create_workflow_run_state}
use pi_build_conductor.Engine.Events.Timeline.{IsTimeline}
use pi_build_conductor.Engine.Transitions.{Transaction, Reach}
use pi_build_conductor.Engine.Transitions.Follows.{
  definitions, history, Follows, Follows-refl, Follows-trans,
}
use pi_build_conductor.Engine.Transitions.Operations.{
  reserve_step-Follows, mark_running-Follows, fail_step-Follows, settle_step-Follows,
  record_integration-Follows, record_integration_failure-Follows, request_cancellation-Follows,
  settle_run-Follows,
}
use pi_build_conductor.Engine.Transitions.Recovered.{recover_transaction-Follows}

-- No transaction changes what was approved, adds, drops or redefines a step, forgets an attempt, or
-- spoils the timeline.
pub Transaction-Follows : {s t : WorkflowRunState} → Transaction s t → Follows s t
Transaction-Follows {s = s} {t = t} (Transaction.reserved attempt now stored h) =
    reserve_step-Follows s t attempt now stored h
Transaction-Follows {s = s} (Transaction.marked attempt_id now) =
    mark_running-Follows s attempt_id now
Transaction-Follows {s = s} {t = t} (Transaction.failed_to_start step_id message now h) =
    fail_step-Follows s t step_id message now h
Transaction-Follows {s = s} {t = t}
      (Transaction.settled step_id attempt result outcome routed now h) =
    settle_step-Follows s t step_id attempt result outcome routed now h
Transaction-Follows {s = s} {t = t} (Transaction.integrated step_id commit head now h) =
    record_integration-Follows s t step_id commit head now h
Transaction-Follows {s = s} {t = t}
      (Transaction.failed_to_integrate step_id attempt_id message now h) =
    record_integration_failure-Follows s t step_id attempt_id message now h
Transaction-Follows {s = s} (Transaction.asked_to_cancel reason now) =
    request_cancellation-Follows s reason now
Transaction-Follows {s = s} (Transaction.finished cancelled now) =
    settle_run-Follows s cancelled now
Transaction-Follows {s = s} {t = t} (Transaction.recovered decisions now h) =
    recover_transaction-Follows s t decisions now h

pub Reach-Follows : {s t : WorkflowRunState} → Reach s t → Follows s t
Reach-Follows {s = s} Reach.here = Follows-refl s
Reach-Follows (Reach.step reached transaction) =
    Follows-trans (Reach-Follows reached) (Transaction-Follows transaction)

-- What `t` has in common with the earlier `s`.
pub record Keeps (s t : WorkflowRunState) : Type 0 where
  pub same_plan : t.plan ≡ s.plan
  pub same_profiles : t.capability_profiles ≡ s.capability_profiles
  pub same_authority : t.authority ≡ s.authority
  pub same_limit : t.max_concurrent_workers ≡ s.max_concurrent_workers
  pub same_definitions : definitions t.steps ≡ definitions s.steps
  pub attempts_kept :
      (later : List (String × String × ℕ)) × (history t.attempts ≡ history s.attempts ++ later)

-- Whatever transactions of launching, settling, integrating, cancelling, finishing and recovering
-- run, in whatever order and without an admission between them, the plan, the capability
-- profiles, the frozen authority, the worker limit and the definitions of the steps stay as they
-- were, and the attempts keep their ids, their steps, their numbers and their places in the
-- history.
pub Reach-Keeps : {s t : WorkflowRunState} → Reach s t → Keeps s t
Reach-Keeps reached =
    let f = Reach-Follows reached in
    record {
      same_plan = f.same_plan;
      same_profiles = f.same_profiles;
      same_authority = f.same_authority;
      same_limit = f.same_limit;
      same_definitions = f.same_definitions;
      attempts_kept = f.attempts_kept;
    }

pub created-IsTimeline :
    (input : CreateInput) (s : WorkflowRunState)
    → create_workflow_run_state input ≡ ok s
    → IsTimeline s
unfolding create_workflow_run_state
created-IsTimeline input s h = elim (Bool-cases (ltb input.max_concurrent_workers 1)) [
  | inl q ↦ absurd (let bad = rw (q, create_workflow_run_state) at h in cc)
  | inr q ↦
      subst IsTimeline (ok-injective (rw (q, create_workflow_run_state) at h))
        (record { bounded = omega arith; counted = refl; numbered = tt })
]

-- Of a run that was created and then went through any of the modelled transactions, the timeline
-- holds at most the bounded number of events, the number of the last event is the dropped events
-- and the held ones together, and the held events are numbered without a gap from the first that
-- was not dropped.
pub Reach-IsTimeline :
    (input : CreateInput) (s t : WorkflowRunState)
    → create_workflow_run_state input ≡ ok s
    → Reach s t
    → IsTimeline t
Reach-IsTimeline input s t created reached =
    (Reach-Follows reached).keeps_timeline (created-IsTimeline input s created)
