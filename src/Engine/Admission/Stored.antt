-- ===== src/Engine/Admission/Stored.antt =====
-- src/engine/admission.ts: the state that a successful admission stores.
use pi_build_conductor.Prelude.{
  ◌+◌, String, drop, Bool, true, false, not, List, [], ◌∷◌, Option, none, some, get, take, length,
  leb, ltb, eqb, ◌==◌, eq_of_beq, string_eq, ◌≡◌, refl, sym, ap, subst, arith, inl, inr,
  Option-cases, Result, ok, err, guard, bound, ok-injective,
}
use pi_build_conductor.Domain.Steps.{WorkflowPlan}
use pi_build_conductor.Domain.Steps.Equality.{list_eq, step_eq}
use pi_build_conductor.Security.Envelope.{FrozenAuthority}
use pi_build_conductor.Security.Authority.{plan_authority_issues}
use pi_build_conductor.Engine.State.{WorkflowStepRecord, WorkflowRunState}
use pi_build_conductor.Engine.Events.{append_workflow_events}
use pi_build_conductor.Engine.Scheduler.{is_running, run_is_running, reconcile_workflow_steps}
use pi_build_conductor.Domain.Json.{Json}
use pi_build_conductor.Domain.Reading.{PlanValidationIssue}
use pi_build_conductor.Domain.StepPlan.{step_ids, validate_workflow_plan_result}
use pi_build_conductor.Domain.StepPlan.Accepted.{
  IsWorkflowPlan, validate_workflow_plan_result-IsWorkflowPlan,
}
use pi_build_conductor.Engine.Admission.{
  grown_plan_value, StepAdmissionError, StepAdmissionRequest, run_not_running, no_authority,
  nothing_proposed, no_reason, proposer_not_running, too_many_steps, collisions,
  changes_existing_steps, outside_authority, is_blank, required, require_running_proposer,
  colliding_ids, validated, add_planned, admission_events, grown_plan, admit_steps,
  max_workflow_plan_steps,
}

guard-eq-ok :
    {E : Type 0} (test : Bool) (error : E) (u : Unit {0}) → guard test error ≡ ok u → test ≡ true
guard-eq-ok true error u h = refl
guard-eq-ok false error u h = absurd (cc)

required-eq-ok :
    {A : Type 0} (o : Option A) (error : StepAdmissionError) (a : A)
    → required o error ≡ ok a
    → o ≡ some a
required-eq-ok none error a h = absurd (cc)
required-eq-ok (some b) error a h = ap some (ok-injective h)

require_running_proposer-eq-ok :
    (s : WorkflowRunState) (proposed_by : String) (u : Unit {0})
    → require_running_proposer s proposed_by ≡ ok u
    → (step : WorkflowStepRecord) × (get proposed_by s.steps ≡ some step)
      × (is_running step.state ≡ true)
unfolding require_running_proposer
require_running_proposer-eq-ok s proposed_by u h = elim (Option-cases (get proposed_by s.steps)) [
  | inl e ↦ absurd (let bad = rw (e, require_running_proposer) at h in cc)
  | inr (step, e) ↦ (
    step,
    e,
    guard-eq-ok (is_running step.state) proposer_not_running u
        (rw (e, require_running_proposer) at h),
  )
]

no_issue : {A : Type 0} (issues : List A) → eqb (length issues) 0 ≡ true → issues ≡ []
no_issue [] h = refl
no_issue (issue ∷ issues) h = absurd (ground arith)

validated-eq-ok :
    (read : Result (List PlanValidationIssue) WorkflowPlan) (plan : WorkflowPlan)
    → validated read ≡ ok plan
    → read ≡ ok plan
validated-eq-ok (ok read) plan h = ap ok (ok-injective h)
validated-eq-ok (err issues) plan h = absurd (cc)

grown_plan-keeps :
    (s : WorkflowRunState) (proposed : List Json) (plan : WorkflowPlan)
    → grown_plan s proposed ≡ ok plan
    → (take (length s.plan.steps) plan.steps ≡ s.plan.steps) × IsWorkflowPlan plan
unfolding grown_plan
grown_plan-keeps s proposed plan h =
    let colliding = colliding_ids (step_ids s.plan.steps) proposed in
    let (_, _, h1) = bound {m = guard (eqb (length colliding) 0) (collisions colliding)} h in
    let (read, accepted, h2) =
      bound {m = validated (validate_workflow_plan_result (grown_plan_value s.plan proposed))} h1 in
    let (u, unchanged, h3) =
      bound
        {m = guard (take (length s.plan.steps) read.steps == s.plan.steps) changes_existing_steps}
        h2 in
    let same = eq_of_beq _ _ (guard-eq-ok _ changes_existing_steps u unchanged) in
    let whole =
      validate_workflow_plan_result-IsWorkflowPlan (grown_plan_value s.plan proposed) read
        (validated-eq-ok _ read accepted) in
    subst (λ p. (take (length s.plan.steps) p.steps ≡ s.plan.steps) × IsWorkflowPlan p)
      (ok-injective h3) (same, whole)

-- The state that an admission stores when its plan is `plan`.
abbrev pub stored_state :
    WorkflowRunState → WorkflowPlan → StepAdmissionRequest → String → WorkflowRunState
stored_state s plan request at =
    let admitted = drop (length s.plan.steps) plan.steps in
    append_workflow_events
      (reconcile_workflow_steps
        (record s { plan = plan; steps = add_planned admitted s.steps; updated_at = at }))
      (admission_events request.proposed_by request.reason admitted) at

-- The checks that an admission passed, and what it stored.
pub record IsAdmitted (s t : WorkflowRunState) (request : StepAdmissionRequest) (at : String)
    : Type 0 where
  pub plan : WorkflowPlan
  pub authority : FrozenAuthority
  pub was_running : run_is_running s.state ≡ true
  pub proposer :
      (step : WorkflowStepRecord) × (get request.proposed_by s.steps ≡ some step)
      × (is_running step.state ≡ true)
  pub kept : take (length s.plan.steps) plan.steps ≡ s.plan.steps
  pub whole : IsWorkflowPlan plan
  pub frozen : s.authority ≡ some authority
  pub allowed :
      plan_authority_issues plan authority.envelope s.repository_root (some s.capability_profiles)
      ≡ []
  pub stored : t ≡ stored_state s plan request at

pub admit_steps-IsAdmitted :
    (s t : WorkflowRunState) (request : StepAdmissionRequest) (at : String)
    → admit_steps s request at ≡ ok t
    → IsAdmitted s t request at
unfolding admit_steps
admit_steps-IsAdmitted s t request at h =
    let (a1, g1, h1) = bound {m = guard (run_is_running s.state) run_not_running} h in
    let (authority, g2, h2) = bound {m = required s.authority no_authority} h1 in
    let (_, _, h3) = bound {m = guard (ltb 0 (length request.steps)) nothing_proposed} h2 in
    let (_, _, h4) = bound {m = guard (not (is_blank request.reason)) no_reason} h3 in
    let (a5, g5, h5) = bound {m = require_running_proposer s request.proposed_by} h4 in
    let (_, _, h6) =
      bound
        {m = guard (leb (length s.plan.steps + length request.steps) max_workflow_plan_steps)
          too_many_steps}
        h5 in
    let (plan, g7, h7) = bound {m = grown_plan s request.steps} h6 in
    let issues =
      plan_authority_issues plan authority.envelope s.repository_root
        (some s.capability_profiles) in
    let (a8, g8, h8) = bound {m = guard (eqb (length issues) 0) (outside_authority issues)} h7 in
    let (kept, whole) = grown_plan-keeps s request.steps plan g7 in
    record {
      plan = plan;
      authority = authority;
      was_running = guard-eq-ok (run_is_running s.state) run_not_running a1 g1;
      proposer = require_running_proposer-eq-ok s request.proposed_by a5 g5;
      kept = kept;
      whole = whole;
      frozen = required-eq-ok s.authority no_authority authority g2;
      allowed = no_issue issues (guard-eq-ok _ (outside_authority issues) a8 g8);
      stored = sym (ok-injective h8);
    }
