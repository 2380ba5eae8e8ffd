-- ===== src/Engine/Admission/Sound.antt =====
-- src/engine/admission.ts: what an admission cannot do.
use pi_build_conductor.Prelude.{
  String, true, List, [], ◌∷◌, some, Dict, get, take, length, string_eq, ◌≡◌, refl, sym, ◌∙◌, ap,
  subst, ok,
}
use pi_build_conductor.Domain.Steps.{WorkflowPlan}
use pi_build_conductor.Domain.Steps.Equality.{list_eq, step_eq}
use pi_build_conductor.Security.Envelope.{FrozenAuthority}
use pi_build_conductor.Security.Authority.{plan_authority_issues}
use pi_build_conductor.Security.Authority.Sound.{IsWithin, plan_authority_issues-none_iff}
use pi_build_conductor.Engine.State.{WorkflowStepRecord, WorkflowRunState, WorkflowEventBody}
use pi_build_conductor.Engine.Events.{append_workflow_events}
use pi_build_conductor.Engine.Scheduler.{is_running, run_is_running, reconcile_workflow_steps}
use pi_build_conductor.Domain.StepPlan.Accepted.{IsWorkflowPlan}
use pi_build_conductor.Engine.Admission.{StepAdmissionRequest, admit_steps}
use pi_build_conductor.Engine.Admission.Stored.{admit_steps-IsAdmitted}

-- `t` is `s` with a grown plan: the run and the proposer were running, the plan is well formed,
-- starts with the steps it had and stays within the frozen envelope under the frozen profiles, and nothing that was
-- frozen and no attempt changed.
pub record IsGrown (s t : WorkflowRunState) (proposed_by : String) : Type 0 where
  pub was_running : run_is_running s.state ≡ true
  pub proposer :
      (step : WorkflowStepRecord) × (get proposed_by s.steps ≡ some step)
      × (is_running step.state ≡ true)
  pub whole : IsWorkflowPlan t.plan
  pub append_only : take (length s.plan.steps) t.plan.steps ≡ s.plan.steps
  pub authorized :
      (authority : FrozenAuthority) × (s.authority ≡ some authority)
      × IsWithin t.plan authority.envelope s.repository_root (some s.capability_profiles)
  pub same_authority : t.authority ≡ s.authority
  pub same_profiles : t.capability_profiles ≡ s.capability_profiles
  pub same_attempts : t.attempts ≡ s.attempts
  pub same_state : t.state ≡ s.state

-- What the transaction stores, apart from events.
stored_fields :
    (s : WorkflowRunState) (plan : WorkflowPlan) (steps : Dict WorkflowStepRecord) (at : String)
    (bodies : List WorkflowEventBody)
    → let t =
        append_workflow_events
          (reconcile_workflow_steps (record s { plan = plan; steps = steps; updated_at = at }))
          bodies
          at in
      (t.plan ≡ plan)
      × (t.authority ≡ s.authority)
      × (t.capability_profiles ≡ s.capability_profiles)
      × (t.attempts ≡ s.attempts)
      × (t.state ≡ s.state)
unfolding append_workflow_events reconcile_workflow_steps
stored_fields s plan steps at [] = (refl, refl, refl, refl, refl)
stored_fields s plan steps at (body ∷ bodies) = (refl, refl, refl, refl, refl)

stored-IsGrown :
    (s : WorkflowRunState) (plan : WorkflowPlan) (steps : Dict WorkflowStepRecord) (at : String)
    (bodies : List WorkflowEventBody) (authority : FrozenAuthority) (proposed_by : String)
    → run_is_running s.state ≡ true
    → ((step : WorkflowStepRecord) × (get proposed_by s.steps ≡ some step)
        × (is_running step.state ≡ true))
    → take (length s.plan.steps) plan.steps ≡ s.plan.steps
    → IsWorkflowPlan plan
    → s.authority ≡ some authority
    → plan_authority_issues plan authority.envelope s.repository_root (some s.capability_profiles)
      ≡ []
    → IsGrown s
        (append_workflow_events
          (reconcile_workflow_steps (record s { plan = plan; steps = steps; updated_at = at }))
          bodies
          at)
        proposed_by
stored-IsGrown s plan steps at bodies authority proposed_by was proposer kept whole frozen
      none_found =
    let (same_plan, same_authority, same_profiles, same_attempts, same_state) =
      stored_fields s plan steps at bodies in
    record {
      was_running = was;
      proposer = proposer;
      whole = subst IsWorkflowPlan (sym same_plan) whole;
      append_only = ap (λ p. take (length s.plan.steps) p.steps) same_plan ∙ kept;
      authorized = (
        authority,
        frozen,
        subst (λ p. IsWithin p authority.envelope s.repository_root (some s.capability_profiles))
            (sym same_plan)
            ((plan_authority_issues-none_iff plan authority.envelope s.repository_root
                (some s.capability_profiles)).0
              none_found),
      );
      same_authority = same_authority;
      same_profiles = same_profiles;
      same_attempts = same_attempts;
      same_state = same_state;
    }

-- If an admission succeeds, the run and the proposing step were running, the new plan is well
-- formed, starts with the steps that it had and stays within the frozen envelope under the frozen
-- capability profiles, and the authority, the profiles, the attempts and the state of the run are
-- unchanged.
pub admit_steps-IsGrown :
    (s t : WorkflowRunState) (request : StepAdmissionRequest) (at : String)
    → admit_steps s request at ≡ ok t
    → IsGrown s t request.proposed_by
admit_steps-IsGrown s t request at h =
    let a = admit_steps-IsAdmitted s t request at h in
    subst (λ u. IsGrown s u request.proposed_by) (sym a.stored)
      (stored-IsGrown s a.plan _ at _ a.authority request.proposed_by a.was_running a.proposer
        a.kept a.whole a.frozen a.allowed)
