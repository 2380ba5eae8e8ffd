-- ===== src/Engine/Transitions/Growth.antt =====
-- What every run keeps, admissions included: src/engine/engine.ts, src/engine/recovery.ts and
-- src/engine/admission.ts.
use pi_build_conductor.Prelude.{
  ℕ, String, true, List, [], ◌++◌, append-nil, append_assoc, drop, take-append-drop, length,
  is_distinct, ltb, ◌≡◌, refl, sym, ap, ◌∙◌, subst, inl, inr, Bool-cases, string_eq, ok,
  ok-injective,
}
use pi_build_conductor.Domain.Steps.{StepDefinition}
use pi_build_conductor.Domain.StepPlan.{step_ids}
use pi_build_conductor.Engine.State.{WorkflowRunState, CreateInput, create_workflow_run_state}
use pi_build_conductor.Engine.Admission.{
  StepAdmissionRequest, add_planned, admission_events, admit_steps,
}
use pi_build_conductor.Engine.Admission.Stored.{admit_steps-IsAdmitted}
use pi_build_conductor.Engine.Events.Timeline.{IsTimeline}
use pi_build_conductor.Engine.Transitions.{Transaction}
use pi_build_conductor.Engine.Transitions.Follows.{
  definitions, history, Follows, Follows-refl, reconciled-Follows, appended-Follows,
}
use pi_build_conductor.Engine.Transitions.History.{Transaction-Follows, created-IsTimeline}
use pi_build_conductor.Engine.Transitions.Recorded.{by_id, initial_steps-stored, add_planned-stored}

-- One transaction of the engine or one admission.
pub data Change (s : WorkflowRunState) : WorkflowRunState → Type 0 where
  transacted : {t : WorkflowRunState} → Transaction s t → Change s t
  admitted :
      {t : WorkflowRunState} (request : StepAdmissionRequest) (at : String)
      → admit_steps s request at ≡ ok t
      → Change s t

-- The states that a run can come to when it also may grow.
pub data Grow (s : WorkflowRunState) : WorkflowRunState → Type 0 where
  here : Grow s s
  change : {t u : WorkflowRunState} → Grow s t → Change t u → Grow s u

-- The records are those of the plan's steps, in the plan's order, and the timeline is whole.
pub record IsKept (s : WorkflowRunState) : Type 0 where
  pub recorded : definitions s.steps ≡ by_id s.plan.steps
  pub timeline : IsTimeline s

-- What `t` has in common with the earlier `s`.
pub record Continues (s t : WorkflowRunState) : Type 0 where
  pub only_added : (added : List StepDefinition) × (t.plan.steps ≡ s.plan.steps ++ added)
  pub same_profiles : t.capability_profiles ≡ s.capability_profiles
  pub same_authority : t.authority ≡ s.authority
  pub same_limit : t.max_concurrent_workers ≡ s.max_concurrent_workers
  pub attempts_kept :
      (later : List (String × String × ℕ)) × (history t.attempts ≡ history s.attempts ++ later)

Continues-refl : (s : WorkflowRunState) → Continues s s
Continues-refl s = record {
  only_added = ([], sym (append-nil s.plan.steps));
  same_profiles = refl;
  same_authority = refl;
  same_limit = refl;
  attempts_kept = ([], sym (append-nil (history s.attempts)));
}

Continues-trans : {s t u : WorkflowRunState} → Continues s t → Continues t u → Continues s u
Continues-trans {s = s} f g =
    let (some_added, p) = f.only_added in
    let (more_added, q) = g.only_added in
    let (early, e) = f.attempts_kept in
    let (late, l) = g.attempts_kept in
    record {
      only_added =
          (some_added ++ more_added, rw (q, p) (append_assoc s.plan.steps some_added more_added));
      same_profiles = g.same_profiles ∙ f.same_profiles;
      same_authority = g.same_authority ∙ f.same_authority;
      same_limit = g.same_limit ∙ f.same_limit;
      attempts_kept = (early ++ late, rw (l, e) (append_assoc (history s.attempts) early late));
    }

followed : {s t : WorkflowRunState} → Follows s t → IsKept s → IsKept t × Continues s t
followed {s = s} f kept = (
  record {
    recorded = f.same_definitions ∙ kept.recorded ∙ ap (λ p. by_id p.steps) (sym f.same_plan);
    timeline = f.keeps_timeline kept.timeline;
  },
  record {
    only_added = ([], ap (λ p. p.steps) f.same_plan ∙ sym (append-nil s.plan.steps));
    same_profiles = f.same_profiles;
    same_authority = f.same_authority;
    same_limit = f.same_limit;
    attempts_kept = f.attempts_kept;
  },
)

grown :
    (s t : WorkflowRunState) (request : StepAdmissionRequest) (at : String)
    → admit_steps s request at ≡ ok t
    → IsKept s
    → IsKept t × Continues s t
grown s t request at h kept =
    let a = admit_steps-IsAdmitted s t request at h in
    let later = drop (length s.plan.steps) a.plan.steps in
    let extended : s.plan.steps ++ later ≡ a.plan.steps =
      ap (λ l. l ++ later) (sym a.kept) ∙ take-append-drop (length s.plan.steps) a.plan.steps in
    let middle : WorkflowRunState = record s {
      plan = a.plan;
      steps = add_planned later s.steps;
      updated_at = at;
    } in
    let start : IsKept middle = record {
      recorded =
          add_planned-stored s.plan.steps later s.steps kept.recorded
            (ap (λ l. is_distinct (step_ids l)) extended ∙ a.whole.distinct)
          ∙ ap by_id extended;
      timeline =
          let whole = kept.timeline in
          record { bounded = whole.bounded; counted = whole.counted; numbered = whole.numbered };
    } in
    let (done, continues) =
      followed
        (appended-Follows (admission_events request.proposed_by request.reason later) at
          (reconciled-Follows (Follows-refl middle)))
        start in
    let first : Continues s middle = record {
      only_added = (later, sym extended);
      same_profiles = refl;
      same_authority = refl;
      same_limit = refl;
      attempts_kept = ([], sym (append-nil (history s.attempts)));
    } in
    subst (λ u. IsKept u × Continues s u) (sym a.stored) (done, Continues-trans first continues)

Grow-IsKept : {s t : WorkflowRunState} → Grow s t → IsKept s → IsKept t × Continues s t
Grow-IsKept {s = s} Grow.here kept = (kept, Continues-refl s)
Grow-IsKept (Grow.change path (Change.transacted transaction)) kept =
    let (conducted, continues) = Grow-IsKept path kept in
    let (done, last) = followed (Transaction-Follows transaction) conducted in
    (done, Continues-trans continues last)
Grow-IsKept {t = t} (Grow.change {t = middle} path (Change.admitted request at h)) kept =
    let (conducted, continues) = Grow-IsKept path kept in
    let (done, last) = grown middle t request at h conducted in
    (done, Continues-trans continues last)

created-IsKept :
    (input : CreateInput) (s : WorkflowRunState)
    → is_distinct (step_ids input.plan.steps) ≡ true
    → create_workflow_run_state input ≡ ok s
    → IsKept s
unfolding create_workflow_run_state
created-IsKept input s distinct h = elim (Bool-cases (ltb input.max_concurrent_workers 1)) [
  | inl q ↦ absurd (let bad = rw (q, create_workflow_run_state) at h in cc)
  | inr q ↦ record {
    recorded =
        subst (λ (r : WorkflowRunState). definitions r.steps ≡ by_id r.plan.steps)
          (ok-injective (rw (q, create_workflow_run_state) at h))
          (initial_steps-stored [] input.plan.steps [] refl distinct);
    timeline = created-IsTimeline input s h;
  }
]

-- If a run was created for a plan whose step ids are distinct, and went through any transactions
-- and admissions in any order, its step records are those of its plan, in the plan's order and
-- with the plan's definitions; its timeline is bounded, counted and without a gap; and from any
-- point of the way on, the plan's steps only have new ones added behind them, the capability
-- profiles, the frozen authority and the worker limit stay, and the attempts keep their ids,
-- their steps, their numbers and their places in the history.
pub created-Grow-Continues :
    (input : CreateInput) (s t u : WorkflowRunState)
    → is_distinct (step_ids input.plan.steps) ≡ true
    → create_workflow_run_state input ≡ ok s
    → Grow s t
    → Grow t u
    → IsKept u × Continues t u
created-Grow-Continues input s t u distinct created path later =
    let (kept, _) = Grow-IsKept path (created-IsKept input s distinct created) in
    Grow-IsKept later kept
