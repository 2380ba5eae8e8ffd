-- ===== src/Engine/Transitions/Follows.antt =====
-- What a transaction may change of a run: the parts that the transactions are built from.
use pi_build_conductor.Prelude.{
  ℕ, String, List, [], ◌∷◌, ◌++◌, append-nil, append_assoc, Option, some, Dict, get, put, ◌≡◌, refl,
  sym, subst, ◌∙◌, arith, inl, inr, Bool-cases, ◌==◌, string_eq, ok, Option-cases,
}
use pi_build_conductor.Domain.Types.{RunCapabilityProfiles}
use pi_build_conductor.Domain.Steps.{StepDefinition}
use pi_build_conductor.Engine.State.Updates.{update_step-eq-ok}
use pi_build_conductor.Engine.State.{
  WorkflowRunLifecycleState, WorkflowStepRecord, WorkflowStepAttempt, WorkflowRunState,
  WorkflowEventBody, update_step, update_step_attempt, update_attempts,
}
use pi_build_conductor.Engine.Events.{append_workflow_events}
use pi_build_conductor.Engine.Events.Timeline.{IsTimeline, append-IsTimeline}
use pi_build_conductor.Engine.Scheduler.{
  next_step_state, reconcile_one, reconcile_ids, reconcile_workflow_steps, topological_step_ids,
}

-- The definitions of the steps, in the order of the steps.
abbrev pub definitions : Dict WorkflowStepRecord → Dict StepDefinition
definitions [] = []
definitions ((step_id, step) ∷ steps) = (step_id, step.definition) ∷ definitions steps

abbrev pub identity : WorkflowStepAttempt → String × String × ℕ
identity attempt = (attempt.id, attempt.step_id, attempt.number)

-- What identifies the attempts, in the order in which they started.
abbrev pub history : List WorkflowStepAttempt → List (String × String × ℕ)
history [] = []
history (attempt ∷ attempts) = identity attempt ∷ history attempts

-- `t` may come after `s`: what was approved is as it was, no step is added, dropped or redefined,
-- no attempt is forgotten, and the timeline is kept.
pub record Follows (s t : WorkflowRunState) : Type 0 where
  pub same_plan : t.plan ≡ s.plan
  pub same_profiles : t.capability_profiles ≡ s.capability_profiles
  pub same_authority : t.authority ≡ s.authority
  pub same_limit : t.max_concurrent_workers ≡ s.max_concurrent_workers
  pub same_definitions : definitions t.steps ≡ definitions s.steps
  pub attempts_kept :
      (later : List (String × String × ℕ)) × (history t.attempts ≡ history s.attempts ++ later)
  pub keeps_timeline : IsTimeline s → IsTimeline t

pub Follows-refl : (s : WorkflowRunState) → Follows s s
Follows-refl s = record {
  same_plan = refl;
  same_profiles = refl;
  same_authority = refl;
  same_limit = refl;
  same_definitions = refl;
  attempts_kept = ([], sym (append-nil (history s.attempts)));
  keeps_timeline = λ h. h;
}

pub Follows-trans : {s t u : WorkflowRunState} → Follows s t → Follows t u → Follows s u
Follows-trans {s = s} {t = t} {u = u} f g =
    let (early, e) = f.attempts_kept in
    let (late, l) = g.attempts_kept in
    record {
      same_plan = g.same_plan ∙ f.same_plan;
      same_profiles = g.same_profiles ∙ f.same_profiles;
      same_authority = g.same_authority ∙ f.same_authority;
      same_limit = g.same_limit ∙ f.same_limit;
      same_definitions = g.same_definitions ∙ f.same_definitions;
      attempts_kept = (early ++ late, rw (l, e) (append_assoc (history s.attempts) early late));
      keeps_timeline = λ h. g.keeps_timeline (f.keeps_timeline h);
    }

definitions-put :
    (k : String) (step new : WorkflowStepRecord) (steps : Dict WorkflowStepRecord)
    → get k steps ≡ some step
    → new.definition ≡ step.definition
    → definitions (put k new steps) ≡ definitions steps
definitions-put k step new [] g e = absurd (cc)
definitions-put k step new ((j, old) ∷ steps) g e = elim (Bool-cases (j == k)) [
  | inl q ↦ let o : old ≡ step = ground arith in rw (q, e, o) refl
  | inr q ↦ rw (q, definitions-put k step new steps (rw q at g) e) refl
]

-- A transaction may write the lifecycle state, the error, the head and the time.
pub touched-Follows :
    {s t : WorkflowRunState} (state : WorkflowRunLifecycleState) (error : Option String)
    (head updated_at : String)
    → Follows s t
    → Follows s (record t {
      state = state;
      error = error;
      integration_head = head;
      updated_at = updated_at;
    })
touched-Follows state error head updated_at f = record {
  same_plan = f.same_plan;
  same_profiles = f.same_profiles;
  same_authority = f.same_authority;
  same_limit = f.same_limit;
  same_definitions = f.same_definitions;
  attempts_kept = f.attempts_kept;
  keeps_timeline = λ h.
      let kept = f.keeps_timeline h in
      record { bounded = kept.bounded; counted = kept.counted; numbered = kept.numbered };
}

pub steps-Follows :
    {s t : WorkflowRunState} (steps : Dict WorkflowStepRecord)
    → definitions steps ≡ definitions t.steps
    → Follows s t
    → Follows s (record t { steps = steps })
steps-Follows steps e f = record {
  same_plan = f.same_plan;
  same_profiles = f.same_profiles;
  same_authority = f.same_authority;
  same_limit = f.same_limit;
  same_definitions = e ∙ f.same_definitions;
  attempts_kept = f.attempts_kept;
  keeps_timeline = λ h.
      let kept = f.keeps_timeline h in
      record { bounded = kept.bounded; counted = kept.counted; numbered = kept.numbered };
}

pub attempts-Follows :
    {s t : WorkflowRunState} (attempts : List WorkflowStepAttempt)
    (later : List (String × String × ℕ))
    → history attempts ≡ history t.attempts ++ later
    → Follows s t
    → Follows s (record t { attempts = attempts })
attempts-Follows {s = s} attempts later e f =
    let (early, k) = f.attempts_kept in
    record {
      same_plan = f.same_plan;
      same_profiles = f.same_profiles;
      same_authority = f.same_authority;
      same_limit = f.same_limit;
      same_definitions = f.same_definitions;
      attempts_kept = (early ++ later, rw (e, k) (append_assoc (history s.attempts) early later));
      keeps_timeline = λ h.
          let kept = f.keeps_timeline h in
          record { bounded = kept.bounded; counted = kept.counted; numbered = kept.numbered };
    }

pub update_step-Follows :
    {s t u : WorkflowRunState} (step_id : String) (update : WorkflowStepRecord → WorkflowStepRecord)
    → ((step : WorkflowStepRecord) → (update step).definition ≡ step.definition)
    → update_step t step_id update ≡ ok u
    → Follows s t
    → Follows s u
update_step-Follows {s = s} {t = t} {u = u} step_id update e h f =
    let (step, g, q) = update_step-eq-ok t u step_id update h in
    subst (Follows s) (sym q) (
      steps-Follows (put step_id (update step) t.steps)
        (definitions-put step_id step (update step) t.steps g (e step)) f)

history-update_attempts :
    (attempt_id : String) (update : WorkflowStepAttempt → WorkflowStepAttempt)
    (attempts : List WorkflowStepAttempt)
    → ((attempt : WorkflowStepAttempt) → identity (update attempt) ≡ identity attempt)
    → history (update_attempts attempt_id update attempts) ≡ history attempts
unfolding update_attempts
history-update_attempts attempt_id update [] e = refl
history-update_attempts attempt_id update (attempt ∷ attempts) e =
    elim (Bool-cases (attempt.id == attempt_id)) [
      | inl q ↦ rw (q, history-update_attempts attempt_id update attempts e, e attempt) refl
      | inr q ↦ rw (q, history-update_attempts attempt_id update attempts e) refl
    ]

pub update_step_attempt-Follows :
    {s t : WorkflowRunState} (attempt_id : String)
    (update : WorkflowStepAttempt → WorkflowStepAttempt)
    → ((attempt : WorkflowStepAttempt) → identity (update attempt) ≡ identity attempt)
    → Follows s t
    → Follows s (update_step_attempt t attempt_id update)
unfolding update_step_attempt
update_step_attempt-Follows {t = t} attempt_id update e f =
    attempts-Follows (update_attempts attempt_id update t.attempts) []
      (history-update_attempts attempt_id update t.attempts e
        ∙ sym (append-nil (history t.attempts)))
      f

definitions-reconcile_one :
    (profiles : RunCapabilityProfiles) (id : String) (steps : Dict WorkflowStepRecord)
    → definitions (reconcile_one profiles id steps) ≡ definitions steps
unfolding reconcile_one
definitions-reconcile_one profiles id steps = elim (Option-cases (get id steps)) [
  | inl e ↦ rw (e, definitions) refl
  | inr (step, e) ↦
      rw (e, definitions)
        (definitions-put id step (record step { state = next_step_state profiles step steps }) steps
          e refl)
]

definitions-reconcile_ids :
    (profiles : RunCapabilityProfiles) (ids : List String) (steps : Dict WorkflowStepRecord)
    → definitions (reconcile_ids profiles ids steps) ≡ definitions steps
unfolding reconcile_ids
definitions-reconcile_ids profiles [] steps = refl
definitions-reconcile_ids profiles (id ∷ ids) steps =
    definitions-reconcile_ids profiles ids (reconcile_one profiles id steps)
    ∙ definitions-reconcile_one profiles id steps

pub reconciled-Follows :
    {s t : WorkflowRunState} → Follows s t → Follows s (reconcile_workflow_steps t)
unfolding reconcile_workflow_steps
reconciled-Follows {t = t} f =
    steps-Follows (reconcile_ids t.capability_profiles (topological_step_ids t.plan) t.steps)
      (definitions-reconcile_ids t.capability_profiles (topological_step_ids t.plan) t.steps) f

appended-fields :
    (t : WorkflowRunState) (bodies : List WorkflowEventBody) (now : String)
    → (IsTimeline t → IsTimeline (append_workflow_events t bodies now))
    → Follows t (append_workflow_events t bodies now)
unfolding append_workflow_events
appended-fields t [] now h = Follows-refl t
appended-fields t (body ∷ bodies) now h = record {
  same_plan = refl;
  same_profiles = refl;
  same_authority = refl;
  same_limit = refl;
  same_definitions = refl;
  attempts_kept = ([], sym (append-nil (history t.attempts)));
  keeps_timeline = h;
}

pub appended-Follows :
    {s t : WorkflowRunState} (bodies : List WorkflowEventBody) (now : String)
    → Follows s t
    → Follows s (append_workflow_events t bodies now)
appended-Follows {t = t} bodies now f =
    Follows-trans f (appended-fields t bodies now (append-IsTimeline t bodies now))
