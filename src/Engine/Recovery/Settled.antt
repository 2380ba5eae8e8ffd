-- ===== src/Engine/Recovery/Settled.antt =====
-- src/engine/recovery.ts: the attempts that the recovery transaction leaves behind.
use pi_build_conductor.Prelude.{
  String, Bool, true, false, not, ◌||◌, List, [], ◌∷◌, ◌++◌, some, or_else, Dict, get, includes,
  All, All-map, ◌==◌, string_eq, eq_of_beq, beq_refl, ◌≡◌, refl, sym, ◌∙◌, ap, subst, arith, inl,
  inr, Bool-cases, Option-cases, truthy_text, Result, ok, bound, ok-injective, if◌then◌else◌,
}
use pi_build_conductor.Domain.Types.{AttemptState, is_active_attempt_state}
use pi_build_conductor.Engine.State.{
  StepRunState, WorkflowStepAttempt, WorkflowStepRecord, WorkflowRunState, WorkflowEventBody,
  StateError, require_step, update_step, update_step_attempt, update_attempts,
}
use pi_build_conductor.Engine.State.Updates.{update_step-eq-ok}
use pi_build_conductor.Engine.Events.Kept.{append-same_attempts}
use pi_build_conductor.Engine.Scheduler.{reconcile_workflow_steps}
use pi_build_conductor.Engine.Recovery.{InterruptedAttemptDecision, no_decision}
use pi_build_conductor.Engine.Recovery.Transaction.{
  adopt_attempt, interruption_reason, may_run_again, interrupt_record, recover_attempt,
  recover_attempts, finish_recovery, recover_transaction,
}

abbrev pub is_active : WorkflowStepAttempt → Bool
is_active attempt = is_active_attempt_state attempt.state

-- The ids of the active attempts of a list.
abbrev active_ids : List WorkflowStepAttempt → List String
active_ids [] = []
active_ids (attempt ∷ attempts) =
    if is_active attempt then attempt.id ∷ active_ids attempts else active_ids attempts

-- An attempt is settled, or among those still to be recovered.
abbrev covered : List WorkflowStepAttempt → WorkflowStepAttempt → Bool
covered rest attempt = not (is_active attempt) || includes attempt.id (active_ids rest)

-- What recovering one attempt does to the attempts.
abbrev Settles : WorkflowRunState → WorkflowRunState → String → List WorkflowEventBody → Type 0
Settles s t id events =
    (update : WorkflowStepAttempt → WorkflowStepAttempt) × ((attempt : WorkflowStepAttempt)
      → is_active (update attempt) ≡ false)
    × (t.attempts ≡ update_attempts id update s.attempts)
    × (first : WorkflowEventBody) × (more : List WorkflowEventBody) × (events ≡ first ∷ more)

update_step_attempt-attempts :
    (s : WorkflowRunState) (id : String) (update : WorkflowStepAttempt → WorkflowStepAttempt)
    → (update_step_attempt s id update).attempts ≡ update_attempts id update s.attempts
unfolding update_step_attempt
update_step_attempt-attempts s id update = refl

updated-attempts :
    (s t : WorkflowRunState) (id step_id : String)
    (update : WorkflowStepAttempt → WorkflowStepAttempt)
    (change : WorkflowStepRecord → WorkflowStepRecord)
    → update_step (update_step_attempt s id update) step_id change ≡ ok t
    → t.attempts ≡ update_attempts id update s.attempts
updated-attempts s t id step_id update change h =
    let (step, found, same) =
      update_step-eq-ok (update_step_attempt s id update) t step_id change h in
    ap (λ r. r.attempts) same ∙ update_step_attempt-attempts s id update

abbrev done :
    WorkflowRunState × List WorkflowEventBody
    → Result StateError (WorkflowRunState × List WorkflowEventBody)
done last = ok last

-- Both branches of an interruption report the failure first.
interrupted_with-Settles :
    (s next t : WorkflowRunState) (id : String) (update : WorkflowStepAttempt → WorkflowStepAttempt)
    (first : WorkflowEventBody) (more events : List WorkflowEventBody)
    → ((attempt : WorkflowStepAttempt) → is_active (update attempt) ≡ false)
    → next.attempts ≡ update_attempts id update s.attempts
    → done (next, first ∷ more) ≡ done (t, events)
    → Settles s t id events
interrupted_with-Settles s next t id update first more events inactive same h =
    subst (λ r. Settles s r.0 id r.1) (ok-injective h) (update, inactive, same, first, more, refl)

adopted_inactive :
    (commit : String) (decision : InterruptedAttemptDecision) (now : String)
    (attempt : WorkflowStepAttempt)
    → is_active (adopt_attempt commit decision now attempt) ≡ false
unfolding adopt_attempt is_active_attempt_state
adopted_inactive commit decision now attempt = refl

abbrev interrupt : String → String → WorkflowStepAttempt → WorkflowStepAttempt
interrupt now reason attempt = record attempt {
  state = AttemptState.interrupted;
  finished_at = some now;
  error = some reason;
}

interrupted_inactive :
    (now reason : String) (attempt : WorkflowStepAttempt)
    → is_active (interrupt now reason attempt) ≡ false
unfolding is_active_attempt_state
interrupted_inactive now reason attempt = refl

recover_attempt-Settles :
    (s t : WorkflowRunState) (attempt : WorkflowStepAttempt) (decision : InterruptedAttemptDecision)
    (now : String) (events : List WorkflowEventBody)
    → recover_attempt s attempt decision now ≡ ok (t, events)
    → Settles s t attempt.id events
unfolding recover_attempt
recover_attempt-Settles s t attempt decision now events h =
    let (step, _, e) = bound {m = require_step s attempt.step_id} h in
    elim (Option-cases (truthy_text decision.commit)) [
      | inl q ↦
          let reason = interruption_reason decision in
          let again = may_run_again decision attempt step.definition in
          let (next, updated, k) =
            bound
              {m = update_step (update_step_attempt s attempt.id (interrupt now reason))
                attempt.step_id (interrupt_record again reason)}
              (rw q at e) in
          let same =
            updated-attempts s next attempt.id attempt.step_id (interrupt now reason)
              (interrupt_record again reason) updated in
          elim (Bool-cases again) [
            | inl p ↦
                interrupted_with-Settles s next t attempt.id (interrupt now reason) _ _ events
                  (interrupted_inactive now reason) same (rw p at k)
            | inr p ↦
                interrupted_with-Settles s next t attempt.id (interrupt now reason) _ _ events
                  (interrupted_inactive now reason) same (rw p at k)
          ]
      | inr (commit, q) ↦
          let succeed : WorkflowStepRecord → WorkflowStepRecord =
            λ step. record step { state = StepRunState.succeeded } in
          let (next, updated, k) =
            bound
              {m = update_step
                (update_step_attempt s attempt.id (adopt_attempt commit decision now))
                attempt.step_id succeed}
              (rw q at e) in
          interrupted_with-Settles s next t attempt.id (adopt_attempt commit decision now) _ []
            events (adopted_inactive commit decision now)
            (updated-attempts s next attempt.id attempt.step_id (adopt_attempt commit decision now)
              succeed updated)
            k
    ]

covered-later :
    (x : WorkflowStepAttempt) (rest : List WorkflowStepAttempt) (a : WorkflowStepAttempt)
    → covered rest a ≡ true
    → covered (x ∷ rest) a ≡ true
covered-later x rest a h = elim (Bool-cases (is_active x)) [
  | inl q ↦ rw q (ground arith)
  | inr q ↦ rw q h
]

covered-first :
    (x : WorkflowStepAttempt) (rest : List WorkflowStepAttempt) → covered (x ∷ rest) x ≡ true
covered-first x rest = elim (Bool-cases (is_active x)) [
  | inl q ↦ rw (q, beq_refl x.id) refl
  | inr q ↦ rw q refl
]

-- A settled attempt is covered by anything.
settled-covered :
    (rest : List WorkflowStepAttempt) (a : WorkflowStepAttempt)
    → is_active a ≡ false
    → covered rest a ≡ true
settled-covered rest a h = rw h refl

-- An attempt with another id than the first is covered by the later ones.
covered-other :
    (x : WorkflowStepAttempt) (rest : List WorkflowStepAttempt) (a : WorkflowStepAttempt)
    → (a.id == x.id) ≡ false
    → covered (x ∷ rest) a ≡ true
    → covered rest a ≡ true
covered-other x rest a other h = elim (Bool-cases (is_active x)) [
  | inl q ↦ elim (Bool-cases (x.id == a.id)) [
    | inl p ↦ absurd (cc (eq_of_beq x.id a.id p, other, beq_refl a.id))
    | inr p ↦ rw (q, p) at h
  ]
  | inr q ↦ rw q at h
]

update_attempts-covered :
    (attempt : WorkflowStepAttempt) (rest : List WorkflowStepAttempt)
    (update : WorkflowStepAttempt → WorkflowStepAttempt) (attempts : List WorkflowStepAttempt)
    → ((a : WorkflowStepAttempt) → is_active (update a) ≡ false)
    → All (λ a. covered (attempt ∷ rest) a ≡ true) attempts
    → All (λ a. covered rest a ≡ true) (update_attempts attempt.id update attempts)
unfolding update_attempts
update_attempts-covered attempt rest update [] inactive h = tt
update_attempts-covered attempt rest update (a ∷ attempts) inactive h = (
  elim (Bool-cases (a.id == attempt.id)) [
    | inl q ↦ rw q (settled-covered rest (update a) (inactive a))
    | inr q ↦ rw q (covered-other attempt rest a q h.0)
  ],
  update_attempts-covered attempt rest update attempts inactive h.1,
)

All-covered : (attempts : List WorkflowStepAttempt) → All (λ a. covered attempts a ≡ true) attempts
All-covered [] = tt
All-covered (a ∷ attempts) = (
  covered-first a attempts,
  All-map _ _ attempts (covered-later a attempts) (All-covered attempts),
)

recover_attempts-inactive :
    (s t : WorkflowRunState) (attempts : List WorkflowStepAttempt)
    (decisions : Dict InterruptedAttemptDecision) (now : String) (events : List WorkflowEventBody)
    → recover_attempts s attempts decisions now ≡ ok (t, events)
    → All (λ a. covered attempts a ≡ true) s.attempts
    → All (λ a. is_active a ≡ false) t.attempts
unfolding recover_attempts
recover_attempts-inactive s t [] decisions now events h c =
    subst (λ r. All (λ a. is_active a ≡ false) r.0.attempts) (ok-injective h)
      (All-map _ _ s.attempts (λ a k. ground arith) c)
recover_attempts-inactive s t (attempt ∷ attempts) decisions now events h c =
    elim (Bool-cases (is_active_attempt_state attempt.state)) [
      | inr q ↦
          recover_attempts-inactive s t attempts decisions now events
            (rw (q, recover_attempts) at h) (All-map _ _ s.attempts (λ a k. rw q at k) c)
      | inl q ↦
          let decision = or_else (get attempt.id decisions) no_decision in
          let ((one, first), done, e) =
            bound {m = recover_attempt s attempt decision now} (rw (q, recover_attempts) at h) in
          let ((last, later), rest, k) =
            bound {m = recover_attempts one attempts decisions now} e in
          let (update, inactive, same, _, _, _) =
            recover_attempt-Settles s one attempt decision now first done in
          subst (λ r. All (λ a. is_active a ≡ false) r.0.attempts) (ok-injective k)
            (recover_attempts-inactive one last attempts decisions now later rest (
              subst (All (λ a. covered attempts a ≡ true)) (sym same)
                (update_attempts-covered attempt attempts update s.attempts inactive c)))
    ]

recover_attempts-none :
    (s t : WorkflowRunState) (attempts : List WorkflowStepAttempt)
    (decisions : Dict InterruptedAttemptDecision) (now : String)
    → recover_attempts s attempts decisions now ≡ ok (t, [])
    → All (λ a. is_active a ≡ false) attempts
unfolding recover_attempts
recover_attempts-none s t [] decisions now h = tt
recover_attempts-none s t (attempt ∷ attempts) decisions now h =
    elim (Bool-cases (is_active_attempt_state attempt.state)) [
      | inr q ↦
          (q, recover_attempts-none s t attempts decisions now (rw (q, recover_attempts) at h))
      | inl q ↦
          let decision = or_else (get attempt.id decisions) no_decision in
          let ((one, first), done, e) =
            bound {m = recover_attempt s attempt decision now} (rw (q, recover_attempts) at h) in
          let ((last, later), rest, k) =
            bound {m = recover_attempts one attempts decisions now} e in
          let (_, _, _, head, more, p) =
            recover_attempt-Settles s one attempt decision now first done in
          let none_left : first ++ later ≡ [] = ap (λ r. r.1) (ok-injective k) in
          absurd (cc (p, none_left))
    ]

finish_recovery-attempts :
    (s next : WorkflowRunState) (event : WorkflowEventBody) (events : List WorkflowEventBody)
    (now : String)
    → (finish_recovery s next (event ∷ events) now).attempts ≡ next.attempts
unfolding finish_recovery reconcile_workflow_steps
finish_recovery-attempts s next event events now = append-same_attempts _ _ now

finish_recovery-inactive :
    (s next : WorkflowRunState) (decisions : Dict InterruptedAttemptDecision) (now : String)
    (events : List WorkflowEventBody)
    → recover_attempts s s.attempts decisions now ≡ ok (next, events)
    → All
        (λ a. is_active_attempt_state a.state ≡ false)
        (finish_recovery s next events now).attempts
unfolding finish_recovery
finish_recovery-inactive s next decisions now [] h =
    recover_attempts-none s next s.attempts decisions now h
finish_recovery-inactive s next decisions now (event ∷ events) h =
    subst (All (λ a. is_active_attempt_state a.state ≡ false))
      (sym (finish_recovery-attempts s next event events now))
      (recover_attempts-inactive s next s.attempts decisions now (event ∷ events) h
        (All-covered s.attempts))

-- If the recovery transaction returns a run, whatever was decided of the attempts, no attempt of
-- that run is active.
pub recover_transaction-settles :
    (s t : WorkflowRunState) (decisions : Dict InterruptedAttemptDecision) (now : String)
    → recover_transaction s decisions now ≡ ok t
    → All (λ a. is_active_attempt_state a.state ≡ false) t.attempts
unfolding recover_transaction
recover_transaction-settles s t decisions now h =
    let ((next, events), done, e) = bound {m = recover_attempts s s.attempts decisions now} h in
    subst (λ r. All (λ a. is_active_attempt_state a.state ≡ false) r.attempts) (ok-injective e)
      (finish_recovery-inactive s next decisions now events done)
