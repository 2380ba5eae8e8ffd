-- ===== src/Engine/Scheduler/Launch.antt =====
-- What `launchableStepIds` guarantees of the steps that it selects.
pub mod Safe
use pi_build_conductor.Prelude.{
  ℕ, zero, suc, ◌+◌, ◌-◌, ◌≤◌, String, Bool, true, false, not, ◌&&◌, ◌||◌, List, [], ◌∷◌, ◌++◌,
  Option, none, some, Dict, get, ◌≡◌, refl, ap, sym, ◌∙◌, subst, arith, inl, inr, ◌⊎◌, includes,
  all, filter, All, All-map, length, if◌then◌else◌, Bool-cases, Option-cases, eqb, Result, ok, err,
  ◌>>=◌, Result-cases, bound, ok-injective, beq_refl, ◌==◌, string_eq,
}
use pi_build_conductor.Domain.Types.{RunCapabilityProfiles}
use pi_build_conductor.Domain.Steps.{StepDefinition}
use pi_build_conductor.Engine.Workspaces.{step_consumes_worker_slot}
use pi_build_conductor.Engine.State.{
  StepRunState, ready, WorkflowStepRecord, WorkflowRunState, StateError,
}
use pi_build_conductor.Engine.Scheduler.{
  is_ready, run_is_running, HeldLocks, hold_locks, conflicts_with_held_locks, slots_after,
  may_launch, select_launchable, active_attempts, attempt_step_ids, running_records, definitions_of,
  held_locks_of, occupied_slots, launchable_step_ids, reconcile_workflow_steps,
  topological_step_ids, satisfies,
}
use pi_build_conductor.Engine.Scheduler.Locks.{
  Compatible, locks_of, hold_locks-locks_of, no_conflict-Compatible,
}
use pi_build_conductor.Engine.Scheduler.Reconcile.{IsJustified, reconcile_ids-IsJustified}

-- The worker slots that a list of steps takes.
pub slots_used : RunCapabilityProfiles → Dict WorkflowStepRecord → List String → ℕ
slots_used profiles steps [] = 0
slots_used profiles steps (id ∷ ids) = elim (get id steps) [
  | none ↦ slots_used profiles steps ids
  | some step ↦
      (if step_consumes_worker_slot profiles step.definition then 1 else 0)
      + slots_used profiles steps ids
]

module _ (profiles : RunCapabilityProfiles) (steps : Dict WorkflowStepRecord)
    (tracked : List String) where
  -- Each step is in the order, ready, without an active attempt, and compatible with the steps of
  -- `running` and with those before it.
  abbrev pub StartsTogether : List String → List StepDefinition → List String → Type 0
  StartsTogether order running [] = Unit
  StartsTogether order running (id ∷ ids) =
      (step : WorkflowStepRecord) × (get id steps ≡ some step)
      × (includes id order ≡ true)
      × (step.state ≡ ready)
      × (includes id tracked ≡ false)
      × All (Compatible step.definition) running
      × StartsTogether order (running ++ step.definition ∷ []) ids

  StartsTogether-later :
      (order : List String) (first : String) (running : List StepDefinition) (ids : List String)
      → StartsTogether order running ids
      → StartsTogether (first ∷ order) running ids
  StartsTogether-later order first running [] h = tt
  StartsTogether-later order first running (id ∷ ids) (step, e, m, r, a, c, h) =
      (step, e, ground arith, r, a, c, StartsTogether-later order first _ ids h)

  select_missing :
      (id : String) (order : List String) (held : HeldLocks) (slots : ℕ)
      → get id steps ≡ none
      → select_launchable profiles steps tracked (id ∷ order) held slots
        ≡ select_launchable profiles steps tracked order held slots
  unfolding select_launchable
  select_missing id order held slots e = ground arith

  select_skip :
      (id : String) (order : List String) (held : HeldLocks) (slots : ℕ) (step : WorkflowStepRecord)
      → get id steps ≡ some step
      → may_launch profiles tracked held slots id step ≡ false
      → select_launchable profiles steps tracked (id ∷ order) held slots
        ≡ select_launchable profiles steps tracked order held slots
  unfolding select_launchable
  select_skip id order held slots step e m = ground arith

  select_take :
      (id : String) (order : List String) (held : HeldLocks) (slots : ℕ) (step : WorkflowStepRecord)
      → get id steps ≡ some step
      → may_launch profiles tracked held slots id step ≡ true
      → select_launchable profiles steps tracked (id ∷ order) held slots
        ≡ id
          ∷ select_launchable profiles steps tracked order
              (hold_locks held step.definition)
              (slots_after profiles slots step.definition)
  unfolding select_launchable
  select_take id order held slots step e m = ground arith

  may_launch_cases :
      (held : HeldLocks) (slots : ℕ) (id : String) (step : WorkflowStepRecord)
      → may_launch profiles tracked held slots id step ≡ true
      → (step.state ≡ ready)
        × (includes id tracked ≡ false)
        × (conflicts_with_held_locks step.definition held ≡ false)
        × ((step_consumes_worker_slot profiles step.definition && eqb slots 0) ≡ false)
  unfolding may_launch
  may_launch_cases held slots id step m = ground arith

  pub select-StartsTogether :
      (order : List String) (running : List StepDefinition) (slots : ℕ)
      → StartsTogether order running
          (select_launchable profiles steps tracked order (locks_of running) slots)
  select-StartsTogether [] running slots = unfold select_launchable in tt
  select-StartsTogether (id ∷ order) running slots = elim (Option-cases (get id steps)) [
    | inl e ↦
        rw (select_missing id order (locks_of running) slots e)
          (StartsTogether-later order id running _ (select-StartsTogether order running slots))
    | inr (step, e) ↦
        elim (Bool-cases (may_launch profiles tracked (locks_of running) slots id step)) [
          | inl m ↦
              let (is_ready', untracked, free, _) =
                may_launch_cases (locks_of running) slots id step m in
              rw (select_take id order (locks_of running) slots step e m) (
                step,
                e,
                rw (beq_refl id),
                is_ready',
                untracked,
                no_conflict-Compatible step.definition running free,
                rw (hold_locks-locks_of running step.definition) (
                    StartsTogether-later order id (running ++ step.definition ∷ []) _ (
                      select-StartsTogether order (running ++ step.definition ∷ [])
                        (slots_after profiles slots step.definition))),
              )
          | inr m ↦
              rw (select_skip id order (locks_of running) slots step e m) (
                StartsTogether-later order id running _ (select-StartsTogether order running slots))
        ]
  ]

  slots_used_cons :
      (id : String) (ids : List String) (step : WorkflowStepRecord)
      → get id steps ≡ some step
      → slots_used profiles steps (id ∷ ids)
        ≡ (if step_consumes_worker_slot profiles step.definition then 1 else 0)
          + slots_used profiles steps ids
  unfolding slots_used
  slots_used_cons id ids step e = ground arith

  -- No more worker slots are taken than were available.
  pub slots_used-select :
      (order : List String) (held : HeldLocks) (slots : ℕ)
      → slots_used profiles steps (select_launchable profiles steps tracked order held slots)
        ≤ slots
  slots_used-select [] held slots = unfold slots_used select_launchable in omega arith
  slots_used-select (id ∷ order) held slots = elim (Option-cases (get id steps)) [
    | inl e ↦ rw (select_missing id order held slots e) (slots_used-select order held slots)
    | inr (step, e) ↦ elim (Bool-cases (may_launch profiles tracked held slots id step)) [
      | inl m ↦
          let (_, _, _, room) = may_launch_cases held slots id step m in
          let rest =
            slots_used-select order (hold_locks held step.definition)
              (slots_after profiles slots step.definition) in
          rw (select_take id order held slots step e m) (
            ground (
              arith,
              rest,
              room,
              slots_used_cons id
                  (select_launchable profiles steps tracked order (hold_locks held step.definition)
                    (slots_after profiles slots step.definition))
                  step e,
            ))
      | inr m ↦ rw (select_skip id order held slots step e m) (slots_used-select order held slots)
    ]
  ]

pub tracked_ids : WorkflowRunState → List String
tracked_ids state = attempt_step_ids (active_attempts state.attempts)

module _ (state : WorkflowRunState) {ids : List String}
    (selected : launchable_step_ids state ≡ ok ids) where
  pub launchable_inversion :
      (ids ≡ [])
      ⊎ ((occupied : ℕ) × (occupied_slots (reconcile_workflow_steps state) ≡ ok occupied)
          × (ids
              ≡ select_launchable state.capability_profiles
                  (reconcile_workflow_steps state).steps
                  (tracked_ids state)
                  (topological_step_ids state.plan)
                  (held_locks_of (running_records (reconcile_workflow_steps state).steps))
                  (state.max_concurrent_workers - occupied)))
  unfolding launchable_step_ids tracked_ids
  launchable_inversion = elim (Bool-cases (run_is_running state.state)) [
    | inl r ↦
        let reconciled = reconcile_workflow_steps state in
        let (occupied, e, s) =
          bound {m = occupied_slots reconciled}
            {f = (λ occupied. ok (
              select_launchable state.capability_profiles reconciled.steps (tracked_ids state)
                (topological_step_ids state.plan) (held_locks_of (running_records reconciled.steps))
                (state.max_concurrent_workers - occupied)))}
            (rw r at selected) in
        inr (occupied, e, sym (ok-injective s))
    | inr r ↦ inl (sym (ok-injective (rw r at selected)))
  ]
