-- ===== src/Domain/Run/Recovered.antt =====
-- src/domain/run.ts: what recovering an interrupted run leaves behind.
use pi_build_conductor.Prelude.{
  String, false, List, [], ◌∷◌, some, Dict, get, put, any, all, ◌==◌, string_eq, ok, ◌≡◌, refl,
  arith, inl, inr, Bool-cases, Option-cases, some-injective, subst,
}
use pi_build_conductor.Domain.Types.{is_active_attempt_state}
use pi_build_conductor.Domain.TaskPlan.Valid.{IsTaskPlan}
use pi_build_conductor.Domain.Run.{
  RunTask, TaskAttempt, ReviewAttempt, RepairAttempt, FinalValidationAttempt, OrchestrationRun,
}
use pi_build_conductor.Domain.Run.Scheduling.{
  keeps_state, stops_dependents, is_integrated, next_state, reconcile_one, reconcile_ids,
  is_under_way,
}
use pi_build_conductor.Domain.Run.Scheduling.Reconcile.{plan_order, reconcile_task_states-valid}
use pi_build_conductor.Domain.Run.Recovery.{
  interrupt_attempts, interrupt_reviews, interrupt_repairs, interrupt_validations, reset_tasks,
  any_active, attempt_states, review_states, repair_states, any_validating, any_under_way,
  is_interrupted_run, recover_interrupted_run, recovered_state,
}

any_active-interrupt_attempts :
    (now : String) (attempts : List TaskAttempt)
    → any_active (attempt_states (interrupt_attempts now attempts)) ≡ false
unfolding interrupt_attempts is_active_attempt_state
any_active-interrupt_attempts now [] = refl
any_active-interrupt_attempts now (attempt ∷ attempts) =
    elim (Bool-cases (is_active_attempt_state attempt.state)) [
      | inl q ↦ rw q (any_active-interrupt_attempts now attempts)
      | inr q ↦ rw q (rw q (any_active-interrupt_attempts now attempts))
    ]

any_active-interrupt_reviews :
    (now : String) (attempts : List ReviewAttempt)
    → any_active (review_states (interrupt_reviews now attempts)) ≡ false
unfolding interrupt_reviews is_active_attempt_state
any_active-interrupt_reviews now [] = refl
any_active-interrupt_reviews now (attempt ∷ attempts) =
    elim (Bool-cases (is_active_attempt_state attempt.state)) [
      | inl q ↦ rw q (any_active-interrupt_reviews now attempts)
      | inr q ↦ rw q (rw q (any_active-interrupt_reviews now attempts))
    ]

any_active-interrupt_repairs :
    (now : String) (attempts : List RepairAttempt)
    → any_active (repair_states (interrupt_repairs now attempts)) ≡ false
unfolding interrupt_repairs is_active_attempt_state
any_active-interrupt_repairs now [] = refl
any_active-interrupt_repairs now (attempt ∷ attempts) =
    elim (Bool-cases (is_active_attempt_state attempt.state)) [
      | inl q ↦ rw q (any_active-interrupt_repairs now attempts)
      | inr q ↦ rw q (rw q (any_active-interrupt_repairs now attempts))
    ]

any_validating-interrupt_validations :
    (now : String) (attempts : List FinalValidationAttempt)
    → any_validating (interrupt_validations now attempts) ≡ false
unfolding interrupt_validations
any_validating-interrupt_validations now [] = refl
any_validating-interrupt_validations now (attempt ∷ attempts) =
    ground (arith, any_validating-interrupt_validations now attempts)

any_under_way-reset_tasks : (tasks : Dict RunTask) → any_under_way (reset_tasks tasks) ≡ false
unfolding reset_tasks is_under_way
any_under_way-reset_tasks [] = refl
any_under_way-reset_tasks ((id, run_task) ∷ tasks) =
    elim (Bool-cases (is_under_way run_task.state)) [
      | inl q ↦ rw q (any_under_way-reset_tasks tasks)
      | inr q ↦ rw q (rw q (any_under_way-reset_tasks tasks))
    ]

pub under_way_of_get :
    (id : String) (tasks : Dict RunTask) (run_task : RunTask)
    → any_under_way tasks ≡ false
    → get id tasks ≡ some run_task
    → is_under_way run_task.state ≡ false
under_way_of_get id [] run_task h found = absurd (cc)
under_way_of_get id ((other, first) ∷ tasks) run_task h found = elim (Bool-cases (other == id)) [
  | inl q ↦
      let same : first ≡ run_task = some-injective (rw q at found) in
      subst (λ (t : RunTask). is_under_way t.state ≡ false) same (ground arith)
  | inr q ↦ under_way_of_get id tasks run_task (ground arith) (rw q at found)
]

any_under_way-put :
    (id : String) (tasks : Dict RunTask) (run_task : RunTask)
    → any_under_way tasks ≡ false
    → is_under_way run_task.state ≡ false
    → any_under_way (put id run_task tasks) ≡ false
any_under_way-put id [] run_task h k = rw k refl
any_under_way-put id ((other, first) ∷ tasks) run_task h k = elim (Bool-cases (other == id)) [
  | inl q ↦ rw q (ground arith)
  | inr q ↦ rw q (ground (arith, any_under_way-put id tasks run_task))
]

next_state_not_under_way :
    (run_task : RunTask) (tasks : Dict RunTask)
    → is_under_way run_task.state ≡ false
    → is_under_way (next_state run_task tasks) ≡ false
unfolding next_state is_under_way
next_state_not_under_way run_task tasks h = elim (Bool-cases (keeps_state run_task.state)) [
  | inl q ↦ rw q h
  | inr q ↦
      rw q
        (elim (Bool-cases
          (any (λ id. stops_dependents (get id tasks)) run_task.definition.dependencies)) [
            | inl p ↦ rw p refl
            | inr p ↦
                elim (Bool-cases
                  (all (λ id. is_integrated (get id tasks)) run_task.definition.dependencies)) [
                    | inl r ↦ rw (p, r) refl
                    | inr r ↦ rw (p, r) refl
                  ]
          ])
]

pub any_under_way-reconcile_ids :
    (order : List String) (tasks : Dict RunTask)
    → any_under_way tasks ≡ false
    → any_under_way (reconcile_ids order tasks) ≡ false
unfolding reconcile_ids
any_under_way-reconcile_ids [] tasks h = h
any_under_way-reconcile_ids (id ∷ order) tasks h =
    any_under_way-reconcile_ids order (reconcile_one id tasks) (elim (Option-cases (get id tasks)) [
      | inl q ↦ rw (q, reconcile_one) h
      | inr (run_task, q) ↦
          rw (q, reconcile_one)
            (any_under_way-put id tasks (record run_task { state = next_state run_task tasks }) h
              (next_state_not_under_way run_task tasks (under_way_of_get id tasks run_task h q)))
    ])

-- The transaction of a run that was interrupted, before reconciliation.
abbrev pub recovered : OrchestrationRun → String → OrchestrationRun
recovered run now = record run {
  state = recovered_state run.state;
  attempts = interrupt_attempts now run.attempts;
  review_attempts = interrupt_reviews now run.review_attempts;
  repair_attempts = interrupt_repairs now run.repair_attempts;
  blocked_workers = [];
  final_validation_attempts = interrupt_validations now run.final_validation_attempts;
  tasks = reset_tasks run.tasks;
  updated_at = now;
}

recovered_is_settled :
    (run : OrchestrationRun) (now : String) (order : List String)
    → is_interrupted_run
        (record (recovered run now) { tasks = reconcile_ids order (reset_tasks run.tasks) })
      ≡ false
unfolding is_interrupted_run
recovered_is_settled run now order =
    rw
      (
        any_active-interrupt_attempts now run.attempts,
        any_active-interrupt_reviews now run.review_attempts,
        any_active-interrupt_repairs now run.repair_attempts,
        any_validating-interrupt_validations now run.final_validation_attempts,
        any_under_way-reconcile_ids order (reset_tasks run.tasks)
            (any_under_way-reset_tasks run.tasks),
      )
      refl

settled_stays :
    (run : OrchestrationRun) (now : String)
    → is_interrupted_run run ≡ false
    → recover_interrupted_run run now ≡ ok run
unfolding recover_interrupted_run
settled_stays run now h = rw (h, recover_interrupted_run) refl

-- If the plan of a run is well formed, recovery returns a run in which nothing is interrupted: no
-- attempt, review, repair, final validation or task is under way and no worker is blocked;
-- recovering it again changes nothing, and the plan and its revisions are kept.
pub recover_interrupted_run-settles :
    (run : OrchestrationRun) (now : String)
    → IsTaskPlan run.plan
    → (last : OrchestrationRun) × (recover_interrupted_run run now ≡ ok last)
      × (is_interrupted_run last ≡ false)
      × ((later : String) → recover_interrupted_run last later ≡ ok last)
      × (last.plan ≡ run.plan)
      × (last.plan_revisions ≡ run.plan_revisions)
unfolding recover_interrupted_run
recover_interrupted_run-settles run now valid = elim (Bool-cases (is_interrupted_run run)) [
  | inr q ↦ (run, settled_stays run now q, q, λ later. settled_stays run later q, refl, refl)
  | inl q ↦
      let order = plan_order run.plan in
      let settled = recovered_is_settled run now order in
      (
        record (recovered run now) { tasks = reconcile_ids order (reset_tasks run.tasks) },
        rw (q, reconcile_task_states-valid (recovered run now) valid, recover_interrupted_run) refl,
        settled,
        λ later. settled_stays _ later settled,
        refl,
        refl,
      )
]
