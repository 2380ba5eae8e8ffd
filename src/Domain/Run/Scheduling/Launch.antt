-- ===== src/Domain/Run/Scheduling/Launch.antt =====
-- src/domain/scheduler.ts: the tasks that `getLaunchableTaskIds` selects.
use pi_build_conductor.Prelude.{
  ℕ, zero, suc, ◌+◌, ◌≤◌, String, Bool, true, false, not, ◌&&◌, List, [], ◌∷◌, get, All, All-of,
  All-map, includes, includes-filter, filter, take, length, eqb, string_eq, ok, ◌≡◌, ◌⊎◌, refl,
  arith, inl, inr, Bool-cases,
}
use pi_build_conductor.Domain.TaskPlan.Valid.{IsTaskPlan}
use pi_build_conductor.Domain.TaskPlan.Ordered.{topological_task_ids-valid}
use pi_build_conductor.Domain.Run.{OrchestrationRun}
use pi_build_conductor.Domain.Run.Scheduling.{
  reconcile_ids, active_attempts, attempt_task_ids, untracked_running, is_ready, run_is_running,
  available_slots, launchable_of, launchable_task_ids,
}
use pi_build_conductor.Domain.Run.Scheduling.Reconcile.{
  plan_order, MayStart, reconcile_task_states-valid, ready-MayStart,
}

module _ {A : Type 0} where
  length-take-le : (n : ℕ) (xs : List A) → length (take n xs) ≤ n
  length-take-le zero xs = omega arith
  length-take-le (suc n) [] = omega arith
  length-take-le (suc n) (x ∷ xs) = omega (arith, length-take-le n xs)

  All-take : (P : A → Type 0) (n : ℕ) (xs : List A) → All P xs → All P (take n xs)
  All-take P zero xs h = tt
  All-take P (suc n) [] h = tt
  All-take P (suc n) (x ∷ xs) h = (h.0, All-take P n xs h.1)

abbrev pub tracked : OrchestrationRun → List String
tracked run = attempt_task_ids (active_attempts run.attempts)

abbrev pub reconciled : OrchestrationRun → OrchestrationRun
reconciled run = record run { tasks = reconcile_ids (plan_order run.plan) run.tasks }

-- The workers in use: the active attempts and the running tasks that none of them tracks.
abbrev pub used_workers : OrchestrationRun → ℕ
used_workers run =
    length (active_attempts run.attempts) + length (untracked_running (tracked run) run.tasks)

pub record IsLaunch (run : OrchestrationRun) (ids : List String) : Type 0 where
  pub running : (ids ≡ []) ⊎ (run_is_running run.state ≡ true)
  pub startable : All (MayStart run) ids
  pub planned : All (λ id. includes id (plan_order run.plan) ≡ true) ids
  pub idle : All (λ id. includes id (tracked run) ≡ false) ids
  pub slots : (ids ≡ []) ⊎ (length ids + used_workers (reconciled run) ≤ run.max_concurrent_workers)

no-IsLaunch : (run : OrchestrationRun) → IsLaunch run []
no-IsLaunch run = record {
  running = inl refl;
  startable = tt;
  planned = tt;
  idle = tt;
  slots = inl refl;
}

abbrev may_launch : OrchestrationRun → String → Bool
may_launch run id = is_ready (get id (reconciled run).tasks) && not (includes id (tracked run))

chosen :
    (run : OrchestrationRun)
    → All
        (λ id.
          MayStart run id
          × (includes id (plan_order run.plan) ≡ true)
          × (includes id (tracked run) ≡ false))
        (filter (may_launch run) (plan_order run.plan))
chosen run = All-of _ _ λ id m.
    let both = includes-filter id (may_launch run) (plan_order run.plan) in
    let ordered : includes id (plan_order run.plan) ≡ true = ground arith in
    let ready_now : is_ready (get id (reconciled run).tasks) ≡ true = ground arith in
    (ready-MayStart (plan_order run.plan) run id ordered ready_now, ordered, ground arith)

fits_slots :
    (run : OrchestrationRun) (xs : List String)
    → eqb (available_slots run) 0 ≡ false
    → length (take (available_slots run) xs) + used_workers run ≤ run.max_concurrent_workers
unfolding available_slots
fits_slots run xs h = let short = length-take-le (available_slots run) xs in ground arith

launchable_of-IsLaunch :
    (run : OrchestrationRun)
    → run_is_running run.state ≡ true
    → IsLaunch run (launchable_of (reconciled run) (plan_order run.plan))
unfolding launchable_of
launchable_of-IsLaunch run running = elim (Bool-cases (eqb (available_slots (reconciled run)) 0)) [
  | inl q ↦ rw (q, launchable_of) (no-IsLaunch run)
  | inr q ↦
      let slots = available_slots (reconciled run) in
      let picked = filter (may_launch run) (plan_order run.plan) in
      let each = All-take _ slots picked (chosen run) in
      rw (q, launchable_of)
        (record {
          running = inr running;
          startable = All-map _ (MayStart run) (take slots picked) (λ id h. h.0) each;
          planned = All-map _ _ (take slots picked) (λ id h. h.1) each;
          idle = All-map _ _ (take slots picked) (λ id h. h.2) each;
          slots = inr (fits_slots (reconciled run) picked q);
        })
]

-- If the plan of a run is well formed, the selection returns ids: none unless the run is running;
-- each a task of the plan without an active attempt, neither under way nor finished, and with
-- every dependency integrated; and, together with the workers in use, not more than the worker
-- limit.
pub launchable_task_ids-IsLaunch :
    (run : OrchestrationRun)
    → IsTaskPlan run.plan
    → (ids : List String) × (launchable_task_ids run ≡ ok ids) × IsLaunch run ids
unfolding launchable_task_ids
launchable_task_ids-IsLaunch run valid = elim (Bool-cases (run_is_running run.state)) [
  | inr q ↦ ([], rw q refl, no-IsLaunch run)
  | inl q ↦ (
    launchable_of (reconciled run) (plan_order run.plan),
    rw (q, reconcile_task_states-valid run valid, topological_task_ids-valid run.plan valid) refl,
    launchable_of-IsLaunch run q,
  )
]
