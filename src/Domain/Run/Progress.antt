-- ===== src/Domain/Run/Progress.antt =====
-- src/domain/scheduler.ts: a run with nothing under way is finished, or a task may start.
use pi_build_conductor.Prelude.{
  ℕ, zero, suc, ◌<◌, String, Bool, true, false, not, ◌&&◌, ◌||◌, List, [], ◌∷◌, some, Dict, get,
  take, filter, eqb, includes, includes-filter, is_truthy, All, All-map, ◌==◌, string_eq, eq_of_beq,
  beq_refl, ok, ok-injective, ◌≡◌, subst, refl, sym, ap, ◌∙◌, arith, inl, inr, Bool-cases,
}
use pi_build_conductor.Domain.Types.{TaskState}
use pi_build_conductor.Domain.Graph.Topological.Dependents.{dependencies_of}
use pi_build_conductor.Domain.Graph.Topological.Ordered.{Follows}
use pi_build_conductor.Domain.Graph.Topological.Complete.{topological_ids-IsOrder}
use pi_build_conductor.Domain.TaskPlan.{task_nodes, task_ids}
use pi_build_conductor.Domain.TaskPlan.Valid.{IsTaskPlan}
use pi_build_conductor.Domain.TaskPlan.Ordered.{
  topological_task_ids-valid, task_nodes-IsGraph, ids-task_nodes,
}
use pi_build_conductor.Domain.Run.{RunTask, OrchestrationRun}
use pi_build_conductor.Domain.Run.Recovery.{any_under_way}
use pi_build_conductor.Domain.Run.Recovered.{under_way_of_get, any_under_way-reconcile_ids}
use pi_build_conductor.Domain.Run.Scheduling.{
  keeps_state, is_terminal_failure, is_under_way, next_state, reconcile_ids, is_ready,
  reconcile_task_states, active_attempts, untracked_running, available_slots, run_is_running,
  launchable_of, launchable_task_ids,
}
use pi_build_conductor.Domain.Run.Scheduling.Reconcile.{
  plan_order, reconcile_task_states-valid, all_integrated, next_task, next_entry,
}
use pi_build_conductor.Domain.Run.Scheduling.Exact.{has_stopped, IsStored, get-reconcile_ids}

abbrev pub is_succeeded : TaskState → Bool
is_succeeded TaskState.succeeded = true
is_succeeded _ = false

-- A task that needs nothing more: it succeeded and is integrated, or it will not run any more.
abbrev pub is_finished : RunTask → Bool
is_finished run_task =
    is_terminal_failure run_task.state
    || (is_succeeded run_task.state && is_truthy run_task.integrated_commit)

abbrev pub IsFinished : Dict RunTask → String → Type 0
IsFinished tasks id =
    (run_task : RunTask) × (get id tasks ≡ some run_task) × (is_finished run_task ≡ true)

-- Every task that succeeded has been integrated.
abbrev pub IsIntegrated : Dict RunTask → Type 0
IsIntegrated tasks =
    (id : String) (run_task : RunTask)
    → get id tasks ≡ some run_task
    → is_succeeded run_task.state ≡ true
    → is_truthy run_task.integrated_commit ≡ true

kept_finished :
    (state : TaskState) (integrated : Bool)
    → keeps_state state ≡ true
    → is_under_way state ≡ false
    → (is_succeeded state ≡ true → integrated ≡ true)
    → (is_terminal_failure state || (is_succeeded state && integrated)) ≡ true
unfolding keeps_state is_under_way is_terminal_failure
kept_finished TaskState.planned integrated kept idle done = absurd (cc)
kept_finished TaskState.ready integrated kept idle done = absurd (cc)
kept_finished TaskState.running integrated kept idle done = absurd (cc)
kept_finished TaskState.validating integrated kept idle done = absurd (cc)
kept_finished TaskState.succeeded integrated kept idle done = done refl
kept_finished TaskState.failed integrated kept idle done = refl
kept_finished TaskState.blocked integrated kept idle done = refl
kept_finished TaskState.cancelled integrated kept idle done = refl

-- Finished tasks of which none failed are integrated.
finished_integrated :
    (tasks : Dict RunTask) (ds : List String)
    → All (IsFinished tasks) ds
    → has_stopped tasks ds ≡ false
    → all_integrated tasks ds ≡ true
finished_integrated tasks [] h unstopped = refl
finished_integrated tasks (d ∷ ds) ((run_task, found, finished), h) unstopped =
    let first : (is_terminal_failure run_task.state || has_stopped tasks ds) ≡ false =
      rw found at unstopped in
    let rest = finished_integrated tasks ds h (ground arith) in rw (found, rest) (ground arith)

task-IsFinished :
    (tasks : Dict RunTask) (old : RunTask) (id : String)
    → get id tasks ≡ some (next_task tasks old)
    → is_under_way old.state ≡ false
    → (is_succeeded old.state ≡ true → is_truthy old.integrated_commit ≡ true)
    → is_ready (get id tasks) ≡ false
    → All (IsFinished tasks) old.definition.dependencies
    → IsFinished tasks id
unfolding next_state is_terminal_failure
task-IsFinished tasks old id found idle integrated waiting finished = (
  next_task tasks old,
  found,
  elim (Bool-cases (keeps_state old.state)) [
    | inl q ↦ rw q (kept_finished old.state (is_truthy old.integrated_commit) q idle integrated)
    | inr q ↦ elim (Bool-cases (has_stopped tasks old.definition.dependencies)) [
      | inl p ↦ rw (q, p) refl
      | inr p ↦
          let all_done = finished_integrated tasks old.definition.dependencies finished p in
          absurd (cc (rw (found, q, p, all_done, next_state) at waiting))
    ]
  ],
)

all-IsFinished :
    (dependencies : String → List String) (tasks : Dict RunTask) (before order : List String)
    → Follows dependencies before order
    → ((y : String) → includes y before ≡ true → IsFinished tasks y)
    → ((y : String)
        → includes y order ≡ true
        → All (IsFinished tasks) (dependencies y)
        → IsFinished tasks y)
    → (x : String) → includes x order ≡ true
    → IsFinished tasks x
all-IsFinished dependencies tasks before [] follows done each x m = absurd (cc)
all-IsFinished dependencies tasks before (id ∷ order) follows done each x m =
    let first =
      each id (ground (arith, beq_refl id))
        (All-map _ (IsFinished tasks) (dependencies id) (λ d b. done d b) follows.0) in
    elim (Bool-cases (id == x)) [
      | inl q ↦ subst (IsFinished tasks) (eq_of_beq id x q) first
      | inr q ↦
          all-IsFinished dependencies tasks (id ∷ before) order follows.1
            (λ y b. elim (Bool-cases (id == y)) [
              | inl e ↦ subst (IsFinished tasks) (eq_of_beq id y e) first
              | inr e ↦ done y (rw e at b)
            ])
            (λ y k ds. each y (ground arith) ds) x (rw q at m)
    ]

untracked_running-none :
    (tasks : Dict RunTask) → any_under_way tasks ≡ false → untracked_running [] tasks ≡ []
unfolding untracked_running
untracked_running-none [] h = refl
untracked_running-none ((id, run_task) ∷ tasks) h =
    let first : is_under_way run_task.state ≡ false = ground arith in
    rw (first, untracked_running-none tasks (ground arith)) refl

take-none : {A : Type 0} (n : ℕ) (xs : List A) → 0 < n → take n xs ≡ [] → xs ≡ []
take-none zero xs h e = absurd (omega arith)
take-none (suc n) [] h e = refl
take-none (suc n) (x ∷ xs) h e = absurd (cc)

-- A selection that returns nothing has no ready task to return.
nothing_ready :
    (run : OrchestrationRun) (order : List String)
    → active_attempts run.attempts ≡ []
    → any_under_way run.tasks ≡ false
    → 0 < run.max_concurrent_workers
    → launchable_of run order ≡ []
    → (x : String) → includes x order ≡ true
    → is_ready (get x run.tasks) ≡ false
unfolding launchable_of available_slots
nothing_ready run order idle settled workers h x m =
    let quiet = untracked_running-none run.tasks settled in
    let slots : available_slots run ≡ run.max_concurrent_workers =
      rw (idle, quiet, available_slots) (omega arith) in
    let positive : eqb run.max_concurrent_workers 0 ≡ false = ground arith in
    let picked = filter (λ id. is_ready (get id run.tasks) && not (includes id [])) order in
    let none_picked : take run.max_concurrent_workers picked ≡ [] =
      rw (slots, positive, idle, launchable_of) at h in
    let nothing =
      ap (includes x) (take-none run.max_concurrent_workers picked workers none_picked) in
    let chosen =
      includes-filter x (λ id. is_ready (get id run.tasks) && not (includes id [])) order in
    ground arith

abbrev pub reconciled_tasks : OrchestrationRun → Dict RunTask
reconciled_tasks run = reconcile_ids (plan_order run.plan) run.tasks

-- A run whose tasks are those of its plan, with nothing under way and nothing left to integrate.
pub record IsIdle (run : OrchestrationRun) : Type 0 where
  pub plan : IsTaskPlan run.plan
  pub running : run_is_running run.state ≡ true
  pub workers : 0 < run.max_concurrent_workers
  pub stored :
      IsStored (dependencies_of (task_nodes run.plan.tasks)) (plan_order run.plan) run.tasks
  pub attempts : active_attempts run.attempts ≡ []
  pub tasks : any_under_way run.tasks ≡ false
  pub integrated : IsIntegrated run.tasks

nothing_launchable-IsFinished :
    (run : OrchestrationRun)
    → IsIdle run
    → launchable_task_ids run ≡ ok []
    → (x : String) → includes x (task_ids run.plan.tasks) ≡ true
    → IsFinished (reconciled_tasks run) x
unfolding launchable_task_ids
nothing_launchable-IsFinished run h e x m =
    let nodes = task_nodes run.plan.tasks in
    let order = plan_order run.plan in
    let sorted =
      topological_ids-IsOrder nodes (task_nodes-IsGraph run.plan h.plan) h.plan.acyclic in
    let nothing : launchable_of (record run { tasks = reconciled_tasks run }) order ≡ [] =
      ok-injective (
        rw
          (
            h.running,
            reconcile_task_states-valid run h.plan,
            topological_task_ids-valid run.plan h.plan,
            launchable_task_ids,
          )
          at e) in
    all-IsFinished (dependencies_of nodes) (reconciled_tasks run) [] order sorted.follows
      (λ y k. absurd (cc))
      (λ y k finished.
        let (old, found, same) = h.stored y k in
        task-IsFinished (reconciled_tasks run) old y
          (get-reconcile_ids (dependencies_of nodes) [] order run.tasks y sorted.follows sorted.once
              (λ z b. absurd (cc)) h.stored k
            ∙ ap (next_entry (reconciled_tasks run)) found)
          (under_way_of_get y run.tasks old h.tasks found) (h.integrated y old found)
          (nothing_ready (record run { tasks = reconciled_tasks run }) order h.attempts
            (any_under_way-reconcile_ids order run.tasks h.tasks) h.workers nothing y k)
          (rw same finished))
      x (sorted.exact x ∙ rw (ids-task_nodes run.plan.tasks) m)

-- If a running run with a well-formed plan stores the plan's tasks, has worker slots, no active
-- attempt, no task under way and no succeeded task that is not integrated, and the selection
-- returns nothing, then in the run that reconciling its task states returns, every task of the
-- plan has succeeded and been integrated, or has failed, is blocked or was cancelled. (The
-- selection reconciles too and does not store it: in the run itself a task may still be planned.)
pub launchable_task_ids-IsFinished :
    (run next : OrchestrationRun)
    → IsIdle run
    → launchable_task_ids run ≡ ok []
    → reconcile_task_states run ≡ ok next
    → (x : String) → includes x (task_ids run.plan.tasks) ≡ true
    → IsFinished next.tasks x
launchable_task_ids-IsFinished run next h e r x m =
    let same = ok-injective (sym (reconcile_task_states-valid run h.plan) ∙ r) in
    subst (λ (n : OrchestrationRun). IsFinished n.tasks x) same
      (nothing_launchable-IsFinished run h e x m)
