-- ===== src/Domain/Run/Scheduling/Reconcile.antt =====
-- src/domain/scheduler.ts: what reconciliation does to the tasks of a run.
use pi_build_conductor.Prelude.{
  String, Bool, true, false, List, [], ◌∷◌, Option, none, some, Dict, get, get-put, any, all,
  includes, if◌then◌else◌, ◌==◌, string_eq, eq_iff, ok, ◌≡◌, ◌⊎◌, some-injective, subst, refl, sym,
  ap, ◌∙◌, arith, inl, inr, Bool-cases, Option-cases,
}
use pi_build_conductor.Domain.Types.{TaskState, TaskPlan}
use pi_build_conductor.Domain.Graph.Topological.{topological_ids}
use pi_build_conductor.Domain.TaskPlan.{task_nodes}
use pi_build_conductor.Domain.TaskPlan.Valid.{IsTaskPlan}
use pi_build_conductor.Domain.TaskPlan.Ordered.{topological_task_ids-valid}
use pi_build_conductor.Domain.Run.{RunTask, OrchestrationRun}
use pi_build_conductor.Domain.Run.Scheduling.{
  keeps_state, stops_dependents, is_integrated, next_state, reconcile_one, reconcile_ids,
  reconcile_task_states, is_ready_state, is_ready,
}

-- The plan's order, for a valid plan.
abbrev pub plan_order : TaskPlan → List String
plan_order plan = topological_ids (task_nodes plan.tasks)

-- Reconciling a run with a valid plan never throws.
pub reconcile_task_states-valid :
    (run : OrchestrationRun)
    → IsTaskPlan run.plan
    → reconcile_task_states run
      ≡ ok (record run { tasks = reconcile_ids (plan_order run.plan) run.tasks })
unfolding reconcile_task_states
reconcile_task_states-valid run h = rw (topological_task_ids-valid run.plan h) refl

abbrev pub next_task : Dict RunTask → RunTask → RunTask
next_task tasks run_task = record run_task { state = next_state run_task tasks }

abbrev pub next_entry : Dict RunTask → Option RunTask → Option RunTask
next_entry tasks none = none
next_entry tasks (some run_task) = some (next_task tasks run_task)

pub get-reconcile_one :
    (id j : String) (tasks : Dict RunTask)
    → get j (reconcile_one id tasks)
      ≡ (if id == j then next_entry tasks (get j tasks) else get j tasks)
unfolding reconcile_one
get-reconcile_one id j tasks = elim (Option-cases (get id tasks)) [
  | inl e ↦ ground (arith, eq_iff id j)
  | inr (run_task, e) ↦ ground (arith, eq_iff id j, get-put id j (next_task tasks run_task) tasks)
]

integrated_next :
    (tasks : Dict RunTask) (o : Option RunTask)
    → is_integrated (next_entry tasks o) ≡ is_integrated o
integrated_next tasks none = refl
integrated_next tasks (some run_task) = refl

integrated-reconcile_one :
    (id j : String) (tasks : Dict RunTask)
    → is_integrated (get j (reconcile_one id tasks)) ≡ is_integrated (get j tasks)
integrated-reconcile_one id j tasks =
    rw (get-reconcile_one id j tasks) (elim (Bool-cases (id == j)) [
      | inl q ↦ rw q (integrated_next tasks (get j tasks))
      | inr q ↦ rw q refl
    ])

-- Every dependency has an integrated commit.
abbrev pub all_integrated : Dict RunTask → List String → Bool
all_integrated tasks ids = all (λ id. is_integrated (get id tasks)) ids

all_integrated-reconcile_one :
    (id : String) (tasks : Dict RunTask) (ids : List String)
    → all_integrated (reconcile_one id tasks) ids ≡ all_integrated tasks ids
all_integrated-reconcile_one id tasks [] = refl
all_integrated-reconcile_one id tasks (j ∷ ids) =
    rw (integrated-reconcile_one id j tasks, all_integrated-reconcile_one id tasks ids) refl

all_integrated-reconcile_ids :
    (order : List String) (tasks : Dict RunTask) (ids : List String)
    → all_integrated (reconcile_ids order tasks) ids ≡ all_integrated tasks ids
unfolding reconcile_ids
all_integrated-reconcile_ids [] tasks ids = refl
all_integrated-reconcile_ids (id ∷ order) tasks ids =
    all_integrated-reconcile_ids order (reconcile_one id tasks) ids
    ∙ all_integrated-reconcile_one id tasks ids

-- A task is ready only if its dependencies are integrated.
abbrev ReadyIsIntegrated : Dict RunTask → String → Type 0
ReadyIsIntegrated tasks id =
    (run_task : RunTask)
    → get id tasks ≡ some run_task
    → is_ready (some run_task) ≡ true
    → all_integrated tasks run_task.definition.dependencies ≡ true

keeps_not_ready : (state : TaskState) → keeps_state state ≡ true → is_ready_state state ≡ false
unfolding keeps_state
keeps_not_ready TaskState.planned h = refl
keeps_not_ready TaskState.ready h = absurd (cc)
keeps_not_ready TaskState.running h = refl
keeps_not_ready TaskState.validating h = refl
keeps_not_ready TaskState.succeeded h = refl
keeps_not_ready TaskState.failed h = refl
keeps_not_ready TaskState.blocked h = refl
keeps_not_ready TaskState.cancelled h = refl

next_state_ready :
    (run_task : RunTask) (tasks : Dict RunTask)
    → is_ready (some (next_task tasks run_task)) ≡ true
    → (keeps_state run_task.state ≡ false)
      × (all_integrated tasks run_task.definition.dependencies ≡ true)
unfolding next_state
next_state_ready run_task tasks h = elim (Bool-cases (keeps_state run_task.state)) [
  | inl q ↦ absurd (cc (keeps_not_ready run_task.state q, rw (q, next_state) at h))
  | inr q ↦
      elim (Bool-cases
        (any (λ id. stops_dependents (get id tasks)) run_task.definition.dependencies)) [
          | inl p ↦ absurd (cc (rw (q, p, next_state) at h))
          | inr p ↦ elim (Bool-cases (all_integrated tasks run_task.definition.dependencies)) [
            | inl r ↦ (q, r)
            | inr r ↦ absurd (cc (rw (q, p, r, next_state) at h))
          ]
        ]
]

reconcile_one-ReadyIsIntegrated :
    (id j : String) (tasks : Dict RunTask)
    → ((id == j) ≡ true) ⊎ ReadyIsIntegrated tasks j
    → ReadyIsIntegrated (reconcile_one id tasks) j
reconcile_one-ReadyIsIntegrated id j tasks h run_task found ready_now =
    all_integrated-reconcile_one id tasks run_task.definition.dependencies
    ∙ elim (Bool-cases (id == j)) [
      | inl q ↦ elim (Option-cases (get j tasks)) [
        | inl e ↦ absurd (cc (rw (get-reconcile_one id j tasks, q, e) at found))
        | inr (old, e) ↦
            let same : next_task tasks old ≡ run_task =
              some-injective (rw (get-reconcile_one id j tasks, q, e) at found) in
            subst
              (λ (t : RunTask).
                is_ready (some t) ≡ true → all_integrated tasks t.definition.dependencies ≡ true)
              same (λ r. (next_state_ready old tasks r).1) ready_now
      ]
      | inr q ↦ elim h [
        | inl p ↦ absurd (cc)
        | inr rest ↦ rest run_task (rw (get-reconcile_one id j tasks, q) at found) ready_now
      ]
    ]

reconcile_ids-ReadyIsIntegrated :
    (order : List String) (tasks : Dict RunTask) (j : String)
    → (includes j order ≡ true) ⊎ ReadyIsIntegrated tasks j
    → ReadyIsIntegrated (reconcile_ids order tasks) j
unfolding reconcile_ids
reconcile_ids-ReadyIsIntegrated [] tasks j h = elim h [ inl p ↦ absurd (cc) | inr rest ↦ rest ]
reconcile_ids-ReadyIsIntegrated (id ∷ order) tasks j h =
    reconcile_ids-ReadyIsIntegrated order (reconcile_one id tasks) j (elim (Bool-cases (id == j)) [
      | inl q ↦ inr (reconcile_one-ReadyIsIntegrated id j tasks (inl q))
      | inr q ↦ elim h [
        | inl p ↦ inl (rw q at p)
        | inr rest ↦ inr (reconcile_one-ReadyIsIntegrated id j tasks (inr rest))
      ]
    ])

-- What a reconciled task keeps of the stored one.
abbrev pub Continues : RunTask → RunTask → Type 0
Continues old new =
    (new.definition ≡ old.definition)
    × (keeps_state new.state ≡ false → keeps_state old.state ≡ false)

next_task-Continues : (old : RunTask) (tasks : Dict RunTask) → Continues old (next_task tasks old)
unfolding next_state
next_task-Continues old tasks = elim (Bool-cases (keeps_state old.state)) [
  | inl q ↦
      let same : next_state old tasks ≡ old.state = rw (q, next_state) refl in
      (refl, λ h. sym (ap keeps_state same) ∙ h)
  | inr q ↦ (refl, λ h. q)
]

reconcile_one-Continues :
    (id j : String) (tasks : Dict RunTask) (new : RunTask)
    → get j (reconcile_one id tasks) ≡ some new
    → (old : RunTask) × (get j tasks ≡ some old) × Continues old new
reconcile_one-Continues id j tasks new found = elim (Bool-cases (id == j)) [
  | inl q ↦ elim (Option-cases (get j tasks)) [
    | inl e ↦ absurd (cc (rw (get-reconcile_one id j tasks, q, e) at found))
    | inr (old, e) ↦
        let same : next_task tasks old ≡ new =
          some-injective (rw (get-reconcile_one id j tasks, q, e) at found) in
        (old, e, subst (Continues old) same (next_task-Continues old tasks))
  ]
  | inr q ↦ (new, rw (get-reconcile_one id j tasks, q) at found, (refl, λ h. h))
]

reconcile_ids-Continues :
    (order : List String) (tasks : Dict RunTask) (j : String) (new : RunTask)
    → get j (reconcile_ids order tasks) ≡ some new
    → (old : RunTask) × (get j tasks ≡ some old) × Continues old new
unfolding reconcile_ids
reconcile_ids-Continues [] tasks j new found = (new, found, (refl, λ h. h))
reconcile_ids-Continues (id ∷ order) tasks j new found =
    let (middle, e, (same, keeps)) =
      reconcile_ids-Continues order (reconcile_one id tasks) j new found in
    let (old, e', (same', keeps')) = reconcile_one-Continues id j tasks middle e in
    (old, e', (same ∙ same', λ h. keeps' (keeps h)))

ready_not_kept : (state : TaskState) → is_ready_state state ≡ true → keeps_state state ≡ false
unfolding keeps_state
ready_not_kept state h = elim (Bool-cases (keeps_state state)) [
  | inl q ↦ absurd (cc (keeps_not_ready state q))
  | inr q ↦ q
]

-- A stored task that has not started and whose dependencies are integrated.
abbrev pub MayStart : OrchestrationRun → String → Type 0
MayStart run id =
    (run_task : RunTask) × (get id run.tasks ≡ some run_task)
    × (keeps_state run_task.state ≡ false)
    × (all_integrated run.tasks run_task.definition.dependencies ≡ true)

pub ready-MayStart :
    (order : List String) (run : OrchestrationRun) (id : String)
    → includes id order ≡ true
    → is_ready (get id (reconcile_ids order run.tasks)) ≡ true
    → MayStart run id
ready-MayStart order run id ordered h =
    elim (Option-cases (get id (reconcile_ids order run.tasks))) [
      | inl e ↦ absurd (cc (rw e at h))
      | inr (new, e) ↦
          let (old, found, (same, keeps)) = reconcile_ids-Continues order run.tasks id new e in
          let integrated =
            reconcile_ids-ReadyIsIntegrated order run.tasks id (inl ordered) new e (rw e at h) in
          (
            old,
            found,
            keeps (ready_not_kept new.state (rw e at h)),
            rw same at (
                sym (all_integrated-reconcile_ids order run.tasks new.definition.dependencies)
                ∙ integrated),
          )
    ]
