-- ===== src/Domain/Run/Scheduling/Exact.antt =====
-- src/domain/scheduler.ts: each reconciled state is the one that the reconciled tasks give.
use pi_build_conductor.Prelude.{
  String, Bool, true, false, List, [], ◌∷◌, some, Dict, get, any, includes, is_distinct, All,
  All-map, ◌==◌, string_eq, eq_of_beq, beq_refl, ◌≡◌, subst, refl, sym, ap, ◌∙◌, arith, inl, inr,
  Bool-cases,
}
use pi_build_conductor.Domain.Graph.Topological.Ordered.{Follows}
use pi_build_conductor.Domain.Run.{RunTask}
use pi_build_conductor.Domain.Run.Scheduling.{
  stops_dependents, next_state, reconcile_one, reconcile_ids,
}
use pi_build_conductor.Domain.Run.Scheduling.Reconcile.{
  all_integrated, next_task, next_entry, get-reconcile_one,
}

abbrev pub has_stopped : Dict RunTask → List String → Bool
has_stopped tasks ds = any (λ id. stops_dependents (get id tasks)) ds

has_stopped-same :
    (tasks others : Dict RunTask) (ds : List String)
    → All (λ d. get d tasks ≡ get d others) ds
    → (has_stopped tasks ds ≡ has_stopped others ds)
      × (all_integrated tasks ds ≡ all_integrated others ds)
has_stopped-same tasks others [] h = (refl, refl)
has_stopped-same tasks others (d ∷ ds) h =
    let (stopped, integrated) = has_stopped-same tasks others ds h.1 in
    (rw (h.0, stopped) refl, rw (h.0, integrated) refl)

next_task-same :
    (tasks others : Dict RunTask) (run_task : RunTask)
    → All (λ d. get d tasks ≡ get d others) run_task.definition.dependencies
    → next_task tasks run_task ≡ next_task others run_task
unfolding next_state
next_task-same tasks others run_task h =
    let (stopped, integrated) = has_stopped-same tasks others run_task.definition.dependencies h in
    rw (stopped, integrated) refl

reconcile_ids-other :
    (order : List String) (tasks : Dict RunTask) (x : String)
    → includes x order ≡ false
    → get x (reconcile_ids order tasks) ≡ get x tasks
unfolding reconcile_ids
reconcile_ids-other [] tasks x h = refl
reconcile_ids-other (id ∷ order) tasks x h =
    let rest = reconcile_ids-other order (reconcile_one id tasks) x (ground arith) in
    let apart : (id == x) ≡ false = ground arith in
    rest ∙ get-reconcile_one id x tasks ∙ rw apart refl

-- Every task of the plan is stored with the plan's dependencies.
abbrev pub IsStored : (String → List String) → List String → Dict RunTask → Type 0
IsStored dependencies order tasks =
    (x : String)
    → includes x order ≡ true
    → (run_task : RunTask) × (get x tasks ≡ some run_task)
      × (run_task.definition.dependencies ≡ dependencies x)

module _ (dependencies : String → List String) where
  stored_after :
      (id : String) (order : List String) (tasks : Dict RunTask)
      → IsStored dependencies (id ∷ order) tasks
      → IsStored dependencies order (reconcile_one id tasks)
  stored_after id order tasks h x m =
      let (run_task, found, same) = h x (ground arith) in
      elim (Bool-cases (id == x)) [
        | inl q ↦ (next_task tasks run_task, rw (get-reconcile_one id x tasks, q, found) refl, same)
        | inr q ↦ (run_task, rw (get-reconcile_one id x tasks, q) found, same)
      ]

  -- The state of a reconciled task is the one that the reconciled tasks give it.
  pub get-reconcile_ids :
      (before order : List String) (tasks : Dict RunTask) (x : String)
      → Follows dependencies before order
      → is_distinct order ≡ true
      → ((y : String) → includes y before ≡ true → includes y order ≡ false)
      → IsStored dependencies order tasks
      → includes x order ≡ true
      → get x (reconcile_ids order tasks) ≡ next_entry (reconcile_ids order tasks) (get x tasks)
  unfolding reconcile_ids
  get-reconcile_ids before [] tasks x follows distinct apart stored m = absurd (cc)
  get-reconcile_ids before (id ∷ order) tasks x follows distinct apart stored m =
      let next = reconcile_one id tasks in
      let once : includes id order ≡ false = ground arith in
      elim (Bool-cases (id == x)) [
        | inr q ↦
            get-reconcile_ids (id ∷ before) order next x follows.1 (ground arith)
              (λ y b. elim (Bool-cases (id == y)) [
                | inl e ↦ rw (eq_of_beq id y e) at once
                | inr e ↦ let gone = apart y (rw e at b) in ground arith
              ])
              (stored_after id order tasks stored) (rw q at m)
            ∙ ap (next_entry (reconcile_ids order next)) (get-reconcile_one id x tasks ∙ rw q refl)
        | inl q ↦
            let (run_task, found, same) = stored id (ground (arith, beq_refl id)) in
            let kept : All (λ d. get d tasks ≡ get d (reconcile_ids order next))
                run_task.definition.dependencies =
              rw same (
                All-map _ _ (dependencies id)
                  (λ d b.
                    let gone = apart d b in
                    let other : (id == d) ≡ false = ground arith in
                    sym (
                      reconcile_ids-other order next d (ground arith)
                      ∙ get-reconcile_one id d tasks
                      ∙ rw other refl))
                  follows.0) in
            subst
              (λ z.
                get z (reconcile_ids order next)
                ≡ next_entry (reconcile_ids order next) (get z tasks))
              (eq_of_beq id x q)
              (reconcile_ids-other order next id once
                ∙ get-reconcile_one id id tasks
                ∙ rw (found, beq_refl id)
                    (ap some (next_task-same tasks (reconcile_ids order next) run_task kept)))
      ]
