-- ===== src/Examples/Stopping.antt =====
-- A run in which a task failed: the task that depends on it is blocked, and nothing may start.
use pi_build_conductor.Prelude.{
  false, [], ◌∷◌, some, get, All-includes, Bool-cases, inl, inr, ok, ◌≡◌, refl, subst,
  some-injective, arith, ◌==◌, string_eq,
}
use pi_build_conductor.Domain.Types.{TaskState}
use pi_build_conductor.Domain.Graph.Cycle.{dependency_map}
use pi_build_conductor.Domain.Graph.Topological.{topological_ids}
use pi_build_conductor.Domain.Graph.Topological.Dependents.{dependencies_of}
use pi_build_conductor.Domain.TaskPlan.{task_nodes}
use pi_build_conductor.Domain.TaskPlan.Ordered.{topological_task_ids-valid}
use pi_build_conductor.Domain.Run.{RunState, RunTask, OrchestrationRun}
use pi_build_conductor.Domain.Run.Scheduling.{
  is_under_way, reconcile_ids, launchable_of, launchable_task_ids,
}
use pi_build_conductor.Domain.Run.Scheduling.Reconcile.{plan_order, reconcile_task_states-valid}
use pi_build_conductor.Domain.Run.Scheduling.Exact.{IsStored}
use pi_build_conductor.Domain.Run.Progress.{
  IsIdle, IsIntegrated, IsFinished, is_succeeded, reconciled_tasks, launchable_task_ids-IsFinished,
}
use pi_build_conductor.Examples.TaskPlans.{api, ui, two_tasks, two_tasks-IsTaskPlan}
use pi_build_conductor.Examples.TaskRuns.{new_task, new_run}

abbrev failed_run : OrchestrationRun
failed_run = record new_run {
  state = RunState.running;
  tasks = ("ui", new_task ui TaskState.planned) ∷ ("api", new_task api TaskState.failed) ∷ [];
}

stored :
    IsStored (dependencies_of (task_nodes two_tasks.tasks)) (plan_order two_tasks) failed_run.tasks
unfolding topological_ids dependency_map
stored x m =
    All-includes
      (λ id.
        (run_task : RunTask) × (get id failed_run.tasks ≡ some run_task)
        × (run_task.definition.dependencies ≡ dependencies_of (task_nodes two_tasks.tasks) id))
      x (plan_order two_tasks)
      (
        (new_task api TaskState.failed, refl, refl),
        ((new_task ui TaskState.planned, refl, refl), tt),
      )
      m

integrated : IsIntegrated failed_run.tasks
integrated id run_task found done = elim (Bool-cases ("ui" == id)) [
  | inl q ↦
      let same : new_task ui TaskState.planned ≡ run_task = some-injective (rw q at found) in
      absurd (cc (subst (λ (t : RunTask). is_succeeded t.state ≡ false) same refl))
  | inr q ↦ elim (Bool-cases ("api" == id)) [
    | inl p ↦
        let same : new_task api TaskState.failed ≡ run_task = some-injective (rw (q, p) at found) in
        absurd (cc (subst (λ (t : RunTask). is_succeeded t.state ≡ false) same refl))
    | inr p ↦ absurd (cc (rw (q, p) at found))
  ]
]

failed_run-IsIdle : IsIdle failed_run
unfolding is_under_way
failed_run-IsIdle = record {
  plan = two_tasks-IsTaskPlan;
  running = refl;
  workers = omega arith;
  stored = stored;
  attempts = refl;
  tasks = refl;
  integrated = integrated;
}

nothing_starts : launchable_task_ids failed_run ≡ ok []
unfolding launchable_task_ids launchable_of reconcile_ids topological_ids
nothing_starts =
    rw
      (
        reconcile_task_states-valid failed_run two_tasks-IsTaskPlan,
        topological_task_ids-valid two_tasks two_tasks-IsTaskPlan,
      )
      refl

-- Its task ui is stored as planned and waits for api, which failed.
abbrev reconciled_run : OrchestrationRun
reconciled_run = record failed_run { tasks = reconciled_tasks failed_run }

launchable_task_ids-IsFinished_example : IsFinished reconciled_run.tasks "ui"
launchable_task_ids-IsFinished_example =
    launchable_task_ids-IsFinished failed_run reconciled_run failed_run-IsIdle nothing_starts
      (reconcile_task_states-valid failed_run two_tasks-IsTaskPlan) "ui" refl
