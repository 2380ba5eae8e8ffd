-- ===== src/Domain/StepPlan/Accepted.antt =====
-- src/domain/steps.ts: a plan of steps that is accepted.
use pi_build_conductor.Prelude.{
  String, true, List, [], ◌∷◌, some, Dict, get, string_eq, is_distinct, All, ok, ◌≡◌, ◌≢◌, refl,
  subst, inl, inr, Option-cases, ok-injective,
}
use pi_build_conductor.Domain.Steps.{WorkflowPlan, step_nodes}
use pi_build_conductor.Domain.Json.{Json, as_record}
use pi_build_conductor.Domain.Graph.Cycle.{Search, done, find_cycle, dependency_map}
use pi_build_conductor.Domain.Graph.Cycle.Found.{IsCycle}
use pi_build_conductor.Domain.Graph.Cycle.Restores.{Visit-cases}
use pi_build_conductor.Domain.Graph.Cycle.Fuel.{find_cycle-ends}
use pi_build_conductor.Domain.Graph.Cycle.Exact.{find_cycle-done_iff}
use pi_build_conductor.Domain.Reading.{Reading}
use pi_build_conductor.Domain.Reading.Valid.{
  IsText, nil-append, check_each-All, check_new-All, read_non_empty_string-IsText,
}
use pi_build_conductor.Domain.StepPlan.{
  has_change, check_step, step_ids, read_workflow_plan, conclude_plan,
  validate_workflow_plan_result,
}
use pi_build_conductor.Domain.StepPlan.Step.{read_steps}
use pi_build_conductor.Domain.StepPlan.Valid.{IsStep}
use pi_build_conductor.Domain.StepPlan.Sound.{read_steps-All}
use pi_build_conductor.Domain.StepPlan.Across.{
  IsStepNode, DependsOnSteps, IsFed, AreFinal, read_final_commands-AreFinal, check_step-IsStepNode,
  check_step_dependencies-DependsOnSteps, Passes, check_inputs-Passes, Passes-IsFed,
}

pub record IsWorkflowPlan (plan : WorkflowPlan) : Type 0 where
  pub titled : IsText plan.title
  pub some_steps : plan.steps ≢ []
  pub steps : All IsStep plan.steps
  pub commands : AreFinal (has_change plan.steps) plan.final_validation_commands
  pub nodes : All IsStepNode plan.steps
  pub distinct : is_distinct (step_ids plan.steps) ≡ true
  pub known : All (DependsOnSteps (step_ids plan.steps)) plan.steps
  pub fed : All (IsFed plan.steps) plan.steps
  pub acyclic : (cycle : List String) → ¬ (IsCycle (dependency_map (step_nodes plan.steps)) cycle)

conclude_plan-eq-ok :
    (read : Reading WorkflowPlan) (plan : WorkflowPlan)
    → conclude_plan read ≡ ok plan
    → (read.1 ≡ [])
      × (read.0 ≡ plan)
      × (s : Search) × (find_cycle (step_nodes (read.0).steps) ≡ done s)
unfolding conclude_plan
conclude_plan-eq-ok (read, first ∷ issues) plan h = absurd (cc)
conclude_plan-eq-ok (read, []) plan h = elim (Visit-cases (find_cycle (step_nodes read.steps))) [
  | inl q ↦ absurd (find_cycle-ends (step_nodes read.steps) q)
  | inr (inl (cycle, q)) ↦ absurd (cc (rw (q, conclude_plan) at h))
  | inr (inr (s, q)) ↦ (refl, ok-injective (rw (q, conclude_plan) at h), s, q)
]

read_workflow_plan-IsWorkflowPlan :
    (value : Dict Json)
    → (read_workflow_plan value).1 ≡ []
    → (s : Search) → find_cycle (step_nodes (read_workflow_plan value).0.steps) ≡ done s
    → IsWorkflowPlan (read_workflow_plan value).0
unfolding read_workflow_plan
read_workflow_plan-IsWorkflowPlan value h s e =
    let read = (read_steps (get "steps" value)).0 in
    let (_, h1) = nil-append _ _ h in
    let (b, h2) = nil-append _ _ h1 in
    let (c, h3) = nil-append _ _ h2 in
    let (d, h4) = nil-append _ _ h3 in
    let (f, h5) = nil-append _ _ h4 in
    let (g, h6) = nil-append _ _ h5 in
    let (i, _) = nil-append _ [] h6 in
    let (some_steps, steps) = read_steps-All (get "steps" value) c in
    let (nodes, distinct, _) =
      check_new-All check_step (λ step. step.id) IsStepNode check_step-IsStepNode [] 0 read f in
    record {
      titled = read_non_empty_string-IsText (get "title" value) "title" b;
      some_steps = some_steps;
      steps = steps;
      commands =
          read_final_commands-AreFinal (has_change read) (get "finalValidationCommands" value) d;
      nodes = nodes;
      distinct = distinct;
      known =
          check_each-All _ (DependsOnSteps _)
            (λ step n k. check_step_dependencies-DependsOnSteps _ step n k) 0 read g;
      fed =
          Passes-IsFed read read steps
            (check_each-All _ (Passes read) (check_inputs-Passes read) 0 read i);
      acyclic = (find_cycle-done_iff (step_nodes read)).0 (s, e);
    }

pub validate_workflow_plan_result-IsWorkflowPlan :
    (value : Json) (plan : WorkflowPlan)
    → validate_workflow_plan_result value ≡ ok plan
    → IsWorkflowPlan plan
unfolding validate_workflow_plan_result
validate_workflow_plan_result-IsWorkflowPlan value plan h =
    elim (Option-cases (as_record (some value))) [
      | inl q ↦ absurd (cc (rw (q, validate_workflow_plan_result) at h))
      | inr (fields, q) ↦
          let (no_issue, same, s, e) =
            conclude_plan-eq-ok (read_workflow_plan fields) plan
              (rw (q, validate_workflow_plan_result) at h) in
          subst IsWorkflowPlan same (read_workflow_plan-IsWorkflowPlan fields no_issue s e)
    ]
