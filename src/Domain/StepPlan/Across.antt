-- ===== src/Domain/StepPlan/Across.antt =====
-- src/domain/steps.ts: the checks across the steps.
use pi_build_conductor.Prelude.{
  ℕ, String, Bool, true, false, not, ◌&&◌, ◌||◌, List, [], ◌∷◌, Option, none, some, Dict, get, put,
  get-put, or_else, any, includes, is_distinct, All, All-both, ◌==◌, string_eq, ◌≡◌, arith, inl,
  inr, Bool-cases, Option-cases,
}
use pi_build_conductor.Domain.Types.{ValidationCommand}
use pi_build_conductor.Domain.Artifacts.Identity.{is_name}
use pi_build_conductor.Domain.Json.{Json, as_array}
use pi_build_conductor.Domain.Steps.{StepInputReference, StepDefinition}
use pi_build_conductor.Domain.Reading.{issue}
use pi_build_conductor.Domain.Reading.Valid.{
  IsCommand, AreCommands, nil-append, report_if-none, check_each-All,
  read_validation_commands-AreCommands,
}
use pi_build_conductor.Domain.StepPlan.{
  read_final_commands, check_step, check_step_dependencies, outputs_by_step, check_input,
  check_inputs,
}
use pi_build_conductor.Domain.StepPlan.Valid.{Whenever, IsInput, IsStep}

-- A step as a node of the plan's graph.
pub record IsStepNode (step : StepDefinition) : Type 0 where
  pub named : is_name step.id ≡ true
  pub distinct : is_distinct step.dependencies ≡ true
  pub no_self : includes step.id step.dependencies ≡ false

abbrev pub DependsOnSteps : List String → StepDefinition → Type 0
DependsOnSteps ids step = All (λ dependency. includes dependency ids ≡ true) step.dependencies

-- Some step with the id declares the output.
abbrev pub declares : List StepDefinition → String → String → Bool
declares steps id output =
    any (λ step. step.id == id && includes output (or_else step.outputs [])) steps

-- Every input is an output that one of the step's dependencies declares.
abbrev pub IsFed : List StepDefinition → StepDefinition → Type 0
IsFed steps step =
    All
      (λ input.
        (includes input.step_id step.dependencies && declares steps input.step_id input.output)
        ≡ true)
      (or_else step.inputs [])

-- A plan with a change has a final command.
abbrev pub AreFinal : Bool → List ValidationCommand → Type 0
AreFinal true commands = AreCommands commands
AreFinal false commands = All IsCommand commands

pub read_final_commands-AreFinal :
    (changes : Bool) (value : Option Json)
    → (read_final_commands changes value).1 ≡ []
    → AreFinal changes (read_final_commands changes value).0
unfolding read_final_commands
read_final_commands-AreFinal true value h = elim (Option-cases (as_array value)) [
  | inl q ↦ absurd (cc (rw (q, read_final_commands) at h))
  | inr ([], q) ↦ absurd (cc (rw (q, read_final_commands) at h))
  | inr (item ∷ items, q) ↦
      rw (q, read_final_commands)
        (read_validation_commands-AreCommands value _ (rw (q, read_final_commands) at h))
]
read_final_commands-AreFinal false none h = tt
read_final_commands-AreFinal false (some value) h = elim (Option-cases (as_array (some value))) [
  | inl q ↦ absurd (cc (rw (q, read_final_commands) at h))
  | inr ([], q) ↦ rw (q, read_final_commands) tt
  | inr (item ∷ items, q) ↦
      rw (q, read_final_commands)
        (read_validation_commands-AreCommands (some value) _ (rw (q, read_final_commands) at h)).1
]

pub check_step-IsStepNode :
    (ids : List String) (step : StepDefinition) (index : ℕ)
    → (check_step ids step index).1 ≡ []
    → IsStepNode step × (includes step.id ids ≡ false)
unfolding check_step
check_step-IsStepNode ids step index h =
    let (a, h1) = nil-append _ _ h in
    let (b, h2) = nil-append _ _ h1 in
    let (c, d) = nil-append _ _ h2 in
    let named = report_if-none (not (is_name step.id)) _ a in
    let distinct = report_if-none (not (is_distinct step.dependencies)) _ c in
    (
      record {
        named = ground arith;
        distinct = ground arith;
        no_self = report_if-none (includes step.id step.dependencies) _ d;
      },
      report_if-none (includes step.id ids) _ b,
    )

pub check_step_dependencies-DependsOnSteps :
    (ids : List String) (step : StepDefinition) (index : ℕ)
    → (check_step_dependencies ids step index).1 ≡ []
    → DependsOnSteps ids step
unfolding check_step_dependencies
check_step_dependencies-DependsOnSteps ids step index h =
    check_each-All _ (λ dependency. includes dependency ids ≡ true)
      (λ dependency i k.
        let known = report_if-none (not (includes dependency ids)) _ k in ground arith)
      0 step.dependencies h

-- What the map of outputs holds is declared by a step, or was there.
outputs_by_step-declares :
    (steps : List StepDefinition) (outputs : Dict (List String)) (id output : String)
    → includes output (or_else (get id (outputs_by_step steps outputs)) []) ≡ true
    → (declares steps id output || includes output (or_else (get id outputs) [])) ≡ true
unfolding outputs_by_step
outputs_by_step-declares [] outputs id output h = h
outputs_by_step-declares (step ∷ steps) outputs id output h =
    let later =
      outputs_by_step-declares steps (put step.id (or_else step.outputs []) outputs) id output h in
    elim (Bool-cases (step.id == id)) [
      | inl q ↦
          let found = rw (get-put step.id id (or_else step.outputs []) outputs, q) at later in
          rw q (ground arith)
      | inr q ↦
          let found = rw (get-put step.id id (or_else step.outputs []) outputs, q) at later in
          rw q found
    ]

check_input-declares :
    (steps : List StepDefinition) (dependencies : List String) (path : String)
    (input : StepInputReference)
    → IsInput input
    → (check_input (outputs_by_step steps []) dependencies path input).1 ≡ []
    → (includes input.step_id dependencies && declares steps input.step_id input.output) ≡ true
unfolding check_input
check_input-declares steps dependencies path input (a, b) h =
    elim (Bool-cases (includes input.step_id dependencies)) [
      | inr q ↦ absurd (cc (rw (a.1, b.1, q) at h))
      | inl q ↦
          let known =
            report_if-none
              (not
                (includes input.output (or_else (get input.step_id (outputs_by_step steps [])) [])))
              (issue "unknown_input_output" path) (rw (a.1, b.1, q) at h) in
          let found = outputs_by_step-declares steps [] input.step_id input.output (ground arith) in
          ground arith
    ]

-- What `check_input` lets pass; an input that could not be read is passed over.
abbrev pub Passes : List StepDefinition → StepDefinition → Type 0
Passes steps step =
    All
      (λ input.
        IsInput input
        → (includes input.step_id step.dependencies && declares steps input.step_id input.output)
          ≡ true)
      (or_else step.inputs [])

pub check_inputs-Passes :
    (steps : List StepDefinition) (step : StepDefinition) (index : ℕ)
    → (check_inputs (outputs_by_step steps []) step index).1 ≡ []
    → Passes steps step
unfolding check_inputs
check_inputs-Passes steps step index h =
    check_each-All _ _
      (λ input i k read. check_input-declares steps step.dependencies _ input read k) 0
      (or_else step.inputs []) h

given_inputs :
    (inputs : Option (List StepInputReference))
    → Whenever (All IsInput) inputs
    → All IsInput (or_else inputs [])
given_inputs none h = tt
given_inputs (some inputs) h = h

pub Passes-IsFed :
    (steps read : List StepDefinition)
    → All IsStep read
    → All (Passes steps) read
    → All (IsFed steps) read
Passes-IsFed steps read = All-both IsStep (Passes steps) (IsFed steps) read (λ step is_step passes.
    All-both IsInput _ _ (or_else step.inputs []) (λ input given pass. pass given)
      (given_inputs step.inputs is_step.inputs) passes)
