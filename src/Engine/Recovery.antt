-- ===== src/Engine/Recovery.antt =====
-- src/engine/recovery.ts: what becomes of the attempts of a process that disappeared.
pub mod Transaction
pub mod Adoption
pub mod Settled
pub mod Returns
use Prim.Native.String
use pi_build_conductor.Prelude.{
  ℕ, suc, ◌+◌, String, Bool, true, false, not, ◌&&◌, ◌||◌, List, [], ◌∷◌, ◌++◌, Option, none, some,
  or_else, is_some, truthy_text, Dict, get, put, any, all, includes, filter, flat_map, length, ltb,
  eqb, if◌then◌else◌, ◌==◌, string_eq, Result, ok, err, ◌>>=◌,
}
use pi_build_conductor.Domain.Types.{AttemptState, TaskValidationEvidence, is_active_attempt_state}
use pi_build_conductor.Domain.Steps.{StepDefinition, step_retry_policy}
use pi_build_conductor.Domain.Artifacts.Identity.{artifact_id_for}
use pi_build_conductor.Engine.State.{
  StepRunState, WorkflowRunLifecycleState, WorkflowStepAttempt, WorkflowStepRecord,
  WorkflowRunState, WorkflowEventBody, StateError, retryable, terminal, interrupted_in_budget,
  interrupted_for_good, run_interrupted, step_succeeded, step_failed, step_retry_scheduled,
  require_step, update_step, update_step_attempt,
}
use pi_build_conductor.Engine.Events.{append_workflow_events, blocked_step_events, is_blocked}
use pi_build_conductor.Engine.Scheduler.{run_is_running, reconcile_workflow_steps}
use pi_build_conductor.Engine.Settle.{keep_or, some_ids}
use pi_build_conductor.Engine.Routing.{declared_outputs}

-- What recovery reads of Git and of the artifact store, which are not modelled. `read` is the
-- stored evidence of an artifact, if it can be read back and has the evidence's form.
pub record RecoverySources : Type 0 where
  pub branch_head : (branch : String) → Result String String
  pub verify_commit : (branch commit base : String) → Result String (Unit {0})
  pub has_artifact_store : Bool
  pub durable : List String
  pub read : Option (String → Option TaskValidationEvidence)

pub record InterruptedAttemptDecision : Type 0 where
  pub commit : Option String
  pub artifact_ids : Option (List String)
  pub evidence : Option TaskValidationEvidence
  pub retry_reason : Option String
  pub blocked_reason : Option String

abbrev pub no_decision : InterruptedAttemptDecision
no_decision = record {
  commit = none;
  artifact_ids = none;
  evidence = none;
  retry_reason = none;
  blocked_reason = none;
}

abbrev concat : String → String → String
concat left right = String.◌++◌ left right

abbrev join : List String → String
join [] = ""
join (x ∷ []) = x
join (x ∷ y ∷ xs) = concat x (concat ", " (join (y ∷ xs)))

abbrev plural : ℕ → String
plural n = if eqb n 1 then "" else "s"

abbrev result_or_none : {E A : Type 0} → Result E A → Option A
result_or_none (ok a) = some a
result_or_none (err e) = none

-- The declared outputs, each with the id that the attempt's artifact has, if it has one.
unfoldable pub declared_artifact_ids :
    StepDefinition → WorkflowStepAttempt → List String → List (String × Option String)
declared_artifact_ids step attempt [] = []
declared_artifact_ids step attempt (output ∷ outputs) =
    (
      output,
      result_or_none (
          artifact_id_for
            (record { step_id = step.id; output = output; attempt = attempt.number })),
    )
    ∷ declared_artifact_ids step attempt outputs

abbrev verified : String → Result String (Unit {0}) → InterruptedAttemptDecision
verified head (ok _) = record no_decision { commit = some head }
verified head (err message) = record no_decision {
  blocked_reason = some (concat "could not reconcile step branch: " message);
}

abbrev from_branch :
    RecoverySources
    → WorkflowStepAttempt
    → String
    → Result String String
    → InterruptedAttemptDecision
from_branch sources attempt branch (err message) = record no_decision {
  blocked_reason = some (concat "could not reconcile step branch: " message);
}
from_branch sources attempt branch (ok head) =
    if head == attempt.base_commit
    then no_decision
    else verified head (sources.verify_commit branch head attempt.base_commit)

-- The commit that an interrupted attempt left on its branch.
unfoldable pub interrupted_attempt_commit :
    RecoverySources → WorkflowStepAttempt → InterruptedAttemptDecision
interrupted_attempt_commit sources attempt = elim (truthy_text attempt.branch) [
  | none ↦ no_decision
  | some branch ↦ elim (truthy_text attempt.commit) [
    | some commit ↦ record no_decision { commit = some commit }
    | none ↦ from_branch sources attempt branch (sources.branch_head branch)
  ]
]

abbrev pub is_durable : RecoverySources → Option String → Bool
is_durable sources none = false
is_durable sources (some id) = includes id sources.durable

abbrev ids_of : List (String × Option String) → List String
ids_of [] = []
ids_of ((output, none) ∷ declared) = ids_of declared
ids_of ((output, some id) ∷ declared) = id ∷ ids_of declared

abbrev pub missing_of : RecoverySources → List (String × Option String) → List String
missing_of sources [] = []
missing_of sources ((output, id) ∷ declared) =
    let rest = missing_of sources declared in if is_durable sources id then rest else output ∷ rest

abbrev passing : Option TaskValidationEvidence → Option TaskValidationEvidence
passing none = none
passing (some evidence) = if evidence.passed then some evidence else none

-- `adoptedEvidence`: the passing checks that the step published.
unfoldable pub adopted_evidence :
    RecoverySources → StepDefinition → WorkflowStepAttempt → Option TaskValidationEvidence
adopted_evidence sources step attempt = elim sources.read [
  | none ↦ none
  | some read ↦
      elim (artifact_id_for
        (record { step_id = step.id; output = "evidence"; attempt = attempt.number })) [
          | err _ ↦ none
          | ok id ↦ passing (read id)
        ]
]

abbrev with_evidence :
    String
    → List String
    → StepDefinition
    → Option TaskValidationEvidence
    → InterruptedAttemptDecision
with_evidence commit ids step (some evidence) = record no_decision {
  commit = some commit;
  artifact_ids = some ids;
  evidence = some evidence;
}
with_evidence commit ids step none = record no_decision {
  retry_reason = some (concat "published no readable passing validation evidence for " step.id);
}

abbrev adopt :
    RecoverySources
    → String
    → List String
    → StepDefinition
    → WorkflowStepAttempt
    → Option TaskValidationEvidence
    → InterruptedAttemptDecision
adopt sources commit ids step attempt (some evidence) = record no_decision {
  commit = some commit;
  artifact_ids = some ids;
  evidence = some evidence;
}
adopt sources commit ids step attempt none =
    if includes "evidence" (declared_outputs step)
    then with_evidence commit ids step (adopted_evidence sources step attempt)
    else record no_decision { commit = some commit; artifact_ids = some ids }

abbrev inspect_outputs :
    RecoverySources
    → String
    → StepDefinition
    → WorkflowStepAttempt
    → List (String × Option String)
    → InterruptedAttemptDecision
inspect_outputs sources commit step attempt declared =
    if ltb 0 (length declared) && not sources.has_artifact_store
    then record no_decision {
      retry_reason = some (
          concat "no artifact store is configured to verify the declared output"
            (concat (plural (length declared)) (concat " of " step.id)));
    }
    else if ltb 0 (length (missing_of sources declared))
    then record no_decision {
      retry_reason = some (
          concat "did not durably store the declared output" (
            concat (plural (length (missing_of sources declared)))
              (concat " of " (concat step.id (concat ": " (join (missing_of sources declared)))))));
    }
    else adopt sources commit (ids_of declared) step attempt attempt.evidence

unfoldable pub inspect_interrupted_attempt :
    RecoverySources
    → WorkflowRunState
    → WorkflowStepAttempt
    → Result StateError InterruptedAttemptDecision
unfolding interrupted_attempt_commit adopted_evidence declared_artifact_ids
inspect_interrupted_attempt sources state attempt =
    let decision = interrupted_attempt_commit sources attempt in
    elim decision.commit [
      | none ↦ ok decision
      | some commit ↦ require_step state attempt.step_id >>= λ step. ok (
          inspect_outputs sources commit step.definition attempt
            (declared_artifact_ids step.definition attempt (declared_outputs step.definition)))
    ]
