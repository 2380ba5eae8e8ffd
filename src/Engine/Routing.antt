-- ===== src/Engine/Routing.antt =====
-- src/engine/artifact-routing.ts: a step's artifacts against its declared outputs.
pub mod Exact
use pi_build_conductor.Prelude.{
  ℕ, suc, String, Bool, true, false, not, List, [], ◌∷◌, ◌++◌, map, Option, none, some, or_else,
  includes, filter, length, eqb, if◌then◌else◌, Result, ok, err, ◌>>=◌, map_result, string_eq, ◌==◌,
}
use pi_build_conductor.Domain.Steps.{StepDefinition}
use pi_build_conductor.Domain.Artifacts.{
  ArtifactKind, ArtifactPayload, StepArtifactDraft, ArtifactSummary,
}

-- `StepArtifactRoutingError`.
pub data RoutingError : Type 0 where
  undeclared_output : (step_id output : String) → RoutingError
  repeated_output : (step_id output : String) → RoutingError
  missing_outputs : (step_id : String) (outputs : List String) → RoutingError

pub record ArtifactWriteRequest : Type 0 where
  pub run_id : String
  pub step_id : String
  pub output : String
  pub attempt : ℕ
  pub kind : ArtifactKind
  pub title : String
  pub payload : ArtifactPayload

-- The loop over the drafts; it returns the produced outputs.
unfoldable pub check_drafts :
    String → List String → List String → List StepArtifactDraft → Result RoutingError (List String)
check_drafts step_id declared produced [] = ok produced
check_drafts step_id declared produced (draft ∷ drafts) =
    let rest = check_drafts step_id declared (draft.output ∷ produced) drafts in
    if not (includes draft.output declared)
    then err (undeclared_output step_id draft.output)
    else if includes draft.output produced
    then err (repeated_output step_id draft.output)
    else rest

abbrev pub write_request : String → StepDefinition → ℕ → StepArtifactDraft → ArtifactWriteRequest
write_request run_id step attempt_number draft = record {
  run_id = run_id;
  step_id = step.id;
  output = draft.output;
  attempt = attempt_number;
  kind = draft.kind;
  title = draft.title;
  payload = draft.payload;
}

abbrev pub declared_outputs : StepDefinition → List String
declared_outputs step = or_else step.outputs []

unfoldable pub plan_step_artifacts :
    String
    → StepDefinition
    → ℕ
    → List StepArtifactDraft
    → Result RoutingError (List ArtifactWriteRequest)
unfolding check_drafts
plan_step_artifacts run_id step attempt_number drafts = do
  produced ← check_drafts step.id (declared_outputs step) [] drafts
  let missing = filter (λ output. not (includes output produced)) (declared_outputs step)
  if eqb (length missing) 0
      then ok (map (write_request run_id step attempt_number) drafts)
      else err (missing_outputs step.id missing)

-- What the artifact store throws is a message.
pub data RouteFailure : Type 0 where
  routing : RoutingError → RouteFailure
  no_artifact_store : RouteFailure
  write_failed : (message : String) → RouteFailure

-- The artifact store's `write`, which is not modelled.
abbrev pub Writer : Type 0
Writer = ArtifactWriteRequest → Result RouteFailure ArtifactSummary

abbrev pub as_route_failure : {A : Type 0} → Result RoutingError A → Result RouteFailure A
as_route_failure (ok a) = ok a
as_route_failure (err e) = err (routing e)

-- `routeStepArtifacts`.
unfoldable pub route_step_artifacts :
    Writer
    → String
    → StepDefinition
    → ℕ
    → List StepArtifactDraft
    → Result RouteFailure (List ArtifactSummary)
unfolding plan_step_artifacts
route_step_artifacts write run_id step attempt_number drafts = do
  requests ← as_route_failure (plan_step_artifacts run_id step attempt_number drafts)
  map_result write requests
