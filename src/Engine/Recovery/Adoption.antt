-- ===== src/Engine/Recovery/Adoption.antt =====
-- src/engine/recovery.ts: what must have been stored before a commit is adopted.
use pi_build_conductor.Prelude.{
  some-injective, String, Bool, true, false, not, ◌&&◌, List, [], ◌∷◌, Option, none, some, is_some,
  ◌≡◌, refl, arith, ◌⊎◌, inl, inr, All, includes, Option-cases, Bool-cases, ltb, length, Result, ok,
  err, ok-injective, bound, string_eq, if◌then◌else◌, subst, sym, ap, ◌∙◌, get,
}
use pi_build_conductor.Domain.Types.{TaskValidationEvidence}
use pi_build_conductor.Domain.Steps.{StepDefinition}
use pi_build_conductor.Domain.Artifacts.Identity.{artifact_id_for}
use pi_build_conductor.Engine.State.{
  WorkflowStepAttempt, WorkflowStepRecord, WorkflowRunState, require_step,
}
use pi_build_conductor.Engine.Routing.{declared_outputs}
use pi_build_conductor.Engine.Recovery.{
  RecoverySources, InterruptedAttemptDecision, no_decision, declared_artifact_ids, is_durable,
  missing_of, ids_of, passing, adopted_evidence, with_evidence, adopt, inspect_outputs,
  interrupted_attempt_commit, inspect_interrupted_attempt,
}
use pi_build_conductor.Engine.State.Updates.{require_step-eq-ok}

-- The store can be read, and holds passing evidence as the output "evidence" of this attempt.
pub record IsReadBack (sources : RecoverySources) (step : StepDefinition)
    (attempt : WorkflowStepAttempt) (evidence : TaskValidationEvidence) : Type 0 where
  pub read : String → Option TaskValidationEvidence
  pub readable : sources.read ≡ some read
  pub id : String
  pub named :
      artifact_id_for (record { step_id = step.id; output = "evidence"; attempt = attempt.number })
      ≡ ok id
  pub held : read id ≡ some evidence
  pub passed : evidence.passed ≡ true

-- The evidence that an adoption rests on, when the step declares that it publishes some.
abbrev pub IsChecked :
    RecoverySources → StepDefinition → WorkflowStepAttempt → InterruptedAttemptDecision → Type 0
IsChecked sources step attempt decision =
    (includes "evidence" (declared_outputs step) ≡ false)
    ⊎ ((is_some attempt.evidence ≡ true)
        ⊎ ((evidence : TaskValidationEvidence) × (decision.evidence ≡ some evidence)
            × IsReadBack sources step attempt evidence))

-- What a decision to adopt rests on: the commit is what the attempt left on its branch, every
-- declared output was stored durably, and a step that declares evidence has some: its attempt
-- recorded it, or passing evidence was read back from the store.
pub record IsAdoptable (sources : RecoverySources) (step : StepDefinition)
    (attempt : WorkflowStepAttempt) (decision : InterruptedAttemptDecision) (commit : String)
    : Type 0 where
  pub left_behind : (interrupted_attempt_commit sources attempt).commit ≡ some commit
  pub durable :
      All
        (λ declared. is_durable sources declared.1 ≡ true)
        (declared_artifact_ids step attempt (declared_outputs step))
  pub checked : IsChecked sources step attempt decision

missing-nothing :
    (sources : RecoverySources) (declared : List (String × Option String))
    → ltb 0 (length (missing_of sources declared)) ≡ false
    → All (λ entry. is_durable sources entry.1 ≡ true) declared
missing-nothing sources [] h = tt
missing-nothing sources ((output, id) ∷ declared) h = elim (Bool-cases (is_durable sources id)) [
  | inl q ↦ (q, missing-nothing sources declared (rw q at h))
  | inr q ↦ absurd (let bad = rw q at h in ground arith)
]

passed_if :
    (found evidence : TaskValidationEvidence) (passed : Bool)
    → found.passed ≡ passed
    → (if passed then some found else none) ≡ some evidence
    → (found ≡ evidence) × (evidence.passed ≡ true)
passed_if found evidence true e h =
    let same = some-injective h in (same, ap (λ x. x.passed) (sym same) ∙ e)
passed_if found evidence false e h = absurd (cc)

passing-eq-some :
    (found : Option TaskValidationEvidence) (evidence : TaskValidationEvidence)
    → passing found ≡ some evidence
    → (found ≡ some evidence) × (evidence.passed ≡ true)
passing-eq-some none evidence h = absurd (cc)
passing-eq-some (some found) evidence h =
    let (same, passed) = passed_if found evidence found.passed refl h in (ap some same, passed)

artifact_read :
    (read : String → Option TaskValidationEvidence) {E : Type 0} (named : Result E String)
    (evidence : TaskValidationEvidence)
    → (elim named [ err _ ↦ none | ok id ↦ passing (read id) ]) ≡ some evidence
    → (id : String) × (named ≡ ok id) × (read id ≡ some evidence) × (evidence.passed ≡ true)
artifact_read read (err e) evidence h = absurd (cc)
artifact_read read (ok id) evidence h =
    let (held, passed) = passing-eq-some (read id) evidence h in (id, refl, held, passed)

adopted_evidence-IsReadBack :
    (sources : RecoverySources) (step : StepDefinition) (attempt : WorkflowStepAttempt)
    (evidence : TaskValidationEvidence)
    → adopted_evidence sources step attempt ≡ some evidence
    → IsReadBack sources step attempt evidence
unfolding adopted_evidence
adopted_evidence-IsReadBack sources step attempt evidence h = elim (Option-cases sources.read) [
  | inl q ↦ absurd (let bad = rw (q, adopted_evidence) at h in cc)
  | inr (read, q) ↦
      let (id, named, held, passed) =
        artifact_read read
          (artifact_id_for
            (record { step_id = step.id; output = "evidence"; attempt = attempt.number }))
          evidence (rw (q, adopted_evidence) at h) in
      record { read = read; readable = q; id = id; named = named; held = held; passed = passed }
]

with_evidence-IsChecked :
    (sources : RecoverySources) (left commit : String) (ids : List String) (step : StepDefinition)
    (attempt : WorkflowStepAttempt) (found : Option TaskValidationEvidence)
    → adopted_evidence sources step attempt ≡ found
    → (with_evidence left ids step found).commit ≡ some commit
    → (left ≡ commit) × IsChecked sources step attempt (with_evidence left ids step found)
with_evidence-IsChecked sources left commit ids step attempt none e h = absurd (cc)
with_evidence-IsChecked sources left commit ids step attempt (some evidence) e h = (
  some-injective h,
  inr (inr (evidence, refl, adopted_evidence-IsReadBack sources step attempt evidence e)),
)

module _ (sources : RecoverySources) (left commit : String) (ids : List String)
    (step : StepDefinition) (attempt : WorkflowStepAttempt) where
  without_own-IsChecked :
      (declares : Bool)
      → includes "evidence" (declared_outputs step) ≡ declares
      → (decision : InterruptedAttemptDecision)
      → decision ≡ (
          if declares
          then with_evidence left ids step (adopted_evidence sources step attempt)
          else record no_decision { commit = some left; artifact_ids = some ids })
      → decision.commit ≡ some commit
      → (left ≡ commit) × IsChecked sources step attempt decision
  without_own-IsChecked true y decision e h =
      let (same, checked) =
        with_evidence-IsChecked sources left commit ids step attempt
          (adopted_evidence sources step attempt) refl (ap (λ d. d.commit) (sym e) ∙ h) in
      (same, subst (IsChecked sources step attempt) (sym e) checked)
  without_own-IsChecked false n decision e h =
      (some-injective (ap (λ d. d.commit) (sym e) ∙ h), inl n)

  adopt-IsChecked :
      (own : Option TaskValidationEvidence)
      → attempt.evidence ≡ own
      → (adopt sources left ids step attempt own).commit ≡ some commit
      → (left ≡ commit) × IsChecked sources step attempt (adopt sources left ids step attempt own)
  adopt-IsChecked (some evidence) e h = (some-injective h, inr (inl (ap is_some e)))
  adopt-IsChecked none e h =
      without_own-IsChecked (includes "evidence" (declared_outputs step)) refl
        (adopt sources left ids step attempt none) refl h

inspect_outputs-IsAdoptable :
    (sources : RecoverySources) (left commit : String) (step : StepDefinition)
    (attempt : WorkflowStepAttempt) (declared : List (String × Option String))
    → (inspect_outputs sources left step attempt declared).commit ≡ some commit
    → (left ≡ commit)
      × All (λ entry. is_durable sources entry.1 ≡ true) declared
      × IsChecked sources step attempt (inspect_outputs sources left step attempt declared)
inspect_outputs-IsAdoptable sources left commit step attempt declared h =
    elim (Bool-cases (ltb 0 (length declared) && not sources.has_artifact_store)) [
      | inl q ↦ absurd (let bad = rw q at h in cc)
      | inr q ↦ elim (Bool-cases (ltb 0 (length (missing_of sources declared)))) [
        | inl m ↦ absurd (let bad = rw (q, m) at h in cc)
        | inr m ↦
            let (same, checked) =
              adopt-IsChecked sources left commit (ids_of declared) step attempt attempt.evidence
                refl (rw (q, m) at h) in
            rw (q, m) (same, missing-nothing sources declared m, checked)
      ]
    ]

-- If the step of an attempt is known and its inspection decides to adopt a commit, the attempt
-- left that commit behind, every output that the step declares was stored durably, and, if the
-- step declares evidence and the attempt has none, the decision carries passing evidence that the
-- store holds as the evidence of this step and of this attempt's number.
pub inspect_interrupted_attempt-IsAdoptable :
    (sources : RecoverySources) (state : WorkflowRunState) (attempt : WorkflowStepAttempt)
    (step : WorkflowStepRecord) (decision : InterruptedAttemptDecision) (commit : String)
    → get attempt.step_id state.steps ≡ some step
    → inspect_interrupted_attempt sources state attempt ≡ ok decision
    → decision.commit ≡ some commit
    → IsAdoptable sources step.definition attempt decision commit
unfolding inspect_interrupted_attempt
inspect_interrupted_attempt-IsAdoptable sources state attempt step decision commit g h c =
    elim (Option-cases (interrupted_attempt_commit sources attempt).commit) [
      | inl q ↦
          let same = ok-injective (rw (q, inspect_interrupted_attempt) at h) in
          absurd (let bad = sym q ∙ ap (λ d. d.commit) same ∙ c in cc)
      | inr (left, q) ↦
          let (found, required, e) =
            bound {m = require_step state attempt.step_id}
              (rw (q, inspect_interrupted_attempt) at h) in
          let same : found ≡ step =
            some-injective (sym (require_step-eq-ok state attempt.step_id found required) ∙ g) in
          let inspected : StepDefinition → InterruptedAttemptDecision = λ d.
            inspect_outputs sources left d attempt
              (declared_artifact_ids d attempt (declared_outputs d)) in
          let decided : inspected step.definition ≡ decision =
            ap (λ x. inspected x.definition) (sym same) ∙ ok-injective e in
          let (kept, durable, checked) =
            inspect_outputs-IsAdoptable sources left commit step.definition attempt
              (declared_artifact_ids step.definition attempt (declared_outputs step.definition))
              (ap (λ d. d.commit) decided ∙ c) in
          record {
            left_behind = q ∙ ap some kept;
            durable = durable;
            checked = subst (IsChecked sources step.definition attempt) decided checked;
          }
    ]
