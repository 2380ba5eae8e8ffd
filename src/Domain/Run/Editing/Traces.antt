-- ===== src/Domain/Run/Editing/Traces.antt =====
-- src/domain/run.ts: the operations on a run as one step relation.
use pi_build_conductor.Prelude.{
  ℕ, String, List, [], ◌∷◌, ◌++◌, append-nil, append_assoc, ok, ◌≡◌, refl, sym, ap, ◌∙◌, subst, inl,
  inr, Bool-cases, ok-injective, some-injective,
}
use pi_build_conductor.Domain.Types.{TaskPlan}
use pi_build_conductor.Security.Envelope.{AuthorityEnvelope}
use pi_build_conductor.Domain.Run.{PlanRevision, OrchestrationRun}
use pi_build_conductor.Domain.Run.Authority.{CreateRunInput, ReviseRunPlanInput}
use pi_build_conductor.Domain.Run.Lifecycle.{
  create_orchestration_run, revise_run_plan, restore_run_plan_revision, approve_run,
}
use pi_build_conductor.Domain.Run.Recovery.{recover_interrupted_run, is_interrupted_run}
use pi_build_conductor.Domain.Run.Recovered.{recovered as settled}
use pi_build_conductor.Domain.Run.Editing.{IsHistory, reconciled-IsHistory}
use pi_build_conductor.Domain.Run.Editing.Operations.{
  Revises, IsAgreed, unapproved_IsAgreed, revise_run_plan-IsHistory,
  restore_run_plan_revision-IsHistory, create_orchestration_run-IsHistory, approve_run-eq-ok,
}

-- The history of `old` is the beginning of that of `new`.
abbrev pub Extends : OrchestrationRun → OrchestrationRun → Type 0
Extends old new = (more : List PlanRevision) × (new.plan_revisions ≡ old.plan_revisions ++ more)

-- A numbered history of valid plans, and an approval of its last entry.
abbrev pub IsConducted : OrchestrationRun → Type 0
IsConducted run = IsHistory run × IsAgreed run

Revises-Extends :
    (run next : OrchestrationRun) (plan : TaskPlan) (limit : ℕ)
    → Revises run next plan limit
    → Extends run next
Revises-Extends run next plan limit (revision, appended, _, _, _, _) = (revision ∷ [], appended)

same-Extends :
    (run next : OrchestrationRun) → next.plan_revisions ≡ run.plan_revisions → Extends run next
same-Extends run next same = ([], same ∙ sym (append-nil run.plan_revisions))

recovered_history :
    (run next : OrchestrationRun) (now : String)
    → IsConducted run
    → recover_interrupted_run run now ≡ ok next
    → IsConducted next × Extends run next
unfolding recover_interrupted_run
recovered_history run next now (h, agreed) e = elim (Bool-cases (is_interrupted_run run)) [
  | inr q ↦
      let same : run ≡ next = ok-injective (rw (q, recover_interrupted_run) at e) in
      subst (λ (r : OrchestrationRun). IsConducted r × Extends run r) same
        ((h, agreed), same-Extends run run refl)
  | inl q ↦
      let (history, _, _, number, revisions, approval) =
        reconciled-IsHistory (settled run now) next (rw (q, recover_interrupted_run) at e) (record {
          numbered = h.numbered;
          counted = h.counted;
          valid = h.valid;
          current = h.current;
          plan = h.plan;
        }) in
      ((history, λ n k. agreed n (sym approval ∙ k) ∙ sym number), same-Extends run next revisions)
]

approved_history :
    (run next : OrchestrationRun) (now : String) (expected : ℕ)
    → IsConducted run
    → approve_run run now expected ≡ ok next
    → IsConducted next × Extends run next
approved_history run next now expected (h, agreed) e =
    let (_, same) = approve_run-eq-ok run next now expected e in
    subst (λ (r : OrchestrationRun). IsConducted r × Extends run r) (sym same)
      (
        (
          record {
            numbered = h.numbered;
            counted = h.counted;
            valid = h.valid;
            current = h.current;
            plan = h.plan;
          },
          λ n k. sym (some-injective k),
        ),
        ([], sym (append-nil run.plan_revisions)),
      )

module _ (digest_of : AuthorityEnvelope → String) where
  -- One call that returned.
  pub data Step : OrchestrationRun → OrchestrationRun → Type 0 where
    revised :
        {run next : OrchestrationRun} (input : ReviseRunPlanInput)
        → revise_run_plan digest_of run input ≡ ok next
        → Step run next
    restored :
        {run next : OrchestrationRun} (number expected : ℕ) (now : String)
        → restore_run_plan_revision digest_of run number expected now ≡ ok next
        → Step run next
    approved :
        {run next : OrchestrationRun} (now : String) (expected : ℕ)
        → approve_run run now expected ≡ ok next
        → Step run next
    recovered :
        {run next : OrchestrationRun} (now : String)
        → recover_interrupted_run run now ≡ ok next
        → Step run next

  pub data Reach (run : OrchestrationRun) : OrchestrationRun → Type 0 where
    here : Reach run run
    step : {next last : OrchestrationRun} → Reach run next → Step next last → Reach run last

  Step-IsConducted :
      {run next : OrchestrationRun}
      → Step run next
      → IsConducted run
      → IsConducted next × Extends run next
  Step-IsConducted {run} {next} (revised input e) (h, agreed) =
      let (history, change, unapproved) = revise_run_plan-IsHistory digest_of run next input h e in
      (
        (history, unapproved_IsAgreed next unapproved),
        elim change [
          | inl same ↦ same-Extends run next (ap (λ r. r.plan_revisions) same)
          | inr revises ↦ Revises-Extends run next _ _ revises
        ],
      )
  Step-IsConducted {run} {next} (restored number expected now e) (h, agreed) =
      let (history, found, _, revises, unapproved) =
        restore_run_plan_revision-IsHistory digest_of run next number expected now h e in
      ((history, unapproved_IsAgreed next unapproved), Revises-Extends run next _ _ revises)
  Step-IsConducted {run} {next} (approved now expected e) c =
      approved_history run next now expected c e
  Step-IsConducted {run} {next} (recovered now e) c = recovered_history run next now c e

  pub Reach-IsConducted :
      {run last : OrchestrationRun}
      → Reach run last
      → IsConducted run
      → IsConducted last × Extends run last
  Reach-IsConducted {run} here c = (c, same-Extends run run refl)
  Reach-IsConducted {run} {last} (step {next = middle} path s) c =
      let (conducted, (more, begins)) = Reach-IsConducted path c in
      let (finally, (later, continues)) = Step-IsConducted s conducted in
      (
        finally,
        (
          more ++ later,
          continues ∙ ap (λ l. l ++ later) begins ∙ append_assoc run.plan_revisions more later,
        ),
      )

  -- Whatever the digest of an envelope is, a run that was created and then revised, restored,
  -- approved or recovered in any order keeps a history of plan revisions that is numbered from 1
  -- without a gap, holds only valid plans and ends with the plan and worker limit of the run; an
  -- approval names the current revision; and at any point of the way, every revision that is then
  -- in the history stays in it unchanged and at its place to the end of the way.
  pub created-Reach-IsConducted :
      (input : CreateRunInput) (run middle last : OrchestrationRun)
      → create_orchestration_run digest_of input ≡ ok run
      → Reach run middle
      → Reach middle last
      → IsConducted last × Extends middle last
  created-Reach-IsConducted input run middle last e path later =
      let (history, unapproved, _, _, _) =
        create_orchestration_run-IsHistory digest_of input run e in
      let (conducted, _) = Reach-IsConducted path (history, unapproved_IsAgreed run unapproved) in
      Reach-IsConducted later conducted
