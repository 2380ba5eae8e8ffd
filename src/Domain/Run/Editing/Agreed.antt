-- ===== src/Domain/Run/Editing/Agreed.antt =====
-- src/domain/run.ts: the operations on a run against a list of proposals that one approval closes.
use pi_build_conductor.Prelude.{
  ℕ, String, Bool, List, [], ◌∷◌, ◌++◌, Option, none, some, find_first, ok, ◌≡◌, ◌⊎◌, refl, sym, ap,
  ◌∙◌, subst, inl, inr, Bool-cases, Option-cases, bound, ok-injective, some-injective,
}
use pi_build_conductor.Domain.Types.{TaskPlan}
use pi_build_conductor.Domain.TaskPlan.Valid.{IsTaskPlan}
use pi_build_conductor.Security.Envelope.{AuthorityEnvelope}
use pi_build_conductor.Domain.Run.{PlanRevision, OrchestrationRun}
use pi_build_conductor.Domain.Run.Authority.{CreateRunInput, ReviseRunPlanInput}
use pi_build_conductor.Domain.Run.Lifecycle.{
  assert_plan_editable, create_orchestration_run, revise_run_plan, restore_run_plan_revision,
  approve_run,
}
use pi_build_conductor.Domain.Run.Recovery.{recover_interrupted_run, is_interrupted_run}
use pi_build_conductor.Domain.Run.Recovered.{recovered as settled}
use pi_build_conductor.Domain.Run.Editing.{IsHistory, reconciled-IsHistory}
use pi_build_conductor.Domain.Run.Editing.Operations.{
  Revises, revise_run_plan-IsHistory, restore_run_plan_revision-IsHistory, approve_run-eq-ok,
  assert_plan_editable-none, create_orchestration_run-IsHistory, unapproved_IsAgreed,
}
use pi_build_conductor.Domain.Run.Editing.Traces.{
  Step, revised, restored, approved, recovered, Reach, IsConducted, Reach-IsConducted,
}

-- What a user sees of a run's plans: the plans that were proposed, the last one being current, and
-- whether they agreed to it.
pub data Proposals : Type 0 where
  proposed agreed : List TaskPlan → Proposals

abbrev Holds : TaskPlan → List TaskPlan → Type 0
Holds plan [] = ⊥
Holds plan (other ∷ plans) = (other ≡ plan) ⊎ Holds plan plans

pub data ProposalStep : Proposals → Proposals → Type 0 where
  propose :
      {plans : List TaskPlan} (plan : TaskPlan)
      → IsTaskPlan plan
      → ProposalStep (proposed plans) (proposed (plans ++ plan ∷ []))
  return_to :
      {plans : List TaskPlan} (plan : TaskPlan)
      → Holds plan plans
      → ProposalStep (proposed plans) (proposed (plans ++ plan ∷ []))
  agree : {plans : List TaskPlan} → ProposalStep (proposed plans) (agreed plans)
  stay : {p : Proposals} → ProposalStep p p

abbrev plans_of : List PlanRevision → List TaskPlan
plans_of [] = []
plans_of (revision ∷ revisions) = revision.plan ∷ plans_of revisions

abbrev proposals_for : Option ℕ → List TaskPlan → Proposals
proposals_for none plans = proposed plans
proposals_for (some n) plans = agreed plans

abbrev pub proposals_of : OrchestrationRun → Proposals
proposals_of run = proposals_for run.approved_plan_revision (plans_of run.plan_revisions)

plans_of-append :
    (revisions : List PlanRevision) (revision : PlanRevision)
    → plans_of (revisions ++ revision ∷ []) ≡ plans_of revisions ++ revision.plan ∷ []
plans_of-append [] revision = refl
plans_of-append (first ∷ revisions) revision = rw (plans_of-append revisions revision) refl

find_first-Holds :
    (p : PlanRevision → Bool) (revisions : List PlanRevision) (found : PlanRevision)
    → find_first p revisions ≡ some found
    → Holds found.plan (plans_of revisions)
find_first-Holds p [] found e = absurd (cc)
find_first-Holds p (revision ∷ revisions) found e = elim (Bool-cases (p revision)) [
  | inl q ↦ inl (ap (λ r. r.plan) (some-injective (rw q at e)))
  | inr q ↦ inr (find_first-Holds p revisions found (rw q at e))
]

Revises-plans :
    (run next : OrchestrationRun) (plan : TaskPlan) (limit : ℕ)
    → Revises run next plan limit
    → plans_of next.plan_revisions ≡ plans_of run.plan_revisions ++ plan ∷ []
Revises-plans run next plan limit (revision, appended, _, _, _, same) =
    ap plans_of appended
    ∙ plans_of-append run.plan_revisions revision
    ∙ ap (λ p. plans_of run.plan_revisions ++ p ∷ []) same

open_proposals :
    (run : OrchestrationRun)
    → run.approved_plan_revision ≡ none
    → proposals_of run ≡ proposed (plans_of run.plan_revisions)
open_proposals run h = rw h refl

-- A call that replaces the plan of a run that is not approved.
appended :
    (run next : OrchestrationRun) (plan : TaskPlan) (limit : ℕ)
    → run.approved_plan_revision ≡ none
    → next.approved_plan_revision ≡ none
    → Revises run next plan limit
    → IsTaskPlan plan ⊎ Holds plan (plans_of run.plan_revisions)
    → ProposalStep (proposals_of run) (proposals_of next)
appended run next plan limit before after revises known =
    rw (before, after, Revises-plans run next plan limit revises)
      (elim known [ inl valid ↦ propose plan valid | inr held ↦ return_to plan held ])

kept :
    (run next : OrchestrationRun)
    → next.approved_plan_revision ≡ run.approved_plan_revision
    → next.plan_revisions ≡ run.plan_revisions
    → ProposalStep (proposals_of run) (proposals_of next)
kept run next approval revisions = rw (approval, revisions) stay

approving :
    (run next : OrchestrationRun) (now : String) (expected : ℕ)
    → approve_run run now expected ≡ ok next
    → ProposalStep (proposals_of run) (proposals_of next)
approving run next now expected e =
    let (_, same) = approve_run-eq-ok run next now expected e in
    subst (λ (r : OrchestrationRun). ProposalStep (proposals_of run) (proposals_of r)) (sym same)
      (elim (Option-cases run.approved_plan_revision) [
        | inl q ↦ rw q agree
        | inr (n, q) ↦ rw q stay
      ])

recovering :
    (run next : OrchestrationRun) (now : String)
    → IsHistory run
    → recover_interrupted_run run now ≡ ok next
    → ProposalStep (proposals_of run) (proposals_of next)
unfolding recover_interrupted_run
recovering run next now h e = elim (Bool-cases (is_interrupted_run run)) [
  | inr q ↦
      let same : run ≡ next = ok-injective (rw (q, recover_interrupted_run) at e) in
      kept run next (sym (ap (λ r. r.approved_plan_revision) same))
        (sym (ap (λ r. r.plan_revisions) same))
  | inl q ↦
      let (_, _, _, _, revisions, approval) =
        reconciled-IsHistory (settled run now) next (rw (q, recover_interrupted_run) at e) (record {
          numbered = h.numbered;
          counted = h.counted;
          valid = h.valid;
          current = h.current;
          plan = h.plan;
        }) in
      kept run next approval revisions
]

module _ (digest_of : AuthorityEnvelope → String) where
  revising :
      (run next : OrchestrationRun) (input : ReviseRunPlanInput)
      → IsHistory run
      → revise_run_plan digest_of run input ≡ ok next
      → ProposalStep (proposals_of run) (proposals_of next)
  unfolding revise_run_plan
  revising run next input h e =
      let (done, editable, _) = bound {m = assert_plan_editable run} e in
      let before = assert_plan_editable-none run done editable in
      let (history, change, after) = revise_run_plan-IsHistory digest_of run next input h e in
      elim change [
        | inl same ↦
            kept run next (ap (λ r. r.approved_plan_revision) same)
              (ap (λ r. r.plan_revisions) same)
        | inr revises ↦ appended run next next.plan _ before after revises (inl history.plan)
      ]

  restoring :
      (run next : OrchestrationRun) (number expected : ℕ) (now : String)
      → IsHistory run
      → restore_run_plan_revision digest_of run number expected now ≡ ok next
      → ProposalStep (proposals_of run) (proposals_of next)
  unfolding restore_run_plan_revision
  restoring run next number expected now h e =
      let (done, editable, _) = bound {m = assert_plan_editable run} e in
      let before = assert_plan_editable-none run done editable in
      let (_, found, q, revises, after) =
        restore_run_plan_revision-IsHistory digest_of run next number expected now h e in
      appended run next found.plan _ before after revises
        (inr (find_first-Holds _ run.plan_revisions found q))

  Step-ProposalStep :
      {run next : OrchestrationRun}
      → Step digest_of run next
      → IsConducted run
      → ProposalStep (proposals_of run) (proposals_of next)
  Step-ProposalStep {run} {next} (revised input e) (h, _) = revising run next input h e
  Step-ProposalStep {run} {next} (restored number expected now e) (h, _) =
      restoring run next number expected now h e
  Step-ProposalStep {run} {next} (approved now expected e) c = approving run next now expected e
  Step-ProposalStep {run} {next} (recovered now e) (h, _) = recovering run next now h e

  -- Whatever the digest of an envelope is, a created run proposes its own plan, which is valid;
  -- and each call that returns, of revising, restoring, approving or recovering a run that was
  -- reached from it by such calls, either leaves the proposals and the agreement to them as they
  -- were, or the proposals were not agreed to and it adds a valid plan, adds one that was
  -- proposed before, or agrees to them.
  pub created-Reach-ProposalStep :
      (input : CreateRunInput) (run middle next : OrchestrationRun)
      → create_orchestration_run digest_of input ≡ ok run
      → Reach digest_of run middle
      → Step digest_of middle next
      → IsTaskPlan run.plan
        × (proposals_of run ≡ proposed (run.plan ∷ []))
        × ProposalStep (proposals_of middle) (proposals_of next)
  created-Reach-ProposalStep input run middle next e path s =
      let (history, unapproved, revision, revisions, same) =
        create_orchestration_run-IsHistory digest_of input run e in
      let agreed = unapproved_IsAgreed run unapproved in
      (
        history.plan,
        open_proposals run unapproved
            ∙ ap (λ l. proposed (plans_of l)) revisions
            ∙ ap (λ p. proposed (p ∷ [])) same,
        Step-ProposalStep s (Reach-IsConducted digest_of path (history, agreed)).0,
      )
