-- ===== src/Domain/Run/Editing/Undo.antt =====
-- src/domain/run.ts: restoring takes a revision back.
use pi_build_conductor.Prelude.{
  ℕ, ◌+◌, String, List, [], ◌∷◌, ◌++◌, append_assoc, some, find_first, length, length-append, ◌==◌,
  nat_eq, ok, some-injective, ◌≡◌, ◌⊎◌, sym, ap, ◌∙◌, subst, arith, inl, inr,
}
use pi_build_conductor.Domain.Types.{TaskPlan}
use pi_build_conductor.Security.Envelope.{AuthorityEnvelope}
use pi_build_conductor.Domain.Run.{PlanRevision, OrchestrationRun, plan_eq}
use pi_build_conductor.Domain.Run.Authority.{ReviseRunPlanInput}
use pi_build_conductor.Domain.Run.Lifecycle.{revise_run_plan, restore_run_plan_revision}
use pi_build_conductor.Domain.Run.Editing.{Numbered, IsHistory, find_first-Numbered}
use pi_build_conductor.Domain.Run.Editing.Operations.{
  Revises, revise_run_plan-IsHistory, restore_run_plan_revision-IsHistory,
}

found_current :
    (n : ℕ) (revisions earlier : List PlanRevision) (current : PlanRevision)
    (later : List PlanRevision) (found : PlanRevision)
    → revisions ≡ earlier ++ current ∷ later
    → Numbered 1 revisions
    → n ≡ 1 + length earlier
    → find_first (λ revision. revision.number == n) revisions ≡ some found
    → found ≡ current
found_current n revisions earlier current later found same numbered number q = some-injective (
    sym (rw (same, number) at q)
    ∙ find_first-Numbered 1 earlier current later (subst (Numbered 1) same numbered))

-- The current revision of a run stays where it is.
abbrev Locates : OrchestrationRun → List PlanRevision → PlanRevision → Type 0
Locates next earlier current =
    (later : List PlanRevision) × (next.plan_revisions ≡ earlier ++ current ∷ later)

Revises-Locates :
    (run next : OrchestrationRun) (plan : TaskPlan) (limit : ℕ) (earlier : List PlanRevision)
    (current : PlanRevision)
    → run.plan_revisions ≡ earlier ++ current ∷ []
    → (next ≡ run) ⊎ Revises run next plan limit
    → Locates next earlier current
Revises-Locates run next plan limit earlier current ends (inl same) =
    ([], ap (λ r. r.plan_revisions) same ∙ ends)
Revises-Locates run next plan limit earlier current ends (inr (revision, appended, _, _, _, _)) = (
  revision ∷ [],
  appended
      ∙ ap (λ l. l ++ revision ∷ []) ends
      ∙ append_assoc earlier (current ∷ []) (revision ∷ []),
)

module _ (digest_of : AuthorityEnvelope → String) where
  -- If a run has a numbered history of valid plans, and a revision of its plan is followed by
  -- restoring the number that the run had before, the plan and the worker limit are those from
  -- before the revision.
  pub restore_run_plan_revision-revise_run_plan :
      (run next last : OrchestrationRun) (input : ReviseRunPlanInput) (expected : ℕ) (now : String)
      → IsHistory run
      → revise_run_plan digest_of run input ≡ ok next
      → restore_run_plan_revision digest_of next run.plan_revision expected now ≡ ok last
      → (last.plan ≡ run.plan) × (last.max_concurrent_workers ≡ run.max_concurrent_workers)
  restore_run_plan_revision-revise_run_plan run next last input expected now h e r =
      let (history, change, _) = revise_run_plan-IsHistory digest_of run next input h e in
      let (_, found, q, (_, _, _, plan, limit, _), _) =
        restore_run_plan_revision-IsHistory digest_of next last run.plan_revision expected now
          history r in
      let (earlier, current, ends, same_plan, same_limit) = h.current in
      let (later, located) =
        Revises-Locates run next next.plan input.max_concurrent_workers earlier current ends
          change in
      let number : run.plan_revision ≡ 1 + length earlier =
        omega (arith, h.counted, ap length ends, length-append {0} earlier (current ∷ [])) in
      let holds =
        found_current run.plan_revision next.plan_revisions earlier current later found located
          history.numbered number q in
      (
        plan ∙ ap (λ x. x.plan) holds ∙ same_plan,
        limit ∙ ap (λ x. x.max_concurrent_workers) holds ∙ same_limit,
      )
