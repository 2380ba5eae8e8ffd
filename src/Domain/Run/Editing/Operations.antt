-- ===== src/Domain/Run/Editing/Operations.antt =====
-- src/domain/run.ts: what creating, revising and restoring do to the plan revisions.
use pi_build_conductor.Prelude.{
  ℕ, ◌+◌, String, Bool, true, false, not, ◌&&◌, [], ◌∷◌, ◌++◌, none, some, or_else, find_first,
  ◌==◌, nat_eq, eq_of_beq, ok, err, guard, bound, ok-injective, ◌≡◌, ◌⊎◌, refl, sym, ◌∙◌, subst,
  arith, inl, inr, Bool-cases, Option-cases,
}
use pi_build_conductor.Domain.Types.{TaskPlan}
use pi_build_conductor.Domain.TaskPlan.{validate_task_plan_result}
use pi_build_conductor.Domain.TaskPlan.Document.{task_plan_value}
use pi_build_conductor.Domain.TaskPlan.Valid.{IsTaskPlan}
use pi_build_conductor.Domain.TaskPlan.Accepted.{validate_task_plan_result-IsTaskPlan}
use pi_build_conductor.Security.Policy.{decline, legacy_security_policy}
use pi_build_conductor.Security.Envelope.{AuthorityEnvelope}
use pi_build_conductor.Domain.Run.{
  RunState, PlanRevision, edited, restored, OrchestrationRun, plan_eq,
}
use pi_build_conductor.Domain.Run.Authority.{
  RunError, stale_revision, plan_error, CreateRunInput, frozen_authority_for, not_awaiting_approval,
  not_editable, resources_exist, ReviseRunPlanInput, revised_authority_for,
}
use pi_build_conductor.Domain.Run.Lifecycle.{
  assert_plan_editable, assert_worker_limit, with_plan, create_orchestration_run, approve_run,
  is_awaiting_approval, is_editable, has_execution_resources, revise_run_plan,
  restore_run_plan_revision,
}
use pi_build_conductor.Domain.Run.Editing.{
  IsHistory, All-find_first, with_plan-IsHistory, plan_error-eq-ok, reconciled-IsHistory,
}

-- One revision more, with this plan and limit.
abbrev pub Revises : OrchestrationRun → OrchestrationRun → TaskPlan → ℕ → Type 0
Revises run next plan limit =
    (revision : PlanRevision) × (next.plan_revisions ≡ run.plan_revisions ++ revision ∷ [])
    × (next.plan_revision ≡ run.plan_revision + 1)
    × (next.plan ≡ plan)
    × (next.max_concurrent_workers ≡ limit)
    × (revision.plan ≡ plan)

-- An approval is of the revision that the run has.
abbrev pub IsAgreed : OrchestrationRun → Type 0
IsAgreed run = (n : ℕ) → run.approved_plan_revision ≡ some n → n ≡ run.plan_revision

guard-eq-ok : (test : Bool) (e : RunError) {done : Unit {0}} → guard test e ≡ ok done → test ≡ true
guard-eq-ok true e h = refl
guard-eq-ok false e h = absurd (cc)

-- Only a run that nobody approved is edited.
pub assert_plan_editable-none :
    (run : OrchestrationRun) (done : Unit {0})
    → assert_plan_editable run ≡ ok done
    → run.approved_plan_revision ≡ none
unfolding assert_plan_editable
assert_plan_editable-none run done e =
    let (_, _, e1) = bound {m = guard (is_editable run.state) not_editable} e in
    let unused = guard-eq-ok (not (has_execution_resources run)) resources_exist e1 in
    elim (Option-cases run.approved_plan_revision) [
      | inl q ↦ q
      | inr (n, q) ↦ absurd (let bad = rw (q, has_execution_resources) at unused in ground arith)
    ]

pub unapproved_IsAgreed :
    (run : OrchestrationRun) → run.approved_plan_revision ≡ none → IsAgreed run
unapproved_IsAgreed run h n e = absurd (cc)

module _ (digest_of : AuthorityEnvelope → String) where
  pub revise_run_plan-IsHistory :
      (run next : OrchestrationRun) (input : ReviseRunPlanInput)
      → IsHistory run
      → revise_run_plan digest_of run input ≡ ok next
      → IsHistory next
        × ((next ≡ run) ⊎ Revises run next next.plan input.max_concurrent_workers)
        × (next.approved_plan_revision ≡ none)
  unfolding revise_run_plan with_plan
  revise_run_plan-IsHistory run next input h e =
      let (done, editable, e1) = bound {m = assert_plan_editable run} e in
      let unapproved = assert_plan_editable-none run done editable in
      let (_, _, e2) =
        bound {m = guard (run.plan_revision == input.expected_plan_revision) stale_revision} e1 in
      let (_, _, e3) = bound {m = assert_worker_limit input.max_concurrent_workers} e2 in
      let (plan, read, e4) =
        bound {m = plan_error (validate_task_plan_result (task_plan_value input.plan))} e3 in
      let valid =
        validate_task_plan_result-IsTaskPlan (task_plan_value input.plan) plan
          (plan_error-eq-ok (validate_task_plan_result (task_plan_value input.plan)) plan read) in
      elim (Bool-cases
        (plan == run.plan && input.max_concurrent_workers == run.max_concurrent_workers)) [
          | inl q ↦
              let same : run ≡ next = ok-injective (rw q at e4) in
              (
                subst IsHistory same h,
                inl (sym same),
                subst (λ (r : OrchestrationRun). r.approved_plan_revision ≡ none) same unapproved,
              )
          | inr q ↦
              let (revised, _, last) =
                bound {m = revised_authority_for digest_of run plan} (rw q at e4) in
              let changed =
                with_plan run plan input.max_concurrent_workers revised edited none input.now in
              let (history, p, limit, number, revisions, approved) =
                reconciled-IsHistory changed next last (
                  with_plan-IsHistory run plan input.max_concurrent_workers revised edited none
                    input.now h valid) in
              (history, inr (_, revisions, number, refl, limit, sym p), approved ∙ unapproved)
        ]

  pub restore_run_plan_revision-IsHistory :
      (run next : OrchestrationRun) (number expected : ℕ) (now : String)
      → IsHistory run
      → restore_run_plan_revision digest_of run number expected now ≡ ok next
      → IsHistory next
        × (found : PlanRevision) × (find_first
              (λ revision. revision.number == number)
              run.plan_revisions
            ≡ some found)
        × Revises run next found.plan found.max_concurrent_workers
        × (next.approved_plan_revision ≡ none)
  unfolding restore_run_plan_revision with_plan
  restore_run_plan_revision-IsHistory run next number expected now h e =
      let (done, editable, e1) = bound {m = assert_plan_editable run} e in
      let unapproved = assert_plan_editable-none run done editable in
      let (_, _, e2) = bound {m = guard (run.plan_revision == expected) stale_revision} e1 in
      elim (Option-cases (find_first (λ revision. revision.number == number) run.plan_revisions)) [
        | inl q ↦ absurd (cc (rw q at e2))
        | inr (found, q) ↦
            let (revised, _, last) =
              bound {m = revised_authority_for digest_of run found.plan} (rw q at e2) in
            let valid =
              All-find_first (λ revision. IsTaskPlan revision.plan) _ run.plan_revisions found
                h.valid q in
            let changed =
              with_plan run found.plan found.max_concurrent_workers revised restored (some number)
                now in
            let (history, p, limit, count, revisions, approved) =
              reconciled-IsHistory changed next last (
                with_plan-IsHistory run found.plan found.max_concurrent_workers revised restored
                  (some number) now h valid) in
            (history, found, q, (_, revisions, count, p, limit, refl), approved ∙ unapproved)
      ]

  pub create_orchestration_run-IsHistory :
      (input : CreateRunInput) (run : OrchestrationRun)
      → create_orchestration_run digest_of input ≡ ok run
      → IsHistory run
        × (run.approved_plan_revision ≡ none)
        × (revision : PlanRevision) × (run.plan_revisions ≡ revision ∷ [])
        × (revision.plan ≡ run.plan)
  unfolding create_orchestration_run
  create_orchestration_run-IsHistory input run e =
      let (_, _, e1) = bound {m = assert_worker_limit input.max_concurrent_workers} e in
      let (plan, read, e2) =
        bound {m = plan_error (validate_task_plan_result (task_plan_value input.plan))} e1 in
      let policy = or_else input.security_policy (legacy_security_policy decline) in
      let (frozen, _, last) = bound {m = frozen_authority_for digest_of input plan policy} e2 in
      let valid =
        validate_task_plan_result-IsTaskPlan (task_plan_value input.plan) plan
          (plan_error-eq-ok (validate_task_plan_result (task_plan_value input.plan)) plan read) in
      let (history, same, _, _, revisions, approved) = reconciled-IsHistory _ run last (record {
        numbered = (refl, tt);
        counted = omega arith;
        valid = (valid, tt);
        current = ([], _, refl, refl, refl);
        plan = valid;
      }) in
      (history, approved, _, revisions, sym same)

pub approve_run-eq-ok :
    (run next : OrchestrationRun) (now : String) (expected : ℕ)
    → approve_run run now expected ≡ ok next
    → (run.plan_revision ≡ expected)
      × (next ≡ record run {
        state = RunState.running;
        approved_plan_revision = some run.plan_revision;
        approved_at = some now;
        updated_at = now;
      })
unfolding approve_run
approve_run-eq-ok run next now expected e =
    let (_, _, e1) = bound {m = guard (is_awaiting_approval run.state) not_awaiting_approval} e in
    let (done, fresh, last) = bound {m = guard (run.plan_revision == expected) stale_revision} e1 in
    (
      eq_of_beq run.plan_revision expected (guard-eq-ok _ stale_revision fresh),
      sym (ok-injective last),
    )

-- A run that executes cannot change its plan any more.
pub running_not_editable :
    (digest_of : AuthorityEnvelope → String) (run : OrchestrationRun) (input : ReviseRunPlanInput)
    (number expected : ℕ) (now : String)
    → run.state ≡ RunState.running
    → (revise_run_plan digest_of run input ≡ err not_editable)
      × (restore_run_plan_revision digest_of run number expected now ≡ err not_editable)
unfolding revise_run_plan restore_run_plan_revision assert_plan_editable
running_not_editable digest_of run input number expected now h = (rw h refl, rw h refl)
