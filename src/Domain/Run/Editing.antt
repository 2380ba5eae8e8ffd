-- ===== src/Domain/Run/Editing.antt =====
-- src/domain/run.ts: the plan revisions of a run.
pub mod Operations
pub mod Traces
pub mod Agreed
pub mod Undo
use pi_build_conductor.Prelude.{
  ℕ, suc, ◌+◌, ◌<◌, String, Bool, true, false, not, ◌&&◌, List, [], ◌∷◌, ◌++◌, append_assoc, Option,
  none, some, Dict, find_first, length, length-append, eqb, All, All-append, if◌then◌else◌, ◌==◌,
  nat_eq, Result, ok, err, ◌>>=◌, ◌>>◌, guard, bound, ok-injective, some-injective, ◌≡◌, ◌≢◌, ◌⊎◌,
  refl, sym, ap, ◌∙◌, subst, arith, inl, inr, Bool-cases, Option-cases,
}
use pi_build_conductor.Domain.Types.{TaskPlan}
use pi_build_conductor.Domain.Reading.{PlanValidationIssue}
use pi_build_conductor.Domain.TaskPlan.{validate_task_plan_result}
use pi_build_conductor.Domain.TaskPlan.Document.{task_plan_value}
use pi_build_conductor.Domain.TaskPlan.Valid.{IsTaskPlan}
use pi_build_conductor.Domain.TaskPlan.Accepted.{validate_task_plan_result-IsTaskPlan}
use pi_build_conductor.Security.Envelope.{FrozenAuthority}
use pi_build_conductor.Security.Envelope.{AuthorityEnvelope}
use pi_build_conductor.Domain.Run.{
  PlanRevision, PlanRevisionSource, edited, restored, OrchestrationRun, plan_eq,
}
use pi_build_conductor.Domain.Run.Scheduling.{reconcile_ids, reconcile_task_states}
use pi_build_conductor.Domain.Run.Scheduling.Reconcile.{plan_order, reconcile_task_states-valid}
use pi_build_conductor.Domain.Run.Authority.{
  RunError, stale_revision, unknown_revision, plan_error, ReviseRunPlanInput, revised_authority_for,
}
use pi_build_conductor.Domain.Run.Lifecycle.{
  assert_plan_editable, assert_worker_limit, with_plan, revise_run_plan, restore_run_plan_revision,
}

-- The revisions are numbered in order.
abbrev pub Numbered : ℕ → List PlanRevision → Type 0
Numbered n [] = Unit
Numbered n (revision ∷ revisions) = (revision.number ≡ n) × Numbered (suc n) revisions

-- The last revision holds this plan and this worker limit.
abbrev pub EndsWith : TaskPlan → ℕ → List PlanRevision → Type 0
EndsWith plan limit revisions =
    (earlier : List PlanRevision) × (current : PlanRevision) × (revisions ≡ earlier ++ current ∷ [])
    × (current.plan ≡ plan)
    × (current.max_concurrent_workers ≡ limit)

-- The history of plans that a run keeps.
pub record IsHistory (run : OrchestrationRun) : Type 0 where
  pub numbered : Numbered 1 run.plan_revisions
  pub counted : run.plan_revision ≡ length run.plan_revisions
  pub valid : All (λ revision. IsTaskPlan revision.plan) run.plan_revisions
  pub current : EndsWith run.plan run.max_concurrent_workers run.plan_revisions
  pub plan : IsTaskPlan run.plan

Numbered-append :
    (n : ℕ) (revisions : List PlanRevision) (last : PlanRevision)
    → Numbered n revisions
    → last.number ≡ n + length revisions
    → Numbered n (revisions ++ last ∷ [])
Numbered-append n [] last h e = (omega arith, tt)
Numbered-append n (revision ∷ revisions) last h e =
    (h.0, Numbered-append (suc n) revisions last h.1 (omega arith))

pub find_first-Numbered :
    (n : ℕ) (earlier : List PlanRevision) (current : PlanRevision) (later : List PlanRevision)
    → Numbered n (earlier ++ current ∷ later)
    → find_first (λ revision. revision.number == n + length earlier) (earlier ++ current ∷ later)
      ≡ some current
find_first-Numbered n [] current later h = ground arith
find_first-Numbered n (revision ∷ earlier) current later h =
    ground (arith, find_first-Numbered (suc n) earlier current later h.1)

pub All-find_first :
    {A : Type 0} (P : A → Type 0) (p : A → Bool) (xs : List A) (x : A)
    → All P xs
    → find_first p xs ≡ some x
    → P x
All-find_first P p [] x h found = absurd (cc)
All-find_first P p (y ∷ xs) x h found = elim (Bool-cases (p y)) [
  | inl q ↦ subst P (some-injective (rw q at found)) h.0
  | inr q ↦ All-find_first P p xs x h.1 (rw q at found)
]

pub with_plan-IsHistory :
    (run : OrchestrationRun) (plan : TaskPlan) (limit : ℕ) (authority : Option FrozenAuthority)
    (source : PlanRevisionSource) (from : Option ℕ) (now : String)
    → IsHistory run
    → IsTaskPlan plan
    → IsHistory (with_plan run plan limit authority source from now)
unfolding with_plan
with_plan-IsHistory run plan limit authority source from now h valid = record {
  numbered = Numbered-append 1 run.plan_revisions _ h.numbered (omega (arith, h.counted));
  counted = omega (arith, h.counted, length-append {0} run.plan_revisions (_ ∷ []));
  valid =
      All-append (λ revision. IsTaskPlan revision.plan) run.plan_revisions _ h.valid (valid, tt);
  current = (run.plan_revisions, _, refl, refl, refl);
  plan = valid;
}

pub plan_error-eq-ok :
    {A : Type 0} (r : Result (List PlanValidationIssue) A) (a : A) → plan_error r ≡ ok a → r ≡ ok a
plan_error-eq-ok (ok b) a h = ap ok (ok-injective h)
plan_error-eq-ok (err issues) a h = absurd (cc)

-- Reconciling a run changes nothing of its history.
pub reconciled-IsHistory :
    (run next : OrchestrationRun)
    → plan_error (reconcile_task_states run) ≡ ok next
    → IsHistory run
    → IsHistory next
      × (next.plan ≡ run.plan)
      × (next.max_concurrent_workers ≡ run.max_concurrent_workers)
      × (next.plan_revision ≡ run.plan_revision)
      × (next.plan_revisions ≡ run.plan_revisions)
      × (next.approved_plan_revision ≡ run.approved_plan_revision)
reconciled-IsHistory run next e h =
    let same = ok-injective (
      sym (reconcile_task_states-valid run h.plan)
      ∙ plan_error-eq-ok (reconcile_task_states run) next e) in
    subst
      (λ (r : OrchestrationRun).
        IsHistory r
        × (r.plan ≡ run.plan)
        × (r.max_concurrent_workers ≡ run.max_concurrent_workers)
        × (r.plan_revision ≡ run.plan_revision)
        × (r.plan_revisions ≡ run.plan_revisions)
        × (r.approved_plan_revision ≡ run.approved_plan_revision))
      same
      (
        record {
          numbered = h.numbered;
          counted = h.counted;
          valid = h.valid;
          current = h.current;
          plan = h.plan;
        },
        refl,
        refl,
        refl,
        refl,
        refl,
      )
