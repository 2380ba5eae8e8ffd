-- ===== src/Engine/Scheduler/Reconcile/Recomputed.antt =====
-- Reconciliation recomputes the state of waiting steps and changes nothing else.
use pi_build_conductor.Prelude.{
  String, true, ◌||◌, List, [], ◌∷◌, Option, none, some, Dict, get, ◌≡◌, refl, sym, ◌∙◌, subst,
  arith, inl, inr, Bool-cases, ◌==◌, string_eq,
}
use pi_build_conductor.Domain.Types.{RunCapabilityProfiles}
use pi_build_conductor.Engine.State.{StepRunState, is_terminal_step_state, WorkflowStepRecord}
use pi_build_conductor.Engine.Scheduler.{is_running, next_step_state, reconcile_one, reconcile_ids}
use pi_build_conductor.Engine.Scheduler.Reconcile.{next_entry, get-reconcile_one}

module _ (profiles : RunCapabilityProfiles) where
  -- `after` is `before`, with the state of a step that neither runs nor has ended recomputed.
  abbrev pub Recomputed : Option WorkflowStepRecord → Option WorkflowStepRecord → Type 0
  Recomputed none after = after ≡ none
  Recomputed (some step) after =
      (state : StepRunState) × (after ≡ some (record step { state = state }))
      × ((is_running step.state || is_terminal_step_state step.state) ≡ true → state ≡ step.state)
      × (is_running state ≡ is_running step.state)

  next_entry-Recomputed :
      (steps : Dict WorkflowStepRecord) (o : Option WorkflowStepRecord)
      → Recomputed o (next_entry profiles steps o)
  unfolding next_step_state
  next_entry-Recomputed steps none = refl
  next_entry-Recomputed steps (some step) =
      (next_step_state profiles step steps, refl, ground arith, ground arith)

  Recomputed-refl : (o : Option WorkflowStepRecord) → Recomputed o o
  Recomputed-refl none = refl
  Recomputed-refl (some step) = (step.state, refl, λ h. refl, refl)

  Recomputed-trans :
      (a b c : Option WorkflowStepRecord) → Recomputed a b → Recomputed b c → Recomputed a c
  Recomputed-trans none b c h k = subst (λ o. Recomputed o c) h k
  Recomputed-trans (some step) b c (s, e, keep, run) k =
      let (t, e', keep', run') = subst (λ o. Recomputed o c) e k in
      (t, e', λ h. keep' (rw (keep h) h) ∙ keep h, run' ∙ run)

  reconcile_one-Recomputed :
      (id j : String) (steps : Dict WorkflowStepRecord)
      → Recomputed (get j steps) (get j (reconcile_one profiles id steps))
  reconcile_one-Recomputed id j steps = elim (Bool-cases (id == j)) [
    | inl q ↦
        subst (λ o. Recomputed (get j steps) o) (sym (get-reconcile_one profiles id j steps))
          (rw q (next_entry-Recomputed steps (get j steps)))
    | inr q ↦
        subst (λ o. Recomputed (get j steps) o) (sym (get-reconcile_one profiles id j steps))
          (rw q (Recomputed-refl (get j steps)))
  ]

  -- Each step keeps its definition, its attempts and its integration; a running or finished step
  -- keeps its state too, and no other step starts to run.
  pub reconcile_ids-Recomputed :
      (ids : List String) (j : String) (steps : Dict WorkflowStepRecord)
      → Recomputed (get j steps) (get j (reconcile_ids profiles ids steps))
  unfolding reconcile_ids
  reconcile_ids-Recomputed [] j steps = Recomputed-refl (get j steps)
  reconcile_ids-Recomputed (id ∷ ids) j steps =
      let next = reconcile_one profiles id steps in
      Recomputed-trans (get j steps) (get j next) (get j (reconcile_ids profiles ids next))
        (reconcile_one-Recomputed id j steps) (reconcile_ids-Recomputed ids j next)
