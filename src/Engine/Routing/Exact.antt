-- ===== src/Engine/Routing/Exact.antt =====
-- A plan of artifacts is accepted exactly when each declared output is produced once.
use pi_build_conductor.Prelude.{
  ℕ, String, Bool, true, false, not, ◌||◌, List, [], ◌∷◌, map, ◌≡◌, ◌↔◌, refl, arith, inl, inr, sym,
  ◌∙◌, includes, is_distinct, filter, length, eqb, All, ok, ok-injective, Bool-cases, string_eq,
  bound, eq_iff,
}
use pi_build_conductor.Domain.Steps.{StepDefinition}
use pi_build_conductor.Domain.Artifacts.{StepArtifactDraft}
use pi_build_conductor.Engine.Routing.{
  ArtifactWriteRequest, check_drafts, declared_outputs, plan_step_artifacts, write_request,
}

abbrev pub outputs_of : List StepArtifactDraft → List String
outputs_of [] = []
outputs_of (draft ∷ drafts) = draft.output ∷ outputs_of drafts

-- Every output is declared, none repeats, and every declared output is there.
pub record ProducesDeclared (declared outputs : List String) : Type 0 where
  pub declared_only : All (λ output. includes output declared ≡ true) outputs
  pub once : is_distinct outputs ≡ true
  pub complete : All (λ output. includes output outputs ≡ true) declared

-- None of `outputs` is among those already produced.
abbrev Fresh : List String → List String → Type 0
Fresh produced outputs = All (λ output. includes output produced ≡ false) outputs

Fresh-cons :
    (o : String) (produced outputs : List String)
    → includes o outputs ≡ false
    → Fresh produced outputs
    → Fresh (o ∷ produced) outputs
Fresh-cons o produced [] h f = tt
Fresh-cons o produced (x ∷ outputs) h f =
    (ground (arith, eq_iff o x, eq_iff x o, f.0), Fresh-cons o produced outputs (ground arith) f.1)

Fresh-uncons :
    (o : String) (produced outputs : List String)
    → Fresh (o ∷ produced) outputs
    → (includes o outputs ≡ false) × Fresh produced outputs
Fresh-uncons o produced [] f = (refl, tt)
Fresh-uncons o produced (x ∷ outputs) f =
    let (h, rest) = Fresh-uncons o produced outputs f.1 in
    (ground (arith, eq_iff o x, eq_iff x o, f.0), (ground (arith, f.0), rest))

nothing_produced : (outputs : List String) → Fresh [] outputs
nothing_produced [] = tt
nothing_produced (o ∷ outputs) = (refl, nothing_produced outputs)

module _ (step_id : String) (declared : List String) where
  check_drafts_sound :
      (produced : List String) (drafts : List StepArtifactDraft) (all_produced : List String)
      → check_drafts step_id declared produced drafts ≡ ok all_produced
      → All (λ output. includes output declared ≡ true) (outputs_of drafts)
        × (is_distinct (outputs_of drafts) ≡ true)
        × Fresh produced (outputs_of drafts)
        × ((o : String)
            → includes o all_produced ≡ (includes o produced || includes o (outputs_of drafts)))
  unfolding check_drafts
  check_drafts_sound produced [] p h = (tt, refl, tt, λ o. ground (arith, ok-injective h))
  check_drafts_sound produced (draft ∷ drafts) p h =
      let o = draft.output in
      let next : check_drafts step_id declared (o ∷ produced) drafts ≡ ok p = ground arith in
      let (a, d, f, m) = check_drafts_sound (o ∷ produced) drafts p next in
      let (n, f') = Fresh-uncons o produced (outputs_of drafts) f in
      ((ground arith, a), ground (arith, n, d), (ground arith, f'), λ x. ground (arith, m x))

  check_drafts_complete :
      (produced : List String) (drafts : List StepArtifactDraft)
      → All (λ output. includes output declared ≡ true) (outputs_of drafts)
      → is_distinct (outputs_of drafts) ≡ true
      → Fresh produced (outputs_of drafts)
      → (p : List String) × (check_drafts step_id declared produced drafts ≡ ok p)
        × ((o : String) → includes o p ≡ (includes o produced || includes o (outputs_of drafts)))
  unfolding check_drafts
  check_drafts_complete produced [] a d f = (produced, refl, λ o. ground arith)
  check_drafts_complete produced (draft ∷ drafts) a d f =
      let o = draft.output in
      let absent : includes o (outputs_of drafts) ≡ false = ground arith in
      let (p, e, m) =
        check_drafts_complete (o ∷ produced) drafts a.1 (ground arith)
          (Fresh-cons o produced (outputs_of drafts) absent f.1) in
      (p, ground (arith, a.0, f.0, e), λ x. ground (arith, m x))

empty_filter :
    {A : Type 0} (p : A → Bool) (xs : List A)
    → eqb (length (filter (λ x. not (p x)) xs)) 0 ≡ true
    → All (λ x. p x ≡ true) xs
empty_filter p [] h = tt
empty_filter p (x ∷ xs) h = elim (Bool-cases (p x)) [
  | inl e ↦ (e, empty_filter p xs (rw e at h))
  | inr e ↦ absurd (ground arith)
]

filter_empty :
    {A : Type 0} (p : A → Bool) (xs : List A)
    → All (λ x. p x ≡ true) xs
    → eqb (length (filter (λ x. not (p x)) xs)) 0 ≡ true
filter_empty p [] h = refl
filter_empty p (x ∷ xs) h = rw (h.0) (filter_empty p xs h.1)

All-cong :
    (p q : String → Bool) (xs : List String)
    → ((x : String) → p x ≡ q x)
    → All (λ x. p x ≡ true) xs
    → All (λ x. q x ≡ true) xs
All-cong p q [] h a = tt
All-cong p q (x ∷ xs) h a = (sym (h x) ∙ a.0, All-cong p q xs h a.1)

module _ (run_id : String) (step : StepDefinition) (attempt_number : ℕ)
    (drafts : List StepArtifactDraft) (requests : List ArtifactWriteRequest) where
  plan_sound :
      plan_step_artifacts run_id step attempt_number drafts ≡ ok requests
      → ProducesDeclared (declared_outputs step) (outputs_of drafts)
        × (requests ≡ map (write_request run_id step attempt_number) drafts)
  unfolding plan_step_artifacts
  plan_sound h =
      let (p, e, k) = bound {m = check_drafts step.id (declared_outputs step) [] drafts} h in
      let (a, d, f, m) = check_drafts_sound step.id (declared_outputs step) [] drafts p e in
      let done : eqb (length (filter (λ o. not (includes o p)) (declared_outputs step))) 0 ≡ true =
        ground arith in
      (
        record {
          declared_only = a;
          once = d;
          complete =
              All-cong (λ o. includes o p) (λ o. includes o (outputs_of drafts))
                (declared_outputs step) m
                (empty_filter (λ o. includes o p) (declared_outputs step) done);
        },
        sym (ok-injective (rw done at k)),
      )

  plan_complete :
      ProducesDeclared (declared_outputs step) (outputs_of drafts)
      → requests ≡ map (write_request run_id step attempt_number) drafts
      → plan_step_artifacts run_id step attempt_number drafts ≡ ok requests
  unfolding plan_step_artifacts
  plan_complete g e =
      let (p, c, m) =
        check_drafts_complete step.id (declared_outputs step) [] drafts g.declared_only g.once
          (nothing_produced (outputs_of drafts)) in
      let done : eqb (length (filter (λ o. not (includes o p)) (declared_outputs step))) 0 ≡ true =
        filter_empty (λ o. includes o p) (declared_outputs step)
          (All-cong (λ o. includes o (outputs_of drafts)) (λ o. includes o p)
            (declared_outputs step) (λ o. sym (m o)) g.complete) in
      rw c (rw done (rw e))

  -- The artifacts of a step are accepted, with one write request for each draft in order, exactly
  -- when every draft is for a declared output, no output repeats and no declared output is
  -- missing.
  pub plan_step_artifacts_iff :
      (plan_step_artifacts run_id step attempt_number drafts ≡ ok requests) ↔ (
        ProducesDeclared (declared_outputs step) (outputs_of drafts)
        × (requests ≡ map (write_request run_id step attempt_number) drafts))
  plan_step_artifacts_iff = (plan_sound, λ h. plan_complete h.0 h.1)
