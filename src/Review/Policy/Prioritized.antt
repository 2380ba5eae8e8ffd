-- ===== src/Review/Policy/Prioritized.antt =====
-- src/review/review-policy.ts: the prioritized findings.
use pi_build_conductor.Prelude.{
  ◌≤◌, String, Bool, List, [], ◌∷◌, map, ltb, ◌≡◌, refl, ◌∙◌, subst, arith, inl, inr, Bool-cases,
  All, ok, ok-injective,
}
use pi_build_conductor.Review.Policy.{
  ReviewFinding, ReviewFindingStatus, Sign, with_status, is_repair_required, sort_findings,
  prioritize_findings, max_automatic_repairs,
}
use pi_build_conductor.Review.Policy.Ranked.{
  Precedes, compare_findings-Precedes, IsMarked, with_status-IsMarked,
}
use pi_build_conductor.Review.Policy.Order.{
  count_of, opposite, Sorted, count-sort_findings, sort_findings-Sorted, sort_findings-All,
}

-- A finding without its status.
abbrev pub unmarked : ReviewFinding → ReviewFinding
unmarked finding = record finding { status = ReviewFindingStatus.deferred }

count-unmarked :
    (test : ReviewFinding → Bool) (findings : List ReviewFinding)
    → count_of (λ f. test (unmarked f)) (map with_status findings)
      ≡ count_of (λ f. test (unmarked f)) findings
unfolding with_status
count-unmarked test [] = refl
count-unmarked test (finding ∷ findings) = elim (Bool-cases (test (unmarked finding))) [
  | inl q ↦ rw (q, count-unmarked test findings) refl
  | inr q ↦ rw (q, count-unmarked test findings) refl
]

marked : (findings : List ReviewFinding) → All IsMarked (map with_status findings)
marked [] = tt
marked (finding ∷ findings) = (with_status-IsMarked finding, marked findings)

module _ (locale_compare : String → String → Sign) where
  -- Each finding precedes the one after it.
  abbrev pub Ranked : List ReviewFinding → Type 0
  Ranked [] = Unit
  Ranked (x ∷ []) = Unit
  Ranked (x ∷ y ∷ rest) = Precedes locale_compare x y × Ranked (y ∷ rest)

  Sorted-Ranked : (findings : List ReviewFinding) → Sorted locale_compare findings → Ranked findings
  Sorted-Ranked [] h = tt
  Sorted-Ranked (x ∷ []) h = tt
  Sorted-Ranked (x ∷ y ∷ rest) h =
      (compare_findings-Precedes locale_compare x y h.0, Sorted-Ranked (y ∷ rest) h.1)

  -- What the policy promises: findings by rank, each with the status that its ratings ask for, apart
  -- from the status the same ones as before, and few enough to repair.
  pub record IsPrioritized (findings prioritized : List ReviewFinding) : Type 0 where
    pub ranked : Ranked prioritized
    pub statuses : All IsMarked prioritized
    pub same_findings :
        (test : ReviewFinding → Bool)
        → count_of (λ f. test (unmarked f)) prioritized ≡ count_of (λ f. test (unmarked f)) findings
    pub bounded : count_of is_repair_required prioritized ≤ max_automatic_repairs

  module _
      (antisymmetric : (a b : String) → locale_compare b a ≡ opposite (locale_compare a b)) where
    -- If comparing two ids in the other direction gives the opposite sign, and findings are
    -- prioritized without an error, each finding of the result is more severe than the next one,
    -- or as severe and more certain, or alike in both and of an earlier category, or alike in all
    -- three and of an id that does not come later; a critical or high finding, and a medium one
    -- of high confidence, is to be repaired and every other is deferred; at most the allowed
    -- number is to be repaired; and apart from their statuses the findings are those of the
    -- input, each as often as there.
    pub prioritize_findings-IsPrioritized :
        (findings prioritized : List ReviewFinding)
        → prioritize_findings locale_compare findings ≡ ok prioritized
        → IsPrioritized findings prioritized
    unfolding prioritize_findings
    prioritize_findings-IsPrioritized findings prioritized h =
        let all = map with_status findings in
        let sorted = sort_findings locale_compare all in
        elim (Bool-cases (ltb max_automatic_repairs (count_of is_repair_required sorted))) [
          | inl q ↦ absurd (let bad = rw (q, prioritize_findings) at h in cc)
          | inr q ↦
              subst (IsPrioritized findings) (ok-injective (rw (q, prioritize_findings) at h))
                (record {
                  ranked =
                      Sorted-Ranked sorted (sort_findings-Sorted locale_compare antisymmetric all);
                  statuses = sort_findings-All locale_compare IsMarked all (marked findings);
                  same_findings = λ test.
                      count-sort_findings locale_compare (λ f. test (unmarked f)) all
                      ∙ count-unmarked test findings;
                  bounded = ground arith;
                })
        ]
