-- ===== src/Review/Policy/Order.antt =====
-- src/review/review-policy.ts: the sorting of findings, and when there are too many of them.
use pi_build_conductor.Prelude.{
  ℕ, ◌<◌, String, Bool, true, false, List, [], ◌∷◌, map, filter, length, All, ltb, ltb→lt, lt→ltb,
  ◌≡◌, ◌↔◌, refl, sym, ◌∙◌, subst, arith, inl, inr, Bool-cases, err,
}
use pi_build_conductor.Review.Policy.{
  ReviewFinding, Sign, negative, nil, positive, difference, or_sign, severity_order,
  confidence_order, category_order, requires_automatic_repair, with_status, is_repair_required,
  compare_findings, comes_later, insert_finding, sort_findings, prioritize_findings,
  max_automatic_repairs, too_many_repairs,
}

-- How many findings pass a test.
abbrev pub count_of : (ReviewFinding → Bool) → List ReviewFinding → ℕ
count_of test findings = length (filter test findings)

-- The sign of the negated result.
abbrev pub opposite : Sign → Sign
opposite negative = positive
opposite nil = nil
opposite positive = negative

pub difference-opposite : (a b : ℕ) → difference b a ≡ opposite (difference a b)
unfolding difference
difference-opposite a b = elim (Bool-cases (ltb a b)) [
  | inl p ↦ let n : ltb b a ≡ false = ground arith in rw (p, n) refl
  | inr p ↦ elim (Bool-cases (ltb b a)) [ inl q ↦ rw (p, q) refl | inr q ↦ rw (p, q) refl ]
]

or_sign-opposite :
    (a b c d : Sign) → b ≡ opposite a → d ≡ opposite c → or_sign b d ≡ opposite (or_sign a c)
or_sign-opposite negative b c d e f = rw e refl
or_sign-opposite positive b c d e f = rw e refl
or_sign-opposite nil b c d e f = rw e f

later-opposite : (a b : Sign) → b ≡ opposite a → comes_later a ≡ true → comes_later b ≡ false
later-opposite negative b e h = absurd (cc)
later-opposite nil b e h = absurd (cc)
later-opposite positive b e h = rw e refl

count-with_status :
    (findings : List ReviewFinding)
    → count_of is_repair_required (map with_status findings)
      ≡ count_of requires_automatic_repair findings
unfolding with_status
count-with_status [] = refl
count-with_status (finding ∷ findings) = elim (Bool-cases (requires_automatic_repair finding)) [
  | inl q ↦ rw (q, count-with_status findings) refl
  | inr q ↦ rw (q, count-with_status findings) refl
]

module _ (locale_compare : String → String → Sign) where
  -- Each finding is not later than the one after it.
  abbrev pub Sorted : List ReviewFinding → Type 0
  Sorted [] = Unit
  Sorted (x ∷ []) = Unit
  Sorted (x ∷ y ∷ rest) =
      (comes_later (compare_findings locale_compare x y) ≡ false) × Sorted (y ∷ rest)

  count-insert_finding :
      (test : ReviewFinding → Bool) (finding : ReviewFinding) (findings : List ReviewFinding)
      → count_of test (insert_finding locale_compare finding findings)
        ≡ count_of test (finding ∷ findings)
  unfolding insert_finding
  count-insert_finding test finding [] = refl
  count-insert_finding test finding (other ∷ findings) =
      elim (Bool-cases (comes_later (compare_findings locale_compare finding other))) [
        | inl q ↦ rw q (ground (arith, count-insert_finding test finding findings))
        | inr q ↦ rw q refl
      ]

  pub count-sort_findings :
      (test : ReviewFinding → Bool) (findings : List ReviewFinding)
      → count_of test (sort_findings locale_compare findings) ≡ count_of test findings
  unfolding sort_findings
  count-sort_findings test [] = refl
  count-sort_findings test (finding ∷ findings) =
      count-insert_finding test finding (sort_findings locale_compare findings)
      ∙ ground (arith, count-sort_findings test findings)

  insert_finding-All :
      (P : ReviewFinding → Type 0) (finding : ReviewFinding) (findings : List ReviewFinding)
      → P finding
      → All P findings
      → All P (insert_finding locale_compare finding findings)
  unfolding insert_finding
  insert_finding-All P finding [] p h = (p, tt)
  insert_finding-All P finding (other ∷ findings) p h =
      elim (Bool-cases (comes_later (compare_findings locale_compare finding other))) [
        | inl q ↦ rw q (h.0, insert_finding-All P finding findings p h.1)
        | inr q ↦ rw q (p, h)
      ]

  pub sort_findings-All :
      (P : ReviewFinding → Type 0) (findings : List ReviewFinding)
      → All P findings
      → All P (sort_findings locale_compare findings)
  unfolding sort_findings
  sort_findings-All P [] h = tt
  sort_findings-All P (finding ∷ findings) h =
      insert_finding-All P finding (sort_findings locale_compare findings) h.0
        (sort_findings-All P findings h.1)

  module _
      (antisymmetric : (a b : String) → locale_compare b a ≡ opposite (locale_compare a b)) where
    compare_findings-opposite :
        (x y : ReviewFinding)
        → compare_findings locale_compare y x ≡ opposite (compare_findings locale_compare x y)
    unfolding compare_findings
    compare_findings-opposite x y =
        or_sign-opposite _ _ _ _
          (difference-opposite (severity_order x.severity) (severity_order y.severity))
          (or_sign-opposite _ _ _ _
            (difference-opposite (confidence_order x.confidence) (confidence_order y.confidence))
            (or_sign-opposite _ _ _ _
              (difference-opposite (category_order x.category) (category_order y.category))
              (antisymmetric x.id y.id)))

    not_later :
        (x y : ReviewFinding)
        → comes_later (compare_findings locale_compare x y) ≡ true
        → comes_later (compare_findings locale_compare y x) ≡ false
    not_later x y h = later-opposite _ _ (compare_findings-opposite x y) h

    insert_finding-Sorted_below :
        (x y : ReviewFinding) (findings : List ReviewFinding)
        → comes_later (compare_findings locale_compare y x) ≡ false
        → Sorted (y ∷ findings)
        → Sorted (y ∷ insert_finding locale_compare x findings)
    unfolding insert_finding
    insert_finding-Sorted_below x y [] n h = (n, tt)
    insert_finding-Sorted_below x y (z ∷ findings) n h =
        elim (Bool-cases (comes_later (compare_findings locale_compare x z))) [
          | inl q ↦ rw q (h.0, insert_finding-Sorted_below x z findings (not_later x z q) h.1)
          | inr q ↦ rw q (n, (q, h.1))
        ]

    insert_finding-Sorted :
        (x : ReviewFinding) (findings : List ReviewFinding)
        → Sorted findings
        → Sorted (insert_finding locale_compare x findings)
    unfolding insert_finding
    insert_finding-Sorted x [] h = tt
    insert_finding-Sorted x (y ∷ findings) h =
        elim (Bool-cases (comes_later (compare_findings locale_compare x y))) [
          | inl q ↦ rw q (insert_finding-Sorted_below x y findings (not_later x y q) h)
          | inr q ↦ rw q (q, h)
        ]

    pub sort_findings-Sorted :
        (findings : List ReviewFinding) → Sorted (sort_findings locale_compare findings)
    unfolding sort_findings
    sort_findings-Sorted [] = tt
    sort_findings-Sorted (finding ∷ findings) =
        insert_finding-Sorted finding (sort_findings locale_compare findings)
          (sort_findings-Sorted findings)

  -- Prioritizing fails exactly if more findings require automatic repair than are allowed.
  pub prioritize_findings-err_iff :
      (findings : List ReviewFinding)
      → (prioritize_findings locale_compare findings ≡ err too_many_repairs)
        ↔ (max_automatic_repairs < count_of requires_automatic_repair findings)
  unfolding prioritize_findings
  prioritize_findings-err_iff findings =
      let same =
        count-sort_findings is_repair_required (map with_status findings)
        ∙ count-with_status findings in
      elim (Bool-cases (
        ltb max_automatic_repairs (
          count_of is_repair_required (sort_findings locale_compare (map with_status findings))))) [
            | inl q ↦
                (λ h. subst (λ n. max_automatic_repairs < n) same (ltb→lt _ _ q), λ h. rw q refl)
            | inr q ↦ (
              λ h. absurd (let bad = rw (q, prioritize_findings) at h in cc),
              λ h. absurd (
                  let over = lt→ltb _ _ (subst (λ n. max_automatic_repairs < n) (sym same) h) in
                  cc),
            )
          ]
