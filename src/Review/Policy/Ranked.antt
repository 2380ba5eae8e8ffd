-- ===== src/Review/Policy/Ranked.antt =====
-- src/review/review-policy.ts: the ranks of findings, read off the order of the ratings.
use pi_build_conductor.Prelude.{String, true, false, List, [], ◌∷◌, ◌≡◌, ◌⊎◌, refl, inl, inr}
use pi_build_conductor.Review.Policy.{
  ReviewCategory, ReviewSeverity, ReviewConfidence, ReviewFindingStatus, ReviewFinding, correctness,
  security, maintainability, tests, documentation, Sign, difference, or_sign, severity_order,
  confidence_order, category_order, requires_repair, requires_automatic_repair, with_status,
  comes_later, compare_findings,
}

-- `x` stands in the list.
abbrev Among : {A : Type 0} → A → List A → Type 0
Among x [] = ⊥
Among x (z ∷ zs) = (z ≡ x) ⊎ Among x zs

-- `x` stands in the list, and `y` after it.
abbrev pub Earlier : {A : Type 0} → List A → A → A → Type 0
Earlier [] x y = ⊥
Earlier (z ∷ zs) x y = ((z ≡ x) × Among y zs) ⊎ Earlier zs x y

-- The most severe first.
abbrev pub severities : List ReviewSeverity
severities =
    ReviewSeverity.critical ∷ ReviewSeverity.high ∷ ReviewSeverity.medium ∷ ReviewSeverity.low ∷ []

-- The most certain first.
abbrev pub confidences : List ReviewConfidence
confidences = ReviewConfidence.high ∷ ReviewConfidence.medium ∷ ReviewConfidence.low ∷ []

-- `REVIEW_CATEGORIES`.
abbrev pub categories : List ReviewCategory
categories = correctness ∷ security ∷ maintainability ∷ tests ∷ documentation ∷ []

severity-ranked :
    (a b : ReviewSeverity) (rest : Sign)
    → comes_later (or_sign (difference (severity_order a) (severity_order b)) rest) ≡ false
    → Earlier severities a b ⊎ ((a ≡ b) × (comes_later rest ≡ false))
unfolding difference
severity-ranked ReviewSeverity.critical ReviewSeverity.critical rest h = inr (refl, h)
severity-ranked ReviewSeverity.critical ReviewSeverity.high rest h = inl (inl (refl, inl refl))
severity-ranked ReviewSeverity.critical ReviewSeverity.medium rest h =
    inl (inl (refl, inr (inl refl)))
severity-ranked ReviewSeverity.critical ReviewSeverity.low rest h =
    inl (inl (refl, inr (inr (inl refl))))
severity-ranked ReviewSeverity.high ReviewSeverity.critical rest h = absurd (cc)
severity-ranked ReviewSeverity.high ReviewSeverity.high rest h = inr (refl, h)
severity-ranked ReviewSeverity.high ReviewSeverity.medium rest h = inl (inr (inl (refl, inl refl)))
severity-ranked ReviewSeverity.high ReviewSeverity.low rest h =
    inl (inr (inl (refl, inr (inl refl))))
severity-ranked ReviewSeverity.medium ReviewSeverity.critical rest h = absurd (cc)
severity-ranked ReviewSeverity.medium ReviewSeverity.high rest h = absurd (cc)
severity-ranked ReviewSeverity.medium ReviewSeverity.medium rest h = inr (refl, h)
severity-ranked ReviewSeverity.medium ReviewSeverity.low rest h =
    inl (inr (inr (inl (refl, inl refl))))
severity-ranked ReviewSeverity.low ReviewSeverity.critical rest h = absurd (cc)
severity-ranked ReviewSeverity.low ReviewSeverity.high rest h = absurd (cc)
severity-ranked ReviewSeverity.low ReviewSeverity.medium rest h = absurd (cc)
severity-ranked ReviewSeverity.low ReviewSeverity.low rest h = inr (refl, h)

confidence-ranked :
    (a b : ReviewConfidence) (rest : Sign)
    → comes_later (or_sign (difference (confidence_order a) (confidence_order b)) rest) ≡ false
    → Earlier confidences a b ⊎ ((a ≡ b) × (comes_later rest ≡ false))
unfolding difference
confidence-ranked ReviewConfidence.high ReviewConfidence.high rest h = inr (refl, h)
confidence-ranked ReviewConfidence.high ReviewConfidence.medium rest h = inl (inl (refl, inl refl))
confidence-ranked ReviewConfidence.high ReviewConfidence.low rest h =
    inl (inl (refl, inr (inl refl)))
confidence-ranked ReviewConfidence.medium ReviewConfidence.high rest h = absurd (cc)
confidence-ranked ReviewConfidence.medium ReviewConfidence.medium rest h = inr (refl, h)
confidence-ranked ReviewConfidence.medium ReviewConfidence.low rest h =
    inl (inr (inl (refl, inl refl)))
confidence-ranked ReviewConfidence.low ReviewConfidence.high rest h = absurd (cc)
confidence-ranked ReviewConfidence.low ReviewConfidence.medium rest h = absurd (cc)
confidence-ranked ReviewConfidence.low ReviewConfidence.low rest h = inr (refl, h)

category-ranked :
    (a b : ReviewCategory) (rest : Sign)
    → comes_later (or_sign (difference (category_order a) (category_order b)) rest) ≡ false
    → Earlier categories a b ⊎ ((a ≡ b) × (comes_later rest ≡ false))
unfolding difference
category-ranked correctness correctness rest h = inr (refl, h)
category-ranked correctness security rest h = inl (inl (refl, inl refl))
category-ranked correctness maintainability rest h = inl (inl (refl, inr (inl refl)))
category-ranked correctness tests rest h = inl (inl (refl, inr (inr (inl refl))))
category-ranked correctness documentation rest h = inl (inl (refl, inr (inr (inr (inl refl)))))
category-ranked security correctness rest h = absurd (cc)
category-ranked security security rest h = inr (refl, h)
category-ranked security maintainability rest h = inl (inr (inl (refl, inl refl)))
category-ranked security tests rest h = inl (inr (inl (refl, inr (inl refl))))
category-ranked security documentation rest h = inl (inr (inl (refl, inr (inr (inl refl)))))
category-ranked maintainability correctness rest h = absurd (cc)
category-ranked maintainability security rest h = absurd (cc)
category-ranked maintainability maintainability rest h = inr (refl, h)
category-ranked maintainability tests rest h = inl (inr (inr (inl (refl, inl refl))))
category-ranked maintainability documentation rest h = inl (inr (inr (inl (refl, inr (inl refl)))))
category-ranked tests correctness rest h = absurd (cc)
category-ranked tests security rest h = absurd (cc)
category-ranked tests maintainability rest h = absurd (cc)
category-ranked tests tests rest h = inr (refl, h)
category-ranked tests documentation rest h = inl (inr (inr (inr (inl (refl, inl refl)))))
category-ranked documentation correctness rest h = absurd (cc)
category-ranked documentation security rest h = absurd (cc)
category-ranked documentation maintainability rest h = absurd (cc)
category-ranked documentation tests rest h = absurd (cc)
category-ranked documentation documentation rest h = inr (refl, h)

-- `x` may stand before `y`: it is more severe; or as severe and more certain; or both alike and of an
-- earlier category; or of the same one, and its id does not come after the other.
abbrev pub Precedes : (String → String → Sign) → ReviewFinding → ReviewFinding → Type 0
Precedes locale_compare x y =
    Earlier severities x.severity y.severity
    ⊎ ((x.severity ≡ y.severity)
        × (Earlier confidences x.confidence y.confidence
            ⊎ ((x.confidence ≡ y.confidence)
                × (Earlier categories x.category y.category
                    ⊎ ((x.category ≡ y.category)
                        × (comes_later (locale_compare x.id y.id) ≡ false))))))

pub compare_findings-Precedes :
    (locale_compare : String → String → Sign) (x y : ReviewFinding)
    → comes_later (compare_findings locale_compare x y) ≡ false
    → Precedes locale_compare x y
unfolding compare_findings
compare_findings-Precedes locale_compare x y h = elim (severity-ranked x.severity y.severity _ h) [
  | inl s ↦ inl s
  | inr (s, k) ↦ inr (
    s,
    elim (confidence-ranked x.confidence y.confidence _ k) [
      | inl c ↦ inl c
      | inr (c, l) ↦ inr (c, category-ranked x.category y.category _ l)
    ],
  )
]

-- What must be repaired: the two highest severities, and medium ones that are certain.
abbrev pub MustRepair : ReviewSeverity → ReviewConfidence → Type 0
MustRepair severity confidence =
    (severity ≡ ReviewSeverity.critical)
    ⊎ ((severity ≡ ReviewSeverity.high)
        ⊎ ((severity ≡ ReviewSeverity.medium) × (confidence ≡ ReviewConfidence.high)))

abbrev pub IsMarked : ReviewFinding → Type 0
IsMarked finding =
    (MustRepair finding.severity finding.confidence
      × (finding.status ≡ ReviewFindingStatus.repair_required))
    ⊎ ((¬ MustRepair finding.severity finding.confidence)
        × (finding.status ≡ ReviewFindingStatus.deferred))

mark :
    (severity : ReviewSeverity) (confidence : ReviewConfidence)
    → ((requires_repair severity confidence ≡ true) × MustRepair severity confidence)
      ⊎ ((requires_repair severity confidence ≡ false) × (¬ MustRepair severity confidence))
mark ReviewSeverity.critical confidence = inl (refl, inl refl)
mark ReviewSeverity.high confidence = inl (refl, inr (inl refl))
mark ReviewSeverity.medium ReviewConfidence.high = inl (refl, inr (inr (refl, refl)))
mark ReviewSeverity.medium ReviewConfidence.medium =
    inr (refl, λ m. elim m [ inl e ↦ cc | inr n ↦ elim n [ inl e ↦ cc | inr (e, c) ↦ cc ] ])
mark ReviewSeverity.medium ReviewConfidence.low =
    inr (refl, λ m. elim m [ inl e ↦ cc | inr n ↦ elim n [ inl e ↦ cc | inr (e, c) ↦ cc ] ])
mark ReviewSeverity.low confidence =
    inr (refl, λ m. elim m [ inl e ↦ cc | inr n ↦ elim n [ inl e ↦ cc | inr (e, c) ↦ cc ] ])

pub with_status-IsMarked : (finding : ReviewFinding) → IsMarked (with_status finding)
unfolding with_status requires_automatic_repair
with_status-IsMarked finding = elim (mark finding.severity finding.confidence) [
  | inl (q, m) ↦ inl (m, rw q refl)
  | inr (q, n) ↦ inr (n, rw q refl)
]
