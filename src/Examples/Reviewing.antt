-- ===== src/Examples/Reviewing.antt =====
-- Findings of two reviewers.
use pi_build_conductor.Prelude.{ℕ, suc, String, List, [], ◌∷◌, none, ◌<◌, ◌≡◌, ◌↔◌, refl, ok, err}
use pi_build_conductor.Review.Policy.{
  ReviewFinding, ReviewFindingStatus, ReviewSeverity, ReviewConfidence, security, Sign, difference,
  requires_automatic_repair, prioritize_findings, max_automatic_repairs, too_many_repairs,
}
use pi_build_conductor.Review.Policy.Order.{
  opposite, count_of, difference-opposite, prioritize_findings-err_iff,
}
use pi_build_conductor.Review.Policy.Prioritized.{IsPrioritized, prioritize_findings-IsPrioritized}

abbrev finding : String → ReviewSeverity → ReviewConfidence → ReviewFinding
finding id severity confidence = record {
  id = id;
  category = security;
  severity = severity;
  confidence = confidence;
  title = id;
  description = id;
  paths = [];
  recommendation = "fix it";
  status = ReviewFindingStatus.deferred;
  repair_attempt_id = none;
}

abbrev text_length : String → ℕ
text_length String.[] = 0
text_length (String.◌∷◌ c text) = suc (text_length text)

-- A locale in which a shorter text comes first.
abbrev by_length : String → String → Sign
by_length left right = difference (text_length left) (text_length right)

by_length-opposite : (a b : String) → by_length b a ≡ opposite (by_length a b)
by_length-opposite a b = difference-opposite (text_length a) (text_length b)

abbrev minor : ReviewFinding
minor = finding "minor" ReviewSeverity.medium ReviewConfidence.low

abbrev major : ReviewFinding
major = finding "major" ReviewSeverity.critical ReviewConfidence.low

-- It differs from `minor` by its id only.
abbrev tiny : ReviewFinding
tiny = finding "tiny" ReviewSeverity.medium ReviewConfidence.low

abbrev ordered : List ReviewFinding
ordered = record major { status = ReviewFindingStatus.repair_required } ∷ tiny ∷ minor ∷ []

ordered_findings : prioritize_findings by_length (minor ∷ tiny ∷ major ∷ []) ≡ ok ordered
unfolding prioritize_findings difference
ordered_findings = refl

prioritize_findings-IsPrioritized_example :
    IsPrioritized by_length (minor ∷ tiny ∷ major ∷ []) ordered
prioritize_findings-IsPrioritized_example =
    prioritize_findings-IsPrioritized by_length by_length-opposite (minor ∷ tiny ∷ major ∷ [])
      ordered ordered_findings

prioritize_findings-err_iff_example :
    (prioritize_findings by_length (minor ∷ tiny ∷ major ∷ []) ≡ err too_many_repairs)
    ↔ (max_automatic_repairs < count_of requires_automatic_repair (minor ∷ tiny ∷ major ∷ []))
prioritize_findings-err_iff_example =
    prioritize_findings-err_iff by_length (minor ∷ tiny ∷ major ∷ [])
