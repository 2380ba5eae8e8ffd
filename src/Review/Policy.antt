-- ===== src/Review/Policy.antt =====
-- src/review/review-policy.ts: which findings are repaired, and in which order.
pub mod Ranked
pub mod Order
pub mod Prioritized
use pi_build_conductor.Prelude.{
  ℕ, zero, suc, String, Bool, true, false, ◌&&◌, ◌||◌, List, [], ◌∷◌, map, filter, length, ltb,
  if◌then◌else◌, Option, none, some, Result, ok, err,
}

pub data ReviewCategory : Type 0 where
  correctness security maintainability tests documentation : ReviewCategory

pub data ReviewSeverity : Type 0 where
  critical high medium low : ReviewSeverity

pub data ReviewConfidence : Type 0 where
  high medium low : ReviewConfidence

pub data ReviewFindingStatus : Type 0 where
  repair_required deferred repaired unresolved : ReviewFindingStatus

pub record ReviewFinding : Type 0 where
  pub id : String
  pub category : ReviewCategory
  pub severity : ReviewSeverity
  pub confidence : ReviewConfidence
  pub title : String
  pub description : String
  pub paths : List String
  pub recommendation : String
  pub status : ReviewFindingStatus
  pub repair_attempt_id : Option String

-- `SEVERITY_ORDER`, `CONFIDENCE_ORDER` and `CATEGORY_ORDER`.
abbrev pub severity_order : ReviewSeverity → ℕ
severity_order ReviewSeverity.critical = 0
severity_order ReviewSeverity.high = 1
severity_order ReviewSeverity.medium = 2
severity_order ReviewSeverity.low = 3

abbrev pub confidence_order : ReviewConfidence → ℕ
confidence_order ReviewConfidence.high = 0
confidence_order ReviewConfidence.medium = 1
confidence_order ReviewConfidence.low = 2

abbrev pub category_order : ReviewCategory → ℕ
category_order correctness = 0
category_order security = 1
category_order maintainability = 2
category_order tests = 3
category_order documentation = 4

abbrev pub is_high_confidence : ReviewConfidence → Bool
is_high_confidence ReviewConfidence.high = true
is_high_confidence _ = false

abbrev pub requires_repair : ReviewSeverity → ReviewConfidence → Bool
requires_repair ReviewSeverity.critical confidence = true
requires_repair ReviewSeverity.high confidence = true
requires_repair ReviewSeverity.medium confidence = is_high_confidence confidence
requires_repair ReviewSeverity.low confidence = false

unfoldable pub requires_automatic_repair : ReviewFinding → Bool
requires_automatic_repair finding = requires_repair finding.severity finding.confidence

unfoldable pub with_status : ReviewFinding → ReviewFinding
unfolding requires_automatic_repair
with_status finding = record finding {
  status =
      if requires_automatic_repair finding
      then ReviewFindingStatus.repair_required
      else ReviewFindingStatus.deferred;
}

-- The sign of a comparator's result.
pub data Sign : Type 0 where
  negative nil positive : Sign

-- The sign of `left - right`.
unfoldable pub difference : ℕ → ℕ → Sign
difference left right =
    if ltb left right then negative else if ltb right left then positive else nil

-- `left || right` on comparator results: a result of 0 is falsy.
abbrev pub or_sign : Sign → Sign → Sign
or_sign nil right = right
or_sign left right = left

abbrev pub comes_later : Sign → Bool
comes_later negative = false
comes_later nil = false
comes_later positive = true

abbrev pub is_repair_required : ReviewFinding → Bool
is_repair_required finding = elim finding.status [
  | ReviewFindingStatus.repair_required ↦ true
  | ReviewFindingStatus.deferred ↦ false
  | ReviewFindingStatus.repaired ↦ false
  | ReviewFindingStatus.unresolved ↦ false
]

abbrev pub max_automatic_repairs : ℕ
max_automatic_repairs = 100

pub data PolicyError : Type 0 where
  too_many_repairs : PolicyError

-- `localeCompare`, which depends on the platform's locale, is a parameter.
module _ (locale_compare : String → String → Sign) where
  unfoldable pub compare_findings : ReviewFinding → ReviewFinding → Sign
  unfolding difference
  compare_findings left right =
      or_sign (difference (severity_order left.severity) (severity_order right.severity)) (
        or_sign (difference (confidence_order left.confidence) (confidence_order right.confidence))
          (or_sign (difference (category_order left.category) (category_order right.category))
            (locale_compare left.id right.id)))

  -- `sort`, which is stable: an element goes before those that are not before it.
  unfoldable pub insert_finding : ReviewFinding → List ReviewFinding → List ReviewFinding
  unfolding compare_findings
  insert_finding finding [] = finding ∷ []
  insert_finding finding (other ∷ findings) =
      let rest = insert_finding finding findings in
      if comes_later (compare_findings finding other)
      then other ∷ rest
      else finding ∷ other ∷ findings

  unfoldable pub sort_findings : List ReviewFinding → List ReviewFinding
  unfolding insert_finding
  sort_findings [] = []
  sort_findings (finding ∷ findings) = insert_finding finding (sort_findings findings)

  unfoldable pub prioritize_findings : List ReviewFinding → Result PolicyError (List ReviewFinding)
  unfolding with_status sort_findings
  prioritize_findings findings =
      let prioritized = sort_findings (map with_status findings) in
      if ltb max_automatic_repairs (length (filter is_repair_required prioritized))
      then err too_many_repairs
      else ok prioritized
