-- ===== src/Review.antt =====
-- src/review: what becomes of the findings of reviewers.
pub mod Policy
