-- ===== src/Domain.antt =====
-- The domain model: the data that the other parts share.
pub mod Types
pub mod Steps
pub mod Graph
pub mod Artifacts
pub mod Json
pub mod Text
pub mod Reading
pub mod TaskPlan
pub mod StepPlan
pub mod Translation
pub mod Run
