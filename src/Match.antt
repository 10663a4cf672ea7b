-- ===== src/Match.antt =====
-- The Match pipeline: screening, pairwise comparison, ranking and publication.
pub mod Model
pub mod Constraints
pub mod Pairwise
pub mod Worker
pub mod Ranking
pub mod Creation
pub mod Screening
pub mod Retention
pub mod Lifecycle
mod Scenarios
