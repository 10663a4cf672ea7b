-- ===== src/Jobs.antt =====
-- Analysis Jobs: the contract of a Job's row, the transitions of a Job, and how Jobs are made.
pub mod Model
pub mod Contract
pub mod Transitions
pub mod Creation
pub mod Retry
mod Scenarios
