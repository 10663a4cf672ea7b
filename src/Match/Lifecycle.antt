-- ===== src/Match/Lifecycle.antt =====
-- The life of a Match task under any interleaving of its workers.
pub mod Moves
pub mod Refinement
pub mod Invariant
pub mod Runs
pub mod Created
pub mod Guarantees
pub mod Briefs
pub mod Reopened
pub mod Recovered
