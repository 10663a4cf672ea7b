-- ===== src/Match/Pairwise.antt =====
-- Durable pairwise comparisons (backend/app/matching/pairwise.py).
pub mod Brief
pub mod Failure
pub mod Aggregate
pub mod Claim
pub mod Apply
pub mod Service
