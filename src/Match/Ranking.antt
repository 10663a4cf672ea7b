-- ===== src/Match/Ranking.antt =====
-- Final ranking and its atomic publication (backend/app/matching/ranking.py).
pub mod Output
pub mod Bounds
pub mod Inputs
pub mod Sound
pub mod Publication
