-- ===== src/Match/Worker.antt =====
-- The store of the Match worker (backend/app/workers/match_tasks.py).
pub mod Codes
pub mod Prepare
pub mod Fail
pub mod Enqueue
pub mod Handler
pub mod Handling
pub mod Executor
