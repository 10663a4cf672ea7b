-- ===== src/Outreach.antt =====
-- Outreach: the delivery of e-mail to matched Creators, and their responses.
pub mod Model
pub mod Constraints
pub mod Store
pub mod Responses
pub mod Batches
pub mod Metrics
pub mod RateLimit
pub mod Invariant
pub mod Once
pub mod Executor
mod Scenarios
