-- ===== src/Coordinator.antt =====
-- packages/agent_core/coordinator.py and verifier.py: one run of a plan, its limits and its verdict.
pub mod State
pub mod Verifier
pub mod Turn
pub mod Run
pub mod Gate
pub mod Complete
pub mod Limits
mod Counted
pub mod Verdict
mod Tests
