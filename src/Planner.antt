-- ===== src/Planner.antt =====
-- packages/agent_core/planner.py: the plan a run starts from.
pub mod Scope
pub mod Sanitize
pub mod Make
pub mod Kept
mod Tests
