-- ===== src/Policy.antt =====
-- packages/policy: the decision on a tool call, and the approvals of the calls that need one.
pub mod Engine
pub mod Floor
pub mod Records
pub mod Service
pub mod Once
pub mod Trace
pub mod Decided
pub mod Abstract
mod Refine
mod Tests
