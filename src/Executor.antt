-- ===== src/Executor.antt =====
-- packages/agent_core/executor.py: the registry that a tool call goes through.
pub mod Registry
mod Checked
mod Sync
mod Tests
