-- ===== src/Scheduler.antt =====
-- apps/scheduler/scheduler.py: the publishing of the outbox and the recovery of stuck runs.
pub mod Outbox
pub mod Stuck
mod Published
mod Blocked
mod Retries
mod Tests
