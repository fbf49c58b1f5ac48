-- ===== src/Worker.antt =====
-- apps/worker/worker.py: the claim of a run, the continuation of an approved action, and the messages.
pub mod Store
pub mod Continue
pub mod System
pub mod Entry
mod Paid
mod Once
mod Consent
mod Approved
mod Lease
mod Recovery
mod Tests
