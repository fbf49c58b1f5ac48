-- ===== src/Fold.antt =====
-- apps/scheduler/br_fold.py: the fold of a tclk/1 transcript, one record at a time.
pub mod Json
pub mod Pattern
pub mod Reason
pub mod Frame
pub mod Machine
pub mod Run
pub mod Inv
pub mod Guards
pub mod Refusal
pub mod Replay
mod Caught
pub mod Crash
pub mod Deal
pub mod Final
mod Tests
