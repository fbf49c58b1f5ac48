-- ===== src/Compute.antt =====
-- apps/earn/flop_compute.py: the compute-spend lane, its budget, its client and its ledger.
pub mod Budget
pub mod Client
pub mod Spend
pub mod Ledger
pub mod Loop
pub mod Cleared
pub mod Report
mod Counts
pub mod Bound
pub mod Bought
mod Tests
