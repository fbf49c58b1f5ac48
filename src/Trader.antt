-- ===== src/Trader.antt =====
-- apps/earn/trader.py: the prices of the venue, the coherence edges, and the orders of one cycle.
pub mod Prices
pub mod Edges
pub mod Orders
mod Spend
mod Coherence
mod Fills
mod Tests
