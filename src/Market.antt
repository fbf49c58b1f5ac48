-- ===== src/Market.antt =====
-- packages/connectors/tclk.py: the gates on an incoming offer of the task market.
pub mod Offer
pub mod Gate
pub mod Audit
pub mod Structure
pub mod Ref
pub mod Wire
pub mod Canonical
mod Order
mod Trip
mod Tests
