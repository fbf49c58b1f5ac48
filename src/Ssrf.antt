-- ===== src/Ssrf.antt =====
-- packages/connectors/ssrf.py: which addresses an outgoing request may reach.
pub mod Address
mod Ranges
pub mod Host
pub mod Connect
mod Clean
mod Pinned
mod Validated
pub mod Fetch
mod Hops
mod Tests
