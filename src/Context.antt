-- ===== src/Context.antt =====
-- packages/context_engine/assembler.py: the layers of a prompt within a token budget.
pub mod Segment
pub mod Assemble
pub mod Arrange
pub mod Budget
mod Tests
