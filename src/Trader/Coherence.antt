-- ===== src/Trader/Coherence.antt =====
-- When probe_coherence of apps/earn/trader.py reports no edge.
use lumi_observatory.Base.{ℕ, ◌+◌, ◌≤◌, ◌≡◌, Option, some}

-- where both prices are known, the first is at most the second, up to the least edge
abbrev pub AreNested : ℕ → Option ℕ → Option ℕ → Type 0
AreNested least a b = (p q : ℕ) → a ≡ some p → b ≡ some q → p ≤ q + least
