-- ===== src/Trader/Edges.antt =====
-- probe_coherence of apps/earn/trader.py: the edges between markets whose rules nest.
use lumi_observatory.Base.{
  ℕ, ◌+◌, ◌-◌, ltb, String, List, [], ◌∷◌, ◌++◌, Option, none, some, if◌then◌else◌,
}
use lumi_observatory.Base.Text.{◌=ₛ◌}
use lumi_observatory.Trader.Prices.{Market, Outcome, yes, first, price_of}

pub record Edge : Type 0 where
  pub market : String
  pub outcome : Outcome
  pub edge : ℕ

-- `by_id.get(mid)`
unfoldable pub find_market : String → List Market → Option Market
find_market k [] = none
find_market k (m ∷ rest) = if m.id =ₛ k then some m else find_market k rest

abbrev pub price_in : Option Market → Outcome → Option ℕ
price_in none o = none
price_in (some m) o = price_of m o

-- the local `p`
unfoldable pub quote : List Market → String → Outcome → Option ℕ
quote markets k o = price_in (find_market k markets) o

-- an edge where the first price is above the second by more than COHERENCE_MIN
abbrev pub edge_between : ℕ → String → Outcome → Option ℕ → Option ℕ → List Edge
edge_between least k o (some early) (some late) =
    if ltb (late + least) early
    then record { market = k; outcome = o; edge = early - late } ∷ []
    else []
edge_between least k o _ _ = []

-- the pairs of CHAIN = m01, m02, m03, then the fourth quarter of m16 against m03
unfoldable pub probe_coherence : ℕ → List Market → List Edge
probe_coherence least markets =
    edge_between least "m02" yes (quote markets "m01" yes) (quote markets "m02" yes)
    ++ edge_between least "m03" yes (quote markets "m02" yes) (quote markets "m03" yes)
    ++ edge_between least "m16" first (quote markets "m16" first) (quote markets "m03" yes)
