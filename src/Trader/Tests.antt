-- ===== src/Trader/Tests.antt =====
-- One cycle of apps/earn/trader.py over a few markets.
use lumi_observatory.Base.{ℕ, ◌-◌, ◌≤◌, false, List, [], ◌∷◌, ◌≡◌, refl, none, some, arith}
use lumi_observatory.Trader.Prices.{Market, yes, price_of, listed_price, live_price}
use lumi_observatory.Trader.Edges.{find_market, quote, probe_coherence}
use lumi_observatory.Trader.Orders.{Caps, fill_of, fills, participation, edge_orders, cycle_orders}
use lumi_observatory.Trader.Spend.{costs, costs-participation}
use lumi_observatory.Trader.Fills.{AreFills, participation-AreFills, cycle_orders_deployed}

abbrev default_caps : Caps
default_caps = record { daily_budget = 2500000000; order_shares = 300; coherence_min = 10000 }

abbrev binary : ℕ → Market
binary p = record {
  id = "m05";
  status = none;
  outcomes = "Yes" ∷ "No" ∷ [];
  prices = p ∷ (1000000 - p) ∷ [];
  live = [];
}

-- m02 is cheaper than m01, and its live price is the one that counts
abbrev venue : List Market
venue =
    record (binary 300000) { id = "m01" }
    ∷ record (binary 400000) { id = "m02"; live = ("YES", 200000) ∷ ("NO", 800000) ∷ [] }
    ∷ binary 400000
    ∷ []

module _ where
  two_shares :
      fills 300 2500000000 (binary 400000 ∷ [])
      ≡ record { market = "m05"; outcome = yes; shares = 300; price = 400000; limit = 43400000 }
        ∷ []
  unfolding fills fill_of price_of listed_price
  two_shares = refl

  one_edge :
      probe_coherence 10000 venue ≡ record { market = "m02"; outcome = yes; edge = 100000 } ∷ []
  unfolding probe_coherence quote find_market price_of listed_price live_price
  one_edge = refl

costs-participation_example :
    costs (participation default_caps 100000000 false venue) ≤ default_caps.daily_budget - 100000000
costs-participation_example = costs-participation default_caps 100000000 false venue

participation-AreFills_example : AreFills 300 venue (participation default_caps 0 false venue)
participation-AreFills_example = participation-AreFills default_caps 0 false venue

cycle_orders_deployed_example :
    cycle_orders default_caps (some 12000000) 0 false venue
    ≡ edge_orders 300 venue (probe_coherence 10000 venue)
cycle_orders_deployed_example =
    cycle_orders_deployed default_caps 12000000 0 false venue (omega arith)
