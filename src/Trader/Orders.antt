-- ===== src/Trader/Orders.antt =====
-- The orders of one `cycle` of apps/earn/trader.py. Chips and prices are whole numbers of millionths, a limit is one
-- of hundred-millionths, and the markets are in the order of their ids. The rounding of floats is left out.
use lumi_observatory.Base.{
  ℕ, ◌+◌, ◌-◌, ◌*◌, ◌/◌, leb, ltb, Bool, not, ◌&&◌, ◌||◌, String, List, [], ◌∷◌, ◌++◌, Option, none,
  some, if◌then◌else◌,
}
use lumi_observatory.Base.Text.{one_of}
use lumi_observatory.Trader.Prices.{Market, Outcome, yes, no, price_of}
use lumi_observatory.Trader.Edges.{Edge, probe_coherence, quote}

-- DAILY_BUDGET in millionths, ORDER_SHARES, and COHERENCE_MIN in millionths
pub record Caps : Type 0 where
  pub daily_budget : ℕ
  pub order_shares : ℕ
  pub coherence_min : ℕ

pub record Order : Type 0 where
  pub market : String
  pub outcome : Outcome
  pub shares : ℕ
  pub price : ℕ
  pub limit : ℕ

abbrev pub min_of : ℕ → ℕ → ℕ
min_of a b = if leb a b then a else b

abbrev pub max_of : ℕ → ℕ → ℕ
max_of a b = if leb a b then b else a

-- `min(0.995, px * 1.06 + 0.01)`
abbrev pub limit_for : ℕ → ℕ
limit_for p = min_of 99500000 (p * 106 + 1000000)

-- VIEWS
abbrev pub has_view : String → Bool
has_view k = one_of k ("m01" ∷ "m02" ∷ "m04" ∷ [])

-- the stance on the market, or its cheaper side
abbrev pub side_of : String → ℕ → Outcome
side_of k yes_price = if has_view k then no else if leb yes_price 500000 then yes else no

-- `min(ORDER_SHARES, max(20, int(budget_left * 0.25 / max(px, 0.02))))`
abbrev pub shares_for : ℕ → ℕ → ℕ → ℕ
shares_for order_shares left p = min_of order_shares (max_of 20 (left / (4 * max_of p 20000)))

abbrev pub fill_at : ℕ → ℕ → String → Outcome → Option ℕ → Option Order
fill_at order_shares left k o none = none
fill_at order_shares left k o (some p) =
    if ltb 930000 p
    then none
    else some (record {
      market = k;
      outcome = o;
      shares = shares_for order_shares left p;
      price = p;
      limit = limit_for p;
    })

abbrev pub fill_from : ℕ → ℕ → Market → Option ℕ → Option Order
fill_from order_shares left m none = none
fill_from order_shares left m (some yes_price) =
    if leb yes_price 50000 || leb 950000 yes_price
    then none
    else fill_at order_shares left m.id (side_of m.id yes_price)
        (price_of m (side_of m.id yes_price))

-- the fill of one market, where it is not skipped
unfoldable pub fill_of : ℕ → ℕ → Market → Option Order
fill_of order_shares left m = fill_from order_shares left m (price_of m yes)

-- `shares * px`
abbrev pub cost : Order → ℕ
cost o = o.shares * o.price

-- `budget_left <= 20`
abbrev pub few_chips : ℕ
few_chips = 20000000

-- the participation loop; a fill costs less than what is left
unfoldable pub fills : ℕ → ℕ → List Market → List Order
fills order_shares left [] = []
fills order_shares left (m ∷ rest) = elim (fill_of order_shares left m) [
  | none ↦ fills order_shares left rest
  | some o ↦
      let more = fills order_shares (left - cost o) rest in
      if leb (left - cost o) few_chips then o ∷ [] else o ∷ more
]

abbrev pub edge_order : ℕ → Edge → Option ℕ → List Order → List Order
edge_order order_shares e none more = more
edge_order order_shares e (some p) more =
    record {
      market = e.market;
      outcome = e.outcome;
      shares = min_of order_shares 200;
      price = p;
      limit = limit_for p;
    }
    ∷ more

-- the orders for the edges
unfoldable pub edge_orders : ℕ → List Market → List Edge → List Order
edge_orders order_shares markets [] = []
edge_orders order_shares markets (e ∷ rest) =
    let more = edge_orders order_shares markets rest in
    edge_order order_shares e (quote markets e.market e.outcome) more

-- `filled_today` after the look at the chips that are left
abbrev pub filled_now : ℕ → Option ℕ → ℕ → ℕ
filled_now daily_budget none filled = filled
filled_now daily_budget (some cash) filled = if ltb cash 50000000 then daily_budget else filled

-- none where the news have hits or the budget is used up
unfoldable pub participation : Caps → ℕ → Bool → List Market → List Order
participation caps filled hits markets =
    if ltb few_chips (caps.daily_budget - filled) && not hits
    then fills caps.order_shares (caps.daily_budget - filled) markets
    else []

unfoldable pub cycle_orders : Caps → Option ℕ → ℕ → Bool → List Market → List Order
cycle_orders caps cash filled hits markets =
    edge_orders caps.order_shares markets (probe_coherence caps.coherence_min markets)
    ++ participation caps (filled_now caps.daily_budget cash filled) hits markets
