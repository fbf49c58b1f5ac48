-- ===== src/Trader/Fills.antt =====
-- Which orders `cycle` of apps/earn/trader.py makes.
use lumi_observatory.Base.{
  ℕ, ◌-◌, ◌*◌, ◌/◌, ◌≤◌, ◌<◌, leb, ltb, Bool, not, ◌&&◌, List, [], ◌∷◌, ◌++◌, ◌≡◌, refl, some,
  arith, inl, inr, ◌⊎◌, Bool-cases, Option-cases,
}
use lumi_observatory.Trader.Prices.{Market, yes, price_of}
use lumi_observatory.Trader.Edges.{probe_coherence}
use lumi_observatory.Trader.Orders.{
  Caps, Order, min_of, max_of, shares_for, fill_of, side_of, cost, few_chips, fills, participation,
  edge_orders, filled_now, cycle_orders,
}
use lumi_observatory.Trader.Spend.{
  fill_of-IsNearFair, fills_empty, fills_skip, fills_last, fills_more,
}

-- a fill of the market near its fair price
abbrev pub IsFill : ℕ → Market → Order → Type 0
IsFill order_shares m o =
    (v : ℕ) × ((price_of m yes ≡ some v)
      × (50000 < v)
      × (v < 950000)
      × (o.market ≡ m.id)
      × (o.outcome ≡ side_of m.id v)
      × (price_of m (side_of m.id v) ≡ some o.price)
      × (o.price ≤ 930000)
      × (o.shares ≤ order_shares)
      × (min_of order_shares 20 ≤ o.shares))

-- the orders are fills of some of the markets, one each and in their order
unfoldable pub AreFills : ℕ → List Market → List Order → Type 0
AreFills order_shares [] orders = orders ≡ []
AreFills order_shares (m ∷ rest) orders =
    AreFills order_shares rest orders
    ⊎ ((o : Order) × ((more : List Order) × ((orders ≡ o ∷ more)
            × IsFill order_shares m o
            × AreFills order_shares rest more)))

shares_for-bounds :
    (order_shares left p : ℕ)
    → (shares_for order_shares left p ≤ order_shares)
      × (min_of order_shares 20 ≤ shares_for order_shares left p)
shares_for-bounds order_shares left p = bounds order_shares (left / (4 * max_of p 20000))
  where
    bounds : (s q : ℕ) → (min_of s (max_of 20 q) ≤ s) × (min_of s 20 ≤ min_of s (max_of 20 q))
    bounds s q = (ground arith, ground arith)

fill_of-IsFill :
    (order_shares left : ℕ) (m : Market) (o : Order)
    → fill_of order_shares left m ≡ some o
    → IsFill order_shares m o
fill_of-IsFill order_shares left m o h =
    let (v, (e, low, high, (k, s, q, cheap, n))) = fill_of-IsNearFair order_shares left m o h in
    let b = shares_for-bounds order_shares left o.price in
    (v, (e, low, high, k, s, q, cheap, rw n b.0, rw n b.1))

none_AreFills : (order_shares : ℕ) (markets : List Market) → AreFills order_shares markets []
unfolding AreFills
none_AreFills order_shares [] = refl
none_AreFills order_shares (m ∷ rest) = inl (none_AreFills order_shares rest)

fills-AreFills :
    (order_shares left : ℕ) (markets : List Market)
    → AreFills order_shares markets (fills order_shares left markets)
unfolding AreFills
fills-AreFills order_shares left [] = fills_empty order_shares left
fills-AreFills order_shares left (m ∷ rest) = elim (Option-cases (fill_of order_shares left m)) [
  | inl e ↦ rw (fills_skip order_shares left m rest e) (inl (fills-AreFills order_shares left rest))
  | inr (o, e) ↦
      let f = fill_of-IsFill order_shares left m o e in
      elim (Bool-cases (leb (left - cost o) few_chips)) [
        | inl s ↦
            rw (fills_last order_shares left m rest o e s)
              (inr (o, ([], (refl, f, none_AreFills order_shares rest))))
        | inr s ↦ rw (fills_more order_shares left m rest o e s) (
            inr (
              o,
              (
                fills order_shares (left - cost o) rest,
                (refl, f, fills-AreFills order_shares (left - cost o) rest),
              ),
            ))
      ]
]

-- The participation orders of a cycle are one each for some of its markets, in their order. Each is on the stance of
-- the market or else its cheaper side, at its price, which is at most 0.93, where that of "YES" is strictly between
-- 0.05 and 0.95; its shares are at most ORDER_SHARES and at least 20 or ORDER_SHARES.
pub participation-AreFills :
    (caps : Caps) (filled : ℕ) (hits : Bool) (markets : List Market)
    → AreFills caps.order_shares markets (participation caps filled hits markets)
unfolding participation
participation-AreFills caps filled hits markets =
    elim (Bool-cases (ltb few_chips (caps.daily_budget - filled) && not hits)) [
      | inl e ↦ rw e (fills-AreFills caps.order_shares (caps.daily_budget - filled) markets)
      | inr e ↦ rw e (none_AreFills caps.order_shares markets)
    ]

participation_over :
    (caps : Caps) (hits : Bool) (markets : List Market)
    → participation caps caps.daily_budget hits markets ≡ []
unfolding participation
participation_over caps hits markets = ground arith

append_nothing : (xs : List Order) → xs ++ [] ≡ xs
append_nothing [] = refl
append_nothing (x ∷ xs) = rw (append_nothing xs) refl

-- With fewer than 50 chips left a cycle makes no participation orders, but still the orders for the edges, whatever
-- the budget and the news.
pub cycle_orders_deployed :
    (caps : Caps) (cash filled : ℕ) (hits : Bool) (markets : List Market)
    → cash < 50000000
    → cycle_orders caps (some cash) filled hits markets
      ≡ edge_orders caps.order_shares markets (probe_coherence caps.coherence_min markets)
unfolding cycle_orders
cycle_orders_deployed caps cash filled hits markets low =
    let f : filled_now caps.daily_budget (some cash) filled ≡ caps.daily_budget =
      ground (arith, low) in
    rw (f, participation_over caps hits markets)
      (append_nothing
        (edge_orders caps.order_shares markets (probe_coherence caps.coherence_min markets)))
