-- ===== src/Trader/Spend.antt =====
-- What the participation fills of apps/earn/trader.py cost.
use native.Mathlib.Nat.{div-mul-le_self, mul-le-mul}
use lumi_observatory.Base.{
  ℕ, ◌+◌, ◌-◌, ◌*◌, ◌/◌, ◌≤◌, ◌<◌, ◌||◌, leb, ltb, Bool, true, false, not, ◌&&◌, List, [], ◌∷◌, ◌≡◌,
  refl, Option, none, some, if◌then◌else◌, arith, inl, inr, Bool-cases, Option-cases,
}
use lumi_observatory.Trader.Prices.{Market, Outcome, yes, price_of}
use lumi_observatory.Trader.Orders.{
  Caps, Order, min_of, max_of, shares_for, fill_at, fill_from, fill_of, side_of, cost, few_chips,
  fills, participation,
}

-- the orders together
unfoldable pub costs : List Order → ℕ
costs [] = 0
costs (o ∷ rest) = let n = costs rest in cost o + n

product_le : (a b c d : ℕ) → a ≤ b → c ≤ d → a * c ≤ b * d
product_le a b c d h k = mul-le-mul h k

quarter_fits : (left p : ℕ) → left / (4 * max_of p 20000) * p ≤ left
quarter_fits left p =
    let d = div-mul-le_self left (4 * max_of p 20000) in
    let q = left / (4 * max_of p 20000) in
    let m = product_le q q p (4 * max_of p 20000) (omega arith) (ground arith) in
    omega (arith, d, m)

shares_at_most : (order_shares q : ℕ) → min_of order_shares (max_of 20 q) ≤ max_of 20 q
shares_at_most order_shares q = ground arith

shares_fit :
    (order_shares left p : ℕ)
    → few_chips ≤ left
    → p ≤ 930000
    → shares_for order_shares left p * p ≤ left
shares_fit order_shares left p more low =
    let q = left / (4 * max_of p 20000) in
    let s = shares_at_most order_shares q in
    elim (Bool-cases (leb 20 q)) [
      | inl e ↦
          let m =
            product_le (shares_for order_shares left p) q p p (ground (arith, s, e))
              (omega arith) in
          let f = quarter_fits left p in omega (arith, m, f)
      | inr e ↦
          let m =
            product_le (shares_for order_shares left p) 20 p 930000 (ground (arith, s, e)) low in
          omega (arith, m, more)
    ]

-- what the guards on the price of the side let through
abbrev pub IsCheap : ℕ → ℕ → Market → Outcome → Order → Type 0
IsCheap order_shares left m side o =
    (o.market ≡ m.id)
    × (o.outcome ≡ side)
    × (price_of m side ≡ some o.price)
    × (o.price ≤ 930000)
    × (o.shares ≡ shares_for order_shares left o.price)

fill_at-IsCheap :
    (order_shares left : ℕ) (m : Market) (side : Outcome) (p : Option ℕ) (o : Order)
    → price_of m side ≡ p
    → fill_at order_shares left m.id side p ≡ some o
    → IsCheap order_shares left m side o
fill_at-IsCheap order_shares left m side none o e h = absurd (cc)
fill_at-IsCheap order_shares left m side (some p) o e h = ground (arith, e, h)

-- with those on the price of "YES"
abbrev pub IsNearFair : ℕ → ℕ → Market → Order → Type 0
IsNearFair order_shares left m o =
    (v : ℕ) × ((price_of m yes ≡ some v)
      × (50000 < v)
      × (v < 950000)
      × IsCheap order_shares left m (side_of m.id v) o)

not_skipped :
    (b : Bool) (x : Option Order) (o : Order)
    → (if b then none else x) ≡ some o
    → (b ≡ false) × (x ≡ some o)
not_skipped true x o h = absurd (cc)
not_skipped false x o h = (refl, h)

fill_from-IsNearFair :
    (order_shares left : ℕ) (m : Market) (p : Option ℕ) (o : Order)
    → price_of m yes ≡ p
    → fill_from order_shares left m p ≡ some o
    → IsNearFair order_shares left m o
fill_from-IsNearFair order_shares left m none o e h = absurd (cc)
fill_from-IsNearFair order_shares left m (some v) o e h =
    let (g, f) =
      not_skipped (leb v 50000 || leb 950000 v)
        (fill_at order_shares left m.id (side_of m.id v) (price_of m (side_of m.id v))) o h in
    (
      v,
      (
        e,
        ground (arith, g),
        ground (arith, g),
        fill_at-IsCheap order_shares left m (side_of m.id v) (price_of m (side_of m.id v)) o refl f,
      ),
    )

pub fill_of-IsNearFair :
    (order_shares left : ℕ) (m : Market) (o : Order)
    → fill_of order_shares left m ≡ some o
    → IsNearFair order_shares left m o
unfolding fill_of
fill_of-IsNearFair order_shares left m o h =
    fill_from-IsNearFair order_shares left m (price_of m yes) o refl h

pub fill_of-cost :
    (order_shares left : ℕ) (m : Market) (o : Order)
    → fill_of order_shares left m ≡ some o
    → few_chips ≤ left
    → cost o ≤ left
fill_of-cost order_shares left m o h more =
    let (v, (e, low, high, (k, s, q, cheap, n))) = fill_of-IsNearFair order_shares left m o h in
    let f = shares_fit order_shares left o.price more cheap in rw n f

module _ (order_shares left : ℕ) (m : Market) (rest : List Market) where
  pub fills_skip :
      fill_of order_shares left m ≡ none
      → fills order_shares left (m ∷ rest) ≡ fills order_shares left rest
  unfolding fills
  fills_skip e = rw (fills, e) refl

  pub fills_last :
      (o : Order)
      → fill_of order_shares left m ≡ some o
      → leb (left - cost o) few_chips ≡ true
      → fills order_shares left (m ∷ rest) ≡ o ∷ []
  unfolding fills
  fills_last o e s = rw (fills, e, s) refl

  pub fills_more :
      (o : Order)
      → fill_of order_shares left m ≡ some o
      → leb (left - cost o) few_chips ≡ false
      → fills order_shares left (m ∷ rest) ≡ o ∷ fills order_shares (left - cost o) rest
  unfolding fills
  fills_more o e s = ground (arith, e, s)

pub fills_empty : (order_shares left : ℕ) → fills order_shares left [] ≡ []
unfolding fills
fills_empty order_shares left = refl

costs-fills :
    (order_shares left : ℕ) (markets : List Market)
    → few_chips ≤ left
    → costs (fills order_shares left markets) ≤ left
unfolding costs
costs-fills order_shares left [] more = rw (fills_empty order_shares left) (omega arith)
costs-fills order_shares left (m ∷ rest) more = elim (Option-cases (fill_of order_shares left m)) [
  | inl e ↦ rw (fills_skip order_shares left m rest e) (costs-fills order_shares left rest more)
  | inr (o, e) ↦
      let c = fill_of-cost order_shares left m o e more in
      elim (Bool-cases (leb (left - cost o) few_chips)) [
        | inl s ↦ rw (fills_last order_shares left m rest o e s) (omega (arith, c))
        | inr s ↦
            let i = costs-fills order_shares (left - cost o) rest (ground (arith, s)) in
            rw (fills_more order_shares left m rest o e s) (omega (arith, c, i))
      ]
]

none_cost : (left : ℕ) → costs [] ≤ left
unfolding costs
none_cost left = omega arith

-- The participation fills of a cycle cost together, at the prices they are made from, at most what the daily budget
-- has left.
pub costs-participation :
    (caps : Caps) (filled : ℕ) (hits : Bool) (markets : List Market)
    → costs (participation caps filled hits markets) ≤ caps.daily_budget - filled
unfolding participation
costs-participation caps filled hits markets =
    elim (Bool-cases (ltb few_chips (caps.daily_budget - filled) && not hits)) [
      | inl e ↦
          rw e
            (costs-fills caps.order_shares (caps.daily_budget - filled) markets (ground (arith, e)))
      | inr e ↦ rw e (none_cost (caps.daily_budget - filled))
    ]
