-- ===== src/Trader/Prices.antt =====
-- open_markets and price_of of apps/earn/trader.py. A price is a whole number of millionths; the live prices of the
-- House, which apply_live puts under `_live`, are given with the market.
use lumi_observatory.Base.{
  ℕ, zero, suc, Bool, true, false, String, List, [], ◌∷◌, Option, none, some, if◌then◌else◌,
}
use lumi_observatory.Base.Text.{◌=ₛ◌, codes, codes_eq, lower_codes}

pub record Market : Type 0 where
  pub id : String
  -- none where the key is missing or empty
  pub status : Option String
  pub outcomes : List String
  pub prices : List ℕ
  pub live : List (String × ℕ)

-- the outcomes that the program asks for: "YES", "NO" and "o1"
pub data Outcome : Type 0 where
  yes no first : Outcome

abbrev pub outcome_name : Outcome → String
outcome_name yes = "YES"
outcome_name no = "NO"
outcome_name first = "o1"

-- `str(m.get("status") or "open") == "open"`
abbrev pub is_open : Option String → Bool
is_open none = true
is_open (some s) = s =ₛ "open"

unfoldable pub open_markets : List Market → List Market
open_markets [] = []
open_markets (m ∷ rest) =
    let more = open_markets rest in if is_open m.status then m ∷ more else more

unfoldable pub live_price : String → List (String × ℕ) → Option ℕ
live_price key [] = none
live_price key ((name, p) ∷ rest) = if name =ₛ key then some p else live_price key rest

abbrev pub price_at : ℕ → List ℕ → Option ℕ
price_at i [] = none
price_at zero (p ∷ rest) = some p
price_at (suc i) (p ∷ rest) = price_at i rest

-- the outcome and its price at the same position, compared as `upper()` does on ASCII
unfoldable pub listed_price : String → List String → List ℕ → Option ℕ
listed_price key [] prices = none
listed_price key (o ∷ rest) prices =
    if codes_eq (lower_codes (codes o)) (lower_codes (codes key))
    then price_at 0 prices
    else listed_price key rest (without_first prices)
  where
    without_first : List ℕ → List ℕ
    without_first [] = []
    without_first (p ∷ more) = more

abbrev pub snapshot_price : Market → Outcome → Option ℕ
snapshot_price m first = price_at 0 m.prices
snapshot_price m o = listed_price (outcome_name o) m.outcomes m.prices

abbrev pub is_live : List (String × ℕ) → Bool
is_live [] = false
is_live (p ∷ rest) = true

unfoldable pub price_of : Market → Outcome → Option ℕ
price_of m o = if is_live m.live then live_price (outcome_name o) m.live else snapshot_price m o
