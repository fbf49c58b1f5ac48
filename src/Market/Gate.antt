-- ===== src/Market/Gate.antt =====
-- offer_allows and audit_offer of packages/connectors/tclk.py.
use lumi_observatory.Base.{
  ℕ, zero, ◌-◌, ltb, Bool, true, false, not, ◌&&◌, String, List, [], ◌∷◌, Option, none, some,
  if◌then◌else◌, any, is_nil,
}
use lumi_observatory.Base.Int.{ℤ, pos, leb_ℤ, ltb_ℤ}
use lumi_observatory.Base.Text.{
  codes, codes_eq, is_lower, strip, lower_codes, contains, comma_parts, member,
}
use lumi_observatory.Market.Offer.{
  Text, Frame, offer_spec, offer_rails, offer_difficulty, int_of, amount_of, offer_expired,
}

-- the refusals, by their messages
pub data Reason : Type 0 where
  not_an_offer unsigned no_rails flop_disabled non_flop_asset rails_outside payee_side : Reason
  unparseable_amount non_positive_amount over_cap offer_is_expired over_ceiling no_patterns
        not_in_capabilities :
      Reason

-- RISK_ORDER
pub data Risk : Type 0 where
  safe watch risky dangerous : Risk

pub record Config : Type 0 where
  pub allowed_rails : String
  pub max_amount : String
  pub patterns : String
  pub accept_specless : Bool
  pub max_difficulty : ℕ

-- `raised` is the `ValueError` of `int(max_amount or 0)`
pub data Verdict : Type 0 where
  fine raised : Verdict
  refused : Reason → Verdict

pub data Audit : Type 0 where
  accept : Risk → Audit
  skip : Risk → Reason → Audit
  raised : Audit

abbrev pub upper_codes : Text → Text
upper_codes [] = []
upper_codes (c ∷ cs) = (if is_lower c then c - 32 else c) ∷ upper_codes cs

abbrev pub asset_refusal : List Text → Text → Option Reason
asset_refusal rails asset =
    if codes_eq asset (codes "FLOP") && not (member (codes "flop-htlc") rails)
    then some flop_disabled
    else if not (codes_eq asset (codes "FLOP")) && not (is_nil asset)
    then some non_flop_asset
    else none

-- the rail checks, the same in both gates
unfoldable pub rail_refusal : Config → Frame → Option Reason
rail_refusal c f =
    let rails = comma_parts c.allowed_rails in
    if is_nil rails
    then some no_rails
    else if is_nil (offer_rails f)
    then asset_refusal rails (upper_codes f.asset)
    else if not (any (λ r. member r rails) (offer_rails f))
    then some rails_outside
    else none

-- the set of patterns
unfoldable pub wanted : Config → List Text
wanted c = comma_parts c.patterns

-- `any(w in spec for w in want)`
unfoldable pub is_capable : Config → Frame → Bool
is_capable c f = any (λ w. contains w (offer_spec f)) (wanted c)

abbrev pub default_cap : ℤ → ℤ
default_cap (pos zero) = pos 1000000
default_cap n = n

-- `int(max_amount or 0) or 1_000_000`
unfoldable pub cap_of : Config → Option ℤ
cap_of c = elim (codes c.max_amount) [
  | [] ↦ some (pos 1000000)
  | d ∷ ds ↦ elim (int_of (d ∷ ds)) [ none ↦ none | some n ↦ some (default_cap n) ]
]

unfoldable pub is_over_ceiling : Config → Frame → Bool
is_over_ceiling c f = ltb 0 c.max_difficulty && ltb c.max_difficulty (offer_difficulty f)

abbrev pub allows_capped : Config → Frame → ℤ → Option ℤ → Verdict
allows_capped c f amount none = raised
allows_capped c f amount (some cap) =
    if ltb_ℤ cap amount
    then refused over_cap
    else if is_over_ceiling c f
    then refused over_ceiling
    else if is_nil (wanted c)
    then refused no_patterns
    else if not (is_capable c f) && not c.accept_specless
    then refused not_in_capabilities
    else fine

abbrev pub allows_amount : Config → Frame → Option ℤ → Verdict
allows_amount c f none = refused unparseable_amount
allows_amount c f (some amount) =
    if leb_ℤ amount (pos 0)
    then refused non_positive_amount
    else allows_capped c f amount (cap_of c)

abbrev pub allows_railed : Config → Frame → Option Reason → Verdict
allows_railed c f (some r) = refused r
allows_railed c f none = allows_amount c f (amount_of f)

abbrev pub allows_open : Config → Frame → Bool → Bool → Verdict
allows_open c f false signed = refused not_an_offer
allows_open c f true false = refused unsigned
allows_open c f true true = allows_railed c f (rail_refusal c f)

unfoldable pub offer_allows : Config → Frame → Verdict
offer_allows c f = allows_open c f f.is_offer f.signed

abbrev pub rail_risk : Reason → Risk
rail_risk no_rails = dangerous
rail_risk _ = risky

abbrev pub audit_spec : Config → Frame → Audit
audit_spec c f =
    if is_nil (wanted c)
    then skip dangerous no_patterns
    else if not (is_nil (offer_spec f)) && not (is_capable c f)
    then skip risky not_in_capabilities
    else if is_nil (offer_spec f) && not c.accept_specless
    then skip risky not_in_capabilities
    else if is_nil (offer_spec f)
    then accept watch
    else accept safe

abbrev pub audit_capped : Config → Frame → ℤ → ℤ → Option ℤ → Audit
audit_capped c f now amount none = raised
audit_capped c f now amount (some cap) =
    if ltb_ℤ cap amount
    then skip risky over_cap
    else if offer_expired f now
    then skip risky offer_is_expired
    else if is_over_ceiling c f
    then skip risky over_ceiling
    else audit_spec c f

abbrev pub audit_amount : Config → Frame → ℤ → Option ℤ → Audit
audit_amount c f now none = skip risky unparseable_amount
audit_amount c f now (some amount) =
    if leb_ℤ amount (pos 0)
    then skip risky non_positive_amount
    else audit_capped c f now amount (cap_of c)

-- `role` after `strip` and `lower`
unfoldable pub is_payee : Frame → Bool
is_payee f = codes_eq (lower_codes (strip f.role)) (codes "payee")

abbrev pub audit_railed : Config → Frame → ℤ → Option Reason → Audit
audit_railed c f now (some r) = skip (rail_risk r) r
audit_railed c f now none =
    if is_payee f then skip risky payee_side else audit_amount c f now (amount_of f)

abbrev pub audit_open : Config → Frame → ℤ → Bool → Bool → Audit
audit_open c f now false signed = skip dangerous not_an_offer
audit_open c f now true false = skip dangerous unsigned
audit_open c f now true true = audit_railed c f now (rail_refusal c f)

unfoldable pub audit_offer : Config → Frame → ℤ → Audit
audit_offer c f now = audit_open c f now f.is_offer f.signed
