-- ===== src/Market/Structure.antt =====
-- validate_frame of packages/connectors/tclk.py: the members a frame must have before any work is done.
use lumi_observatory.Base.{
  Bool, true, false, not, ◌&&◌, String, List, [], ◌∷◌, ◌++◌, ◌≡◌, refl, if◌then◌else◌, all, is_nil,
}
use lumi_observatory.Base.Text.{codes, member}
use lumi_observatory.Market.Offer.{Text}

-- FRAME_KINDS
pub data FrameKind : Type 0 where
  offer accept lock reveal refund cancel heartbeat : FrameKind

pub data Problem : Type 0 where
  missing : String → Problem
  unknown_rail : Text → Problem

-- `d.get(name)` as a text, empty where the member is absent or falsy
abbrev pub Members : Type 0
Members = String → Text

-- `_KNOWN_RAILS`
abbrev pub known_rails : List Text
known_rails = codes "flop-htlc" ∷ codes "clk-htlc" ∷ codes "btc-ptlc" ∷ []

abbrev pub need : String → Text → List Problem
need name [] = missing name ∷ []
need name (c ∷ cs) = []

abbrev pub check_rail : Text → List Problem
check_rail [] = []
check_rail (c ∷ cs) = if not (member (c ∷ cs) known_rails) then unknown_rail (c ∷ cs) ∷ [] else []

unfoldable pub validate_frame : FrameKind → Members → List Problem
validate_frame offer d =
    need "amount" (d "amount") ++ (need "asset" (d "asset") ++ check_rail (d "rail"))
validate_frame accept d = need "ref" (d "ref") ++ need "statement" (d "statement")
validate_frame lock d = need "ref" (d "ref") ++ need "rail" (d "rail")
validate_frame reveal d = need "secret" (d "secret")
validate_frame refund d = []
validate_frame cancel d = []
validate_frame heartbeat d = []

-- the table of members that each kind has to carry
abbrev pub members_of : FrameKind → List String
members_of offer = "amount" ∷ "asset" ∷ []
members_of accept = "ref" ∷ "statement" ∷ []
members_of lock = "ref" ∷ "rail" ∷ []
members_of reveal = "secret" ∷ []
members_of _ = []

abbrev pub rail_known : FrameKind → Text → Bool
rail_known offer [] = true
rail_known offer (c ∷ cs) = member (c ∷ cs) known_rails
rail_known _ rail = true

abbrev pub is_usable : FrameKind → Members → Bool
is_usable k d = all (λ n. not (is_nil (d n))) (members_of k) && rail_known k (d "rail")

both_needed :
    (m n : String) (a b : Text)
    → (is_nil (need m a ++ need n b)) ≡ (not (is_nil a) && (not (is_nil b) && true)) && true
both_needed m n [] b = refl
both_needed m n (x ∷ a) [] = refl
both_needed m n (x ∷ a) (y ∷ b) = refl

offer_needed :
    (a b rail : Text)
    → is_nil (need "amount" a ++ (need "asset" b ++ check_rail rail))
      ≡ (not (is_nil a) && (not (is_nil b) && true)) && rail_known offer rail
offer_needed [] b rail = refl
offer_needed (x ∷ a) [] rail = refl
offer_needed (x ∷ a) (y ∷ b) [] = refl
offer_needed (x ∷ a) (y ∷ b) (z ∷ rail) = known_rail (member (z ∷ rail) known_rails)
  where
    known_rail : (k : Bool) → is_nil (if not k then unknown_rail (z ∷ rail) ∷ [] else []) ≡ k
    known_rail true = refl
    known_rail false = refl

-- A frame of any kind has no structural problem exactly when every member that the table requires of its
-- kind is set and, on an offer, the single rail is unset or known.
pub validate_frame-required :
    (k : FrameKind) (d : Members) → is_nil (validate_frame k d) ≡ is_usable k d
unfolding validate_frame
validate_frame-required offer d = offer_needed (d "amount") (d "asset") (d "rail")
validate_frame-required accept d = both_needed "ref" "statement" (d "ref") (d "statement")
validate_frame-required lock d = both_needed "ref" "rail" (d "ref") (d "rail")
validate_frame-required reveal d = one_needed (d "secret")
  where
    one_needed : (a : Text) → is_nil (need "secret" a) ≡ (not (is_nil a) && true) && true
    one_needed [] = refl
    one_needed (x ∷ a) = refl
validate_frame-required refund d = refl
validate_frame-required cancel d = refl
validate_frame-required heartbeat d = refl
