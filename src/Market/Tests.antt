-- ===== src/Market/Tests.antt =====
-- Audits of offers, and the theorems at concrete inputs.
use mathlib.Core.List.Perm
use lumi_observatory.Fold.Json.{has, Json, text_of, null, text, object, Fields, end, field, get}
use lumi_observatory.Market.Canonical.{
  canonical_json, sorted_members, insert_member, joined, shown_members,
}
use lumi_observatory.Market.Order.{canonical_json-Perm}
use lumi_observatory.Market.Wire.{Wire, put, merged, payload, build_frame, parse_frame}
use lumi_observatory.Market.Trip.{braced, built, parse_frame-build_frame}
use mathlib.Core.Path.{subst}
use lumi_observatory.Base.{
  Bool-cases, inl, inr, ℕ, String, List, true, false, [], ◌∷◌, ◌≡◌, refl, none, some, if◌then◌else◌,
}
use lumi_observatory.Base.Int.{pos}
use lumi_observatory.Base.Text.{text_lt, codes, codes_eq, eq_iff, ◌=ₛ◌}
use lumi_observatory.Market.Offer.{
  Frame, offer_raw_spec, offer_spec, offer_rails, offer_difficulty, search_difficulty, int_digits,
  int_of, amount_of, offer_expired, accept_room,
}
use lumi_observatory.Market.Gate.{
  Config, fine, Audit, accept, safe, skip, risky, payee_side, rail_refusal, is_capable, wanted,
  cap_of, is_over_ceiling, is_payee, offer_allows, audit_offer,
}
use lumi_observatory.Market.Structure.{FrameKind, Members, missing, validate_frame}
use lumi_observatory.Market.Ref.{norm, ref_matches}
use lumi_observatory.Market.Audit.{Extra, audit_accepts}

abbrev config : Config
config = record {
  allowed_rails = "flop-htlc";
  max_amount = "500";
  patterns = "report";
  accept_specless = false;
  max_difficulty = 3;
}

abbrev report_offer : Frame
report_offer = record {
  is_offer = true;
  signed = true;
  rails = some (codes " FLOP-HTLC" ∷ []);
  rail = [];
  asset = codes "FLOP";
  role = codes "payer";
  amount = codes "4_00";
  spec = codes "Report [difficulty 2/5]";
  task = [];
  desc = [];
  job = none;
  expires_ms = some (pos 900);
  expires = none;
  expires_at = none;
}

-- the sender wants to be paid
abbrev from_payee : Frame
from_payee = record report_offer { role = codes " Payee" }

module _ where
  accepted : audit_offer config report_offer (pos 800) ≡ accept safe
  unfolding audit_offer rail_refusal offer_rails is_payee amount_of int_of int_digits cap_of
      offer_expired is_over_ceiling offer_difficulty search_difficulty wanted is_capable offer_spec
      offer_raw_spec
  accepted = refl

  payee_allowed : offer_allows config from_payee ≡ fine
  unfolding offer_allows rail_refusal offer_rails amount_of int_of int_digits cap_of is_over_ceiling
      offer_difficulty search_difficulty wanted is_capable offer_spec offer_raw_spec
  payee_allowed = refl

  payee_skipped : audit_offer config from_payee (pos 800) ≡ skip risky payee_side
  unfolding audit_offer rail_refusal offer_rails is_payee
  payee_skipped = refl

  -- a cap that is no number lets the audit raise
  bad_cap_raises :
      audit_offer (record config { max_amount = "many" }) report_offer (pos 800) ≡ Audit.raised
  unfolding audit_offer rail_refusal offer_rails is_payee amount_of int_of int_digits cap_of
  bad_cap_raises = refl

audit_accepts_example :
    (offer_allows config report_offer ≡ fine) × Extra report_offer (pos 800) safe
audit_accepts_example = audit_accepts config report_offer (pos 800) safe accepted

-- an accept that lacks its statement
abbrev only_ref : Members
only_ref name = if name =ₛ "ref" then codes "0xab" else []

module _ where
  suffix_matches : ref_matches (codes "0x0123456789abcdef") (codes "456789ABCDEF") ≡ true
  unfolding ref_matches norm
  suffix_matches = refl

  no_statement : validate_frame FrameKind.accept only_ref ≡ missing "statement" ∷ []
  unfolding validate_frame
  no_statement = refl

  one_place_left : accept_room (pos 3) (pos 3) (pos 1) ≡ true
  unfolding accept_room
  one_place_left = refl

-- a `json` that knows one payload
abbrev reveal_body : List ℕ
reveal_body = codes "\"secret\":\"0xab\",\"type\":\"reveal\""

abbrev revealed : Fields
revealed = field "secret" (text "0xab") (field "type" (text "reveal") end)

abbrev small_wire : Wire
small_wire = record {
  dumps = λ d. braced reveal_body;
  loads = λ t. if codes_eq t (braced reveal_body) then some (object revealed) else none;
}

same_members :
    (n : String) → get n revealed ≡ get n (payload "reveal" (field "secret" (text "0xab") end))
unfolding get merged put
same_members n = elim (Bool-cases ("secret" =ₛ n)) [
  | inl e ↦
      subst (λ m. get m revealed ≡ get m (payload "reveal" (field "secret" (text "0xab") end)))
        ((eq_iff "secret" n).0 e) refl
  | inr e ↦ rw e refl
]

parse_frame-build_frame_example :
    (line : List ℕ) × (build_frame small_wire "reveal" (field "secret" (text "0xab") end)
      ≡ some line)
    × (parse_frame small_wire line "payer" true ≡ some (built "reveal" revealed line "payer" true))
    × ((n : String)
        → get n revealed ≡ (
            if has n (field "secret" (text "0xab") end)
            then get n (field "secret" (text "0xab") end)
            else if "type" =ₛ n
            then text "reveal"
            else null))
unfolding has
parse_frame-build_frame_example =
    parse_frame-build_frame small_wire "reveal" (field "secret" (text "0xab") end) revealed
      reveal_body "payer" true refl refl refl refl same_members

abbrev two_members : Fields
two_members = field "ref" (text "0xab") (field "amount" (text "7") end)

abbrev swapped_members : Fields
swapped_members = field "amount" (text "7") (field "ref" (text "0xab") end)

-- a writer that puts texts as they are
abbrev plain_json : Json → List ℕ
plain_json v = codes (text_of v)

sorted_text : canonical_json plain_json (object two_members) ≡ codes "{amount:7,ref:0xab}"
unfolding canonical_json sorted_members insert_member text_lt joined shown_members
sorted_text = refl

canonical_json-Perm_example :
    canonical_json plain_json (object two_members)
    ≡ canonical_json plain_json (object swapped_members)
canonical_json-Perm_example =
    canonical_json-Perm plain_json two_members swapped_members ((refl, tt), (tt, tt))
      (Perm.swap _ _ [])
