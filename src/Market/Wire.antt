-- ===== src/Market/Wire.antt =====
-- The frame lines of packages/connectors/tclk.py: build_frame and its callers, and parse_frame. `json.dumps` with
-- its compact, sorted form and `json.loads` are parameters. A line is its code points.
use lumi_observatory.Base.{
  Bool, not, String, List, [], ◌∷◌, ◌++◌, Option, none, some, if◌then◌else◌, is_nil,
}
use lumi_observatory.Base.Text.{◌=ₛ◌, codes, one_of, strip, starts}
use lumi_observatory.Fold.Json.{Json, text, object, Fields, end, field, get, is_one_of, text_of}
use lumi_observatory.Market.Offer.{Text}

-- `loads` is `none` where `json.loads` raises
pub record Wire : Type 0 where
  pub dumps : Fields → Text
  pub loads : Text → Option Json

-- FRAME_KINDS
abbrev pub frame_kinds : List String
frame_kinds = "offer" ∷ "accept" ∷ "lock" ∷ "reveal" ∷ "refund" ∷ "cancel" ∷ "heartbeat" ∷ []

-- PREFIX
abbrev pub prefix : Text
prefix = codes "tclk1 "

pub record TclkFrame : Type 0 where
  pub kind : String
  pub data_of : Fields
  pub raw : Text
  pub signed : Bool
  pub author : String

-- `payload[key] = value`
unfoldable pub put : String → Json → Fields → Fields
put k v end = field k v end
put k v (field j w fs) = let rest = put k v fs in if j =ₛ k then field j v fs else field j w rest

-- `{**base, **fields}`, the keys of `fields` distinct
unfoldable pub merged : Fields → Fields → Fields
merged base end = base
merged base (field k v fs) = put k v (merged base fs)

abbrev pub payload : String → Fields → Fields
payload kind fields = merged (field "type" (text kind) end) fields

-- `none` is the ValueError on an unknown kind
unfoldable pub build_frame : Wire → String → Fields → Option Text
build_frame wire kind fields =
    if not (one_of kind frame_kinds)
    then none
    else some (prefix ++ wire.dumps (payload kind fields))

-- `t[len(p):]`
unfoldable pub drop_codes : Text → Text → Text
drop_codes [] t = t
drop_codes (p ∷ ps) [] = []
drop_codes (p ∷ ps) (c ∷ t) = drop_codes ps t

abbrev pub frame_of : Text → String → Bool → Option Json → Option TclkFrame
frame_of t author signed (some (object d)) =
    if is_one_of (get "type" d) frame_kinds
    then some (record {
      kind = text_of (get "type" d);
      data_of = d;
      raw = t;
      signed = signed;
      author = author;
    })
    else none
frame_of t author signed _ = none

unfoldable pub parse_line : Wire → Text → String → Bool → Option TclkFrame
parse_line wire t author signed =
    if not (starts prefix t)
    then none
    else if is_nil (strip (drop_codes prefix t))
    then none
    else frame_of t author signed (wire.loads (strip (drop_codes prefix t)))

unfoldable pub parse_frame : Wire → Text → String → Bool → Option TclkFrame
parse_frame wire line author signed = parse_line wire (strip line) author signed

-- a member that is given only where it is not empty
abbrev pub if_given : String → String → Fields → Fields
if_given name value fields = if value =ₛ "" then fields else put name (text value) fields

unfoldable pub build_offer : Wire → (amount asset nonce spec rail : String) → Option Text
build_offer wire amount asset nonce spec rail = build_frame wire "offer" (
    if_given "rail" rail (
      if_given "spec" spec (
        field "amount" (text amount)
          (field "asset" (text asset) (field "nonce" (text nonce) end)))))

unfoldable pub build_accept : Wire → (sender ref statement contract nonce : String) → Option Text
build_accept wire sender ref statement contract nonce = build_frame wire "accept" (
    field "from" (text sender) (
      field "ref" (text ref) (
        field "statement" (text statement)
          (field "contract" (text contract) (field "nonce" (text nonce) end)))))

unfoldable pub build_heartbeat : Wire → (sender contract nonce note : String) → Option Text
build_heartbeat wire sender contract nonce note = build_frame wire "heartbeat" (
    field "from" (text sender)
      (if_given "note" note (field "contract" (text contract) (field "nonce" (text nonce) end))))

unfoldable pub build_reveal : Wire → String → Option Text
build_reveal wire secret = build_frame wire "reveal" (field "secret" (text secret) end)

unfoldable pub build_delivery : Text → Text → Text
build_delivery contract body = strip (codes "tclk-deliver " ++ (contract ++ (codes " :: " ++ body)))
