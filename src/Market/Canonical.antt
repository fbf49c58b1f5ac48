-- ===== src/Market/Canonical.antt =====
-- The canonical JSON and the ids of packages/connectors/tclk.py. `js_json` is its `_js_json`, `json.dumps` of a
-- scalar; `sha256` gives the hex digest of a text.
use lumi_observatory.Base.{ℕ, zero, suc, String, List, [], ◌∷◌, ◌++◌, if◌then◌else◌}
use lumi_observatory.Base.Text.{codes, starts, text_lt}
use lumi_observatory.Fold.Json.{
  Json, text, array, object, Items, nil, cons, Fields, end, field, without,
}
use lumi_observatory.Market.Offer.{Text}
use lumi_observatory.Market.Wire.{drop_codes}

-- a member of a dict: its key with its value as JSON text
abbrev pub Member : Type 0
Member = String × Text

-- `sorted(value)`, by the keys
unfoldable pub insert_member : Member → List Member → List Member
insert_member m [] = m ∷ []
insert_member m (n ∷ ns) =
    let later = insert_member m ns in
    if text_lt (codes m.0) (codes n.0) then m ∷ n ∷ ns else n ∷ later

unfoldable pub sorted_members : List Member → List Member
sorted_members [] = []
sorted_members (m ∷ ms) = insert_member m (sorted_members ms)

-- `",".join(…)`
unfoldable pub joined : List Text → Text
joined [] = []
joined (t ∷ []) = t
joined (t ∷ u ∷ ts) = t ++ b',' ∷ joined (u ∷ ts)

unfoldable pub shown_members : (Json → Text) → List Member → List Text
shown_members js_json [] = []
shown_members js_json ((k, v) ∷ ms) = (js_json (text k) ++ b':' ∷ v) ∷ shown_members js_json ms

unfoldable mutual
  pub canonical_json : (Json → Text) → Json → Text
  canonical_json js_json (array vs) = b'[' ∷ joined (canonical_items js_json vs) ++ b']' ∷ []
  canonical_json js_json (object fs) =
      b'{' ∷ joined (shown_members js_json (sorted_members (canonical_members js_json fs)))
      ++ b'}' ∷ []
  canonical_json js_json v = js_json v

  pub canonical_items : (Json → Text) → Items → List Text
  canonical_items js_json nil = []
  canonical_items js_json (cons v vs) = canonical_json js_json v ∷ canonical_items js_json vs

  pub canonical_members : (Json → Text) → Fields → List Member
  canonical_members js_json end = []
  canonical_members js_json (field k v fs) =
      (k, canonical_json js_json v) ∷ canonical_members js_json fs

abbrev pub domain_hash : (Text → Text) → Text → Text → Text
domain_hash sha256 tag body =
    codes "0x" ++ sha256 (codes "FLOP::tclk::v1" ++ b'|' ∷ tag ++ b'|' ∷ body)

unfoldable pub offer_id : (Json → Text) → (Text → Text) → Fields → Text
offer_id js_json sha256 fields =
    domain_hash sha256 (codes "offer") (canonical_json js_json (object (without "id" fields)))

unfoldable pub contract_id : (Json → Text) → (Text → Text) → Fields → Fields → Text
contract_id js_json sha256 offer core = domain_hash sha256 (codes "contract") (
    canonical_json js_json
      (object (field "offer" (object offer) (field "accept" (object core) end))))

-- the first `n` code points, `t[:n]`
unfoldable pub first_codes : ℕ → Text → Text
first_codes zero t = []
first_codes (suc n) [] = []
first_codes (suc n) (c ∷ t) = c ∷ first_codes n t

abbrev pub hex_part : Text → Text
hex_part contract =
    if starts (codes "0x") contract then drop_codes (codes "0x") contract else contract

-- `t[n:]`
unfoldable pub after_codes : ℕ → Text → Text
after_codes zero t = t
after_codes (suc n) [] = []
after_codes (suc n) (c ∷ t) = after_codes n t

unfoldable pub deal_room : Text → Text
deal_room contract = codes "mb-p-tclk-" ++ first_codes 16 (hex_part contract)

-- `(hexed[:2], hexed[2:16])`
unfoldable pub state_note : Text → Text × Text
state_note contract =
    (first_codes 2 (hex_part contract), first_codes 14 (after_codes 2 (hex_part contract)))
