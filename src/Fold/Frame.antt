-- ===== src/Fold/Frame.antt =====
-- Frames of apps/scheduler/br_fold.py: their canonical ids, `validate_frame` and `decode_frame`.
use Prim.Native.String.{slice, ◌++◌}
use lumi_observatory.Base.{
  ℕ, ◌==◌, Bool, false, not, ◌&&◌, String, List, [], ◌∷◌, Option, none, some, if◌then◌else◌, is_nil,
}
use lumi_observatory.Base.Int.{ℤ, pos, leb_ℤ}
use lumi_observatory.Base.Text.{◌=ₛ◌, one_of, codes, is_space, lstrip, strip, starts}
use lumi_observatory.Fold.Json.{
  Json, Items, Fields, null, int, text, array, object, nil, cons, end, field, get, keys, without,
  is_null, is_text, is_one_of, is_hashable,
}
use lumi_observatory.Fold.Pattern.{
  did_re, hex32, nonce_re, amount_re, asset_re, rail_re, statement_re,
}
use lumi_observatory.Fold.Reason.{
  Kind, offer, accept, lock, reveal, refund, cancel, receipt, heartbeat, Reason, not_decoded,
  unknown_type, missing, unexpected, not_a_string, malformed, not_a_time, bad_role, bad_lock,
  empty_rails, deadlines_order, point_without_key, offer_id_mismatch, bad_outcome, value_error,
  type_error, Result, ok, raise, ◌>>=◌, ◌>>◌,
}

-- What the file takes from `json` and `hashlib`: the parser of a text that begins with `{` (`none`
-- when it raises), the canonical printer, and the hexadecimal SHA-256 of a text and of bytes.
pub record Env : Type 0 where
  pub loads : List ℕ → Option Fields
  pub dumps : Json → String
  pub sha256_text : String → String
  pub sha256_bytes : List ℕ → String

-- `_fail`
abbrev pub fail : {A : Type 0} → Reason → Result A
fail r = raise (value_error r)

abbrev pub ensure : Bool → Reason → Result (Unit {0})
ensure b r = if b then ok tt else fail r

unfoldable pub domain_hash : Env → String → String → String
domain_hash env tag payload =
    "0x" ++ env.sha256_text ("FLOP::tclk::v1|" ++ (tag ++ ("|" ++ payload)))

unfoldable pub offer_id : Env → Fields → String
unfolding domain_hash
offer_id env fields = domain_hash env "offer" (env.dumps (object (without "id" fields)))

-- the core of an acceptance without its absent fields
abbrev pub accept_core : Fields → Fields
accept_core frame =
    let rest = field "statement" (get "statement" frame) (field "nonce" (get "nonce" frame) end) in
    let key = get "paymentKey" frame in
    field "from" (get "from" frame)
      (field "ref" (get "ref" frame) (if is_null key then rest else field "paymentKey" key rest))

unfoldable pub contract_id : Env → Fields → Fields → String
unfolding domain_hash
contract_id env offered frame = domain_hash env "contract" (
    env.dumps
      (object (field "offer" (object offered) (field "accept" (object (accept_core frame)) end))))

-- `contract[2:18]`; a contract id is ASCII, so its bytes are its characters
unfoldable pub deal_room : String → String
deal_room contract = "mb-p-tclk-" ++ slice contract 2 18

-- membership of `TYPES`
unfoldable pub kind_of_text : String → Option Kind
kind_of_text s =
    if s =ₛ "offer"
    then some offer
    else if s =ₛ "accept"
    then some accept
    else if s =ₛ "lock"
    then some lock
    else if s =ₛ "reveal"
    then some reveal
    else if s =ₛ "refund"
    then some refund
    else if s =ₛ "cancel"
    then some cancel
    else if s =ₛ "receipt"
    then some receipt
    else if s =ₛ "heartbeat"
    then some heartbeat
    else none

unfoldable pub kind_of : Json → Option Kind
unfolding kind_of_text
kind_of (text s) = kind_of_text s
kind_of _ = none

-- `FIELDS`: the required keys in sorted order, and the optional ones
unfoldable pub required : Kind → List String
required offer =
    "amount" ∷ "asset" ∷ "claimByMs" ∷ "expiresMs" ∷ "from" ∷ "id" ∷ "lock" ∷ "nonce" ∷ "rails"
    ∷ "refundAfterMs" ∷ "role" ∷ "type" ∷ []
required accept = "contract" ∷ "from" ∷ "nonce" ∷ "ref" ∷ "statement" ∷ "type" ∷ []
required lock = "contract" ∷ "from" ∷ "rail" ∷ "ref" ∷ "type" ∷ []
required reveal = "contract" ∷ "from" ∷ "secret" ∷ "type" ∷ []
required refund = "contract" ∷ "from" ∷ "type" ∷ []
required cancel = "contract" ∷ "from" ∷ "type" ∷ []
required receipt = "contract" ∷ "from" ∷ "outcome" ∷ "type" ∷ []
required heartbeat = "contract" ∷ "from" ∷ "nonce" ∷ "type" ∷ []

unfoldable pub optional : Kind → List String
optional offer = "paymentKey" ∷ "job" ∷ []
optional accept = "paymentKey" ∷ []
optional lock = "presig" ∷ []
optional reveal = "ref" ∷ []
optional refund = "ref" ∷ "reason" ∷ []
optional cancel = "reason" ∷ []
optional receipt = "rail" ∷ "ref" ∷ []
optional heartbeat = "note" ∷ []

-- `required - keys`
unfoldable pub absent : List String → List String → List String
absent [] have = []
absent (k ∷ ks) have = let rest = absent ks have in if one_of k have then rest else k ∷ rest

-- `_req_str`, with and without a pattern
unfoldable pub req_match : (String → Bool) → String → Json → Result (Unit {0})
req_match p name (text s) = ensure (p s) (malformed name)
req_match p name _ = fail (not_a_string name)

unfoldable pub req_str : String → Json → Result (Unit {0})
req_str name (text s) = ok tt
req_str name _ = fail (not_a_string name)

-- `if value is not None: _req_str(value, name)`
unfoldable pub req_optional : String → Json → Result (Unit {0})
unfolding req_str
req_optional name null = ok tt
req_optional name v = req_str name v

-- `_req_ms`
unfoldable pub req_ms : String → Json → Result ℤ
req_ms name (int (pos n)) = ok (pos n)
req_ms name _ = fail (not_a_time name)

unfoldable pub req_rails : Items → Result (Unit {0})
unfolding req_match
req_rails nil = ok tt
req_rails (cons v vs) = let rest = req_rails vs in req_match rail_re "rail" v >> rest

unfoldable pub req_rail_list : Json → Result (Unit {0})
unfolding req_rails
req_rail_list (array nil) = fail empty_rails
req_rail_list (array (cons v vs)) = req_rails (cons v vs)
req_rail_list _ = fail empty_rails

unfoldable pub validate_offer : Env → Fields → Result (Unit {0})
unfolding req_match req_rail_list req_ms
validate_offer env f = do
  ensure (is_one_of (get "role" f) ("payer" ∷ "payee" ∷ [])) bad_role
  req_match amount_re "amount" (get "amount" f)
  req_match asset_re "asset" (get "asset" f)
  ensure (is_one_of (get "lock" f) ("hash" ∷ "point" ∷ [])) bad_lock
  req_rail_list (get "rails" f)
  claim_by ← req_ms "claimByMs" (get "claimByMs" f)
  refund_after ← req_ms "refundAfterMs" (get "refundAfterMs" f)
  _ ← req_ms "expiresMs" (get "expiresMs" f)
  ensure (not (leb_ℤ refund_after claim_by)) deadlines_order
  ensure (not (is_text (get "lock" f) "point" && is_null (get "paymentKey" f))) point_without_key
  req_match nonce_re "nonce" (get "nonce" f)
  ensure (is_text (get "id" f) (offer_id env f)) (offer_id_mismatch (offer_id env f))

-- `frame.get("outcome") not in TERMINAL` hashes the outcome
unfoldable pub req_outcome : Json → Result (Unit {0})
req_outcome v =
    if is_hashable v
    then ensure (is_one_of v ("claimed" ∷ "refunded" ∷ "cancelled" ∷ [])) bad_outcome
    else raise type_error

unfoldable pub req_optional_rail : Json → Result (Unit {0})
unfolding req_match
req_optional_rail null = ok tt
req_optional_rail v = req_match rail_re "rail" v

unfoldable pub validate_kind : Env → Kind → Fields → Result (Unit {0})
unfolding validate_offer req_match req_str req_optional req_outcome req_optional_rail
validate_kind env offer f = validate_offer env f
validate_kind env accept f = do
  req_match hex32 "ref" (get "ref" f)
  req_match statement_re "statement" (get "statement" f)
  req_match hex32 "contract" (get "contract" f)
  req_match nonce_re "nonce" (get "nonce" f)
validate_kind env lock f = do
  req_match hex32 "contract" (get "contract" f)
  req_match rail_re "rail" (get "rail" f)
  req_str "ref" (get "ref" f)
validate_kind env reveal f = do
  req_match hex32 "contract" (get "contract" f)
  req_optional "ref" (get "ref" f)
  req_match hex32 "secret" (get "secret" f)
validate_kind env refund f = do
  req_match hex32 "contract" (get "contract" f)
  req_optional "ref" (get "ref" f)
  req_optional "reason" (get "reason" f)
validate_kind env cancel f = do
  req_match hex32 "contract" (get "contract" f)
  req_optional "reason" (get "reason" f)
validate_kind env receipt f = do
  req_match hex32 "contract" (get "contract" f)
  req_outcome (get "outcome" f)
  req_optional_rail (get "rail" f)
  req_optional "ref" (get "ref" f)
validate_kind env heartbeat f = do
  req_match hex32 "contract" (get "contract" f)
  req_match nonce_re "nonce" (get "nonce" f)
  req_optional "note" (get "note" f)

-- `ftype not in TYPES` hashes the type; a `set` refuses a list or a dict with a `TypeError`
unfoldable pub req_type : Json → Result Kind
unfolding kind_of
req_type v =
    if is_hashable v
    then (elim (kind_of v) [ none ↦ fail (unknown_type v) | some k ↦ ok k ])
    else raise type_error

unfoldable pub validate_keys : Kind → Fields → Result (Unit {0})
unfolding absent required optional
validate_keys k f = do
  let lacking = absent (required k) (keys f)
  ensure (is_nil lacking) (missing k lacking)
  let extra = absent (absent (keys f) (required k)) (optional k)
  ensure (is_nil extra) (unexpected k extra)

unfoldable pub validate_as : Env → Fields → Kind → Result Kind
unfolding validate_keys req_match validate_kind
validate_as env f k = do
  validate_keys k f
  req_match did_re "from" (get "from" f)
  validate_kind env k f
  ok k

-- The frame's type is handed on as a `Kind`.
unfoldable pub validate_frame : Env → Fields → Result Kind
unfolding req_type validate_as
validate_frame env f = req_type (get "type" f) >>= validate_as env f

-- LINE_RE on the stripped line: `tclk1`, white space, and a text from `{` to `}`
unfoldable pub ends_with : ℕ → List ℕ → Bool
ends_with x [] = false
ends_with x (c ∷ []) = c == x
ends_with x (c ∷ d ∷ cs) = ends_with x (d ∷ cs)

unfoldable pub braced : List ℕ → Option (List ℕ)
unfolding ends_with
braced (c ∷ d ∷ cs) = if c == b'{' && ends_with b'}' (d ∷ cs) then some (c ∷ d ∷ cs) else none
braced _ = none

unfoldable pub frame_text : List ℕ → Option (List ℕ)
unfolding braced
frame_text (t ∷ c ∷ l ∷ k ∷ n ∷ s ∷ cs) =
    if starts (codes "tclk1") (t ∷ c ∷ l ∷ k ∷ n ∷ []) && is_space s
    then braced (lstrip cs)
    else none
frame_text _ = none

abbrev pub decoded : Option Fields → Result Fields
decoded none = fail not_decoded
decoded (some f) = ok f

unfoldable pub decode_frame : Env → String → Result Fields
unfolding frame_text
decode_frame env line = elim (frame_text (strip (codes line))) [
  | none ↦ fail not_decoded
  | some body ↦ decoded (env.loads body)
]
