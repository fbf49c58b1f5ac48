-- ===== src/Fold/Machine.antt =====
-- The contract of apps/scheduler/br_fold.py: `open_contract` and `apply_frame`, a function for each
-- kind of frame. A state comes back on every path; a refused frame returns the state it was given.
use Prim.Native.String.{◌++◌}
use lumi_observatory.Base.{
  ℕ, ◌*◌, ◌+◌, ◌-◌, Bool, true, false, not, ◌&&◌, ◌||◌, String, List, [], ◌∷◌, Option, none, some,
  if◌then◌else◌, ◌==◌, is_some, length,
}
use lumi_observatory.Base.Int.{ℤ, leb_ℤ}
use lumi_observatory.Base.Text.{
  ◌=ₛ◌, codes, codes_eq, lower_codes, is_space, is_digit, is_hex, lower_code,
}
use lumi_observatory.Fold.Json.{Json, Fields, get, is_null, text_of, is_text, int_of, texts_of}
use lumi_observatory.Fold.Reason.{
  Kind, Status, proposed, accepted, locked, claimed, refunded, cancelled, Reason, already_open,
  in_status, different_offer, own_offer, offer_expired, contract_mismatch, acceptor_without_key,
  different_contract, different_rail_ref, non_party, not_the_payer, not_the_payee,
  refund_window_open, refund_window_closed, rail_not_offered, secret_mismatch, not_terminal,
  outcome_mismatch, rail_mismatch, ref_mismatch, rail_on_cancelled, value_error, type_error, Result,
  ok, raise, ◌>>=◌,
}
use lumi_observatory.Fold.Frame.{Env, contract_id, validate_frame}

pub record State : Type 0 where
  pub status : Status
  pub offer : Fields
  pub offer_from : String
  pub payer : Option String
  pub payee : Option String
  pub contract : Option String
  pub statement : Option String
  pub rail : Option String
  pub rail_ref : Option String
  pub secret : Option String

-- `value == name` for a name that may be `None`
abbrev pub same : Option String → String → Bool
same none s = false
same (some t) s = t =ₛ s

-- `frame.get("ref") is not None and frame["ref"] != known`
abbrev pub differs : Json → Option String → Bool
differs v known = not (is_null v) && not (same known (text_of v))

-- the same where an unknown value is not compared
abbrev pub differs_known : Json → Option String → Bool
differs_known v known = is_some known && differs v known

abbrev pub status_text : Status → String
status_text proposed = "proposed"
status_text accepted = "accepted"
status_text locked = "locked"
status_text claimed = "claimed"
status_text refunded = "refunded"
status_text cancelled = "cancelled"

-- `status in TERMINAL`
abbrev pub is_terminal : Status → Bool
is_terminal claimed = true
is_terminal refunded = true
is_terminal cancelled = true
is_terminal _ = false

abbrev pub from_of : Fields → String
from_of f = text_of (get "from" f)

abbrev pub contract_of : Fields → String
contract_of f = text_of (get "contract" f)

abbrev pub time_of : String → State → ℤ
time_of k s = int_of (get k s.offer)

-- `_is_party`
unfoldable pub is_party : State → String → Bool
is_party s did = s.offer_from =ₛ did || (same s.payer did || same s.payee did)

-- `_rail_offered`; rails are ASCII, so `lower` is that of ASCII
unfoldable pub rail_offered : List String → String → Bool
rail_offered [] selected = false
rail_offered (r ∷ rs) selected =
    (r =ₛ selected || codes_eq (lower_codes (codes r)) (lower_codes (codes selected)))
    || rail_offered rs selected

-- `bytes.fromhex`: pairs of hexadecimal digits, white space between pairs skipped
abbrev pub hex_value : ℕ → Option ℕ
hex_value c =
    if is_digit c
    then some (c - 48)
    else if is_hex (lower_code c)
    then some (lower_code c - 87)
    else none

abbrev pub hex_byte : Option ℕ → Option ℕ → Option (List ℕ) → Option (List ℕ)
hex_byte (some a) (some b) (some rest) = some ((a * 16 + b) ∷ rest)
hex_byte _ _ _ = none

unfoldable pub from_hex : List ℕ → Option (List ℕ)
from_hex [] = some []
from_hex (c ∷ []) = if is_space c then some [] else none
from_hex (c ∷ d ∷ cs) =
    let skipped = from_hex (d ∷ cs) in
    let pair = hex_byte (hex_value c) (hex_value d) (from_hex cs) in
    if is_space c then skipped else pair

abbrev pub drop_0x : List ℕ → List ℕ
drop_0x (z ∷ x ∷ cs) = if z == b'0' && x == b'x' then cs else z ∷ x ∷ cs
drop_0x cs = cs

abbrev pub opens : Env → List ℕ → Option (List ℕ) → Bool
opens env hash none = false
opens env hash (some raw) =
    length raw == 32 && codes_eq (codes ("0x" ++ env.sha256_bytes raw)) (lower_codes hash)

unfoldable pub verify_hash_preimage : Env → String → String → Bool
unfolding from_hex
verify_hash_preimage env hash preimage =
    opens env (codes hash) (from_hex (drop_0x (codes preimage)))

-- `offer.get("statement") or state["statement"]`
abbrev pub committed : State → String
committed s =
    let own = text_of (get "statement" s.offer) in
    if own =ₛ "" then (elim s.statement [ none ↦ "" | some t ↦ t ]) else own

unfoldable pub open_contract : Env → Fields → Result State
open_contract env f = do
  _ ← validate_frame env f
  let sender = from_of f
  ok (record {
    status = proposed;
    offer = f;
    offer_from = sender;
    payer = if is_text (get "role" f) "payer" then some sender else none;
    payee = if is_text (get "role" f) "payee" then some sender else none;
    contract = none;
    statement = none;
    rail = none;
    rail_ref = none;
    secret = none;
  })

-- `(ok, reason)` with the state: `none` for `(True, None)`.
abbrev pub Applied : Type 0
Applied = State × Option Reason

abbrev pub is_proposed : Status → Bool
is_proposed proposed = true
is_proposed _ = false

abbrev pub is_accepted : Status → Bool
is_accepted accepted = true
is_accepted _ = false

abbrev pub is_locked : Status → Bool
is_locked locked = true
is_locked _ = false

-- the state that an acceptance leaves: the acceptor takes the side that the offer left open
abbrev pub bind_acceptor : State → Fields → State
bind_acceptor s f =
    if is_text (get "role" s.offer) "payee"
    then record s { payer = some (from_of f) }
    else record s { payee = some (from_of f) }

unfoldable pub accepted_state : State → Fields → State
accepted_state s f =
    let t = record s {
      status = accepted;
      contract = some (contract_of f);
      statement = some (text_of (get "statement" f));
    } in
    bind_acceptor t f

unfoldable pub apply_accept : Env → State → Fields → ℤ → Applied
apply_accept env s f now =
    if not (is_proposed s.status)
    then (s, some (in_status Kind.accept s.status))
    else if not (text_of (get "ref" f) =ₛ text_of (get "id" s.offer))
    then (s, some different_offer)
    else if from_of f =ₛ s.offer_from
    then (s, some own_offer)
    else if leb_ℤ (time_of "expiresMs" s) now
    then (s, some offer_expired)
    else if not (contract_of f =ₛ contract_id env s.offer f)
    then (s, some contract_mismatch)
    else if is_text (get "lock" s.offer) "point" && is_null (get "paymentKey" f)
    then (s, some acceptor_without_key)
    else (accepted_state s f, none)

unfoldable pub apply_lock : State → Fields → ℤ → Applied
apply_lock s f now =
    if not (is_accepted s.status)
    then (s, some (in_status Kind.lock s.status))
    else if not (same s.contract (contract_of f))
    then (s, some (different_contract Kind.lock))
    else if not (same s.payer (from_of f))
    then (s, some (not_the_payer Kind.lock))
    else if leb_ℤ (time_of "refundAfterMs" s) now
    then (s, some (refund_window_open Kind.lock))
    else if not (rail_offered (texts_of (get "rails" s.offer)) (text_of (get "rail" f)))
    then (s, some (rail_not_offered (text_of (get "rail" f))))
    else (
      record s {
        status = locked;
        rail = some (text_of (get "rail" f));
        rail_ref = some (text_of (get "ref" f));
      },
      none,
    )

unfoldable pub apply_reveal : Env → State → Fields → ℤ → Applied
apply_reveal env s f now =
    if not (is_locked s.status)
    then (s, some (in_status Kind.reveal s.status))
    else if not (same s.contract (contract_of f))
    then (s, some (different_contract Kind.reveal))
    else if differs (get "ref" f) s.rail_ref
    then (s, some (different_rail_ref Kind.reveal))
    else if not (same s.payee (from_of f))
    then (s, some (not_the_payee Kind.reveal))
    else if leb_ℤ (time_of "refundAfterMs" s) now
    then (s, some (refund_window_open Kind.reveal))
    else if not (verify_hash_preimage env (committed s) (text_of (get "secret" f)))
    then (s, some secret_mismatch)
    else (record s { status = claimed; secret = some (text_of (get "secret" f)) }, none)

unfoldable pub apply_refund : State → Fields → ℤ → Applied
apply_refund s f now =
    if not (is_locked s.status)
    then (s, some (in_status Kind.refund s.status))
    else if not (same s.contract (contract_of f))
    then (s, some (different_contract Kind.refund))
    else if differs (get "ref" f) s.rail_ref
    then (s, some (different_rail_ref Kind.refund))
    else if not (same s.payer (from_of f))
    then (s, some (not_the_payer Kind.refund))
    else if not (leb_ℤ (time_of "refundAfterMs" s) now)
    then (s, some (refund_window_closed Kind.refund))
    else (record s { status = refunded }, none)

unfoldable pub apply_cancel : State → Fields → Applied
apply_cancel s f =
    if not (is_proposed s.status || is_accepted s.status)
    then (s, some (in_status Kind.cancel s.status))
    else if is_accepted s.status && not (same s.contract (contract_of f))
    then (s, some (different_contract Kind.cancel))
    else if not (is_party s (from_of f))
    then (s, some (non_party Kind.cancel))
    else (record s { status = cancelled }, none)

abbrev pub is_cancelled : Status → Bool
is_cancelled cancelled = true
is_cancelled _ = false

-- the tests of a receipt's optional `rail` and `ref`; they change nothing
unfoldable pub settlement_refusal : State → Fields → Option Reason
settlement_refusal s f =
    if differs_known (get "rail" f) s.rail
    then some (rail_mismatch (text_of (get "rail" f)))
    else if differs_known (get "ref" f) s.rail_ref
    then some ref_mismatch
    else if is_cancelled s.status && not (is_null (get "rail" f) && is_null (get "ref" f))
    then some rail_on_cancelled
    else none

unfoldable pub apply_receipt : State → Fields → Applied
apply_receipt s f =
    if not (is_terminal s.status)
    then (s, some not_terminal)
    else if not (same s.contract (contract_of f))
    then (s, some (different_contract Kind.receipt))
    else if not (is_party s (from_of f))
    then (s, some (non_party Kind.receipt))
    else if not (text_of (get "outcome" f) =ₛ status_text s.status)
    then (s, some (outcome_mismatch (text_of (get "outcome" f)) s.status))
    else (s, settlement_refusal s f)

unfoldable pub apply_heartbeat : State → Fields → Applied
apply_heartbeat s f =
    if not (is_accepted s.status || is_locked s.status)
    then (s, some (in_status Kind.heartbeat s.status))
    else if not (same s.contract (contract_of f))
    then (s, some (different_contract Kind.heartbeat))
    else if not (is_party s (from_of f))
    then (s, some (non_party Kind.heartbeat))
    else (s, none)

-- the cascade of `ftype` tests after the frame is validated
unfoldable pub apply_kind : Env → Kind → State → Fields → ℤ → Applied
apply_kind env Kind.offer s f now = (s, some already_open)
apply_kind env Kind.accept s f now = apply_accept env s f now
apply_kind env Kind.lock s f now = apply_lock s f now
apply_kind env Kind.reveal s f now = apply_reveal env s f now
apply_kind env Kind.refund s f now = apply_refund s f now
apply_kind env Kind.cancel s f now = apply_cancel s f
apply_kind env Kind.receipt s f now = apply_receipt s f
apply_kind env Kind.heartbeat s f now = apply_heartbeat s f

-- A `ValueError` of the validation is a refusal; a `TypeError` is not caught.
abbrev pub applied : Env → Result Kind → State → Fields → ℤ → Result Applied
applied env (ok k) s f now = ok (apply_kind env k s f now)
applied env (raise (value_error r)) s f now = ok (s, some r)
applied env (raise type_error) s f now = raise type_error

unfoldable pub apply_frame : Env → State → Fields → ℤ → Result Applied
apply_frame env s f now = applied env (validate_frame env f) s f now
