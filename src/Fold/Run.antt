-- ===== src/Fold/Run.antt =====
-- `fold` and `answer` of apps/scheduler/br_fold.py: the loop over the records of a transcript.
use lumi_observatory.Base.{ℕ, ◌+◌, not, String, List, [], ◌∷◌, Option, none, some, if◌then◌else◌}
use lumi_observatory.Base.Int.{ℤ}
use lumi_observatory.Base.Text.{◌=ₛ◌}
use lumi_observatory.Fold.Json.{Json, Fields, null, get, is_text, is_one_of}
use lumi_observatory.Fold.Reason.{
  Status, Reason, sender_mismatch, wrong_offer_room, wrong_room, no_contract, value_error,
  type_error, Result, ok, raise, ◌>>=◌,
}
use lumi_observatory.Fold.Frame.{Env, deal_room, decode_frame}
use lumi_observatory.Fold.Machine.{State, Applied, open_contract, apply_frame}

pub record Row : Type 0 where
  pub room : String
  pub time_ms : ℤ
  pub sender : String
  pub line : String

-- An entry of `rejections`; `type` is null where the frame did not decode.
pub record Rejection : Type 0 where
  pub index : ℕ
  pub kind : Json
  pub reason : Reason

-- What one turn of the loop leaves: the contract, and the rejection it appended.
abbrev pub Turn : Type 0
Turn = Option State × Option Reason

abbrev pub offer_room : String
offer_room = "tclk-offers"

abbrev pub opened : Result State → Result Turn
opened (ok s) = ok (some s, none)
opened (raise (value_error r)) = ok (none, some r)
opened (raise type_error) = raise type_error

abbrev pub contract_room : Option String → String
contract_room none = offer_room
contract_room (some c) = deal_room c

-- `expected_room`
unfoldable pub expected_room : State → Fields → String
expected_room s f =
    if is_one_of (get "type" f) ("offer" ∷ "accept" ∷ [])
    then offer_room
    else contract_room s.contract

abbrev pub turned : Result Applied → Result Turn
turned (ok (s, r)) = ok (some s, r)
turned (raise e) = raise e

-- the rest of the loop's body, with and without an open contract
unfoldable pub turn_at : Env → Option State → Row → Fields → Result Turn
unfolding expected_room
turn_at env none row f =
    if not (is_text (get "type" f) "offer")
    then ok (none, some no_contract)
    else if not (row.room =ₛ offer_room)
    then ok (none, some wrong_offer_room)
    else opened (open_contract env f)
turn_at env (some s) row f =
    if not (row.room =ₛ expected_room s f)
    then ok (some s, some wrong_room)
    else turned (apply_frame env s f row.time_ms)

abbrev pub kind_in : Result Fields → Json
kind_in (ok f) = get "type" f
kind_in (raise e) = null

abbrev pub turn_on : Env → Option State → Row → Result Fields → Result Turn
turn_on env state row (raise (value_error r)) = ok (state, some r)
turn_on env state row (raise type_error) = raise type_error
turn_on env state row (ok f) =
    if not (is_text (get "from" f) row.sender)
    then ok (state, some sender_mismatch)
    else turn_at env state row f

unfoldable pub turn : Env → Option State → Row → Result Turn
turn env state row = turn_on env state row (decode_frame env row.line)

abbrev pub rejected : Env → ℕ → Row → Option Reason → List Rejection → List Rejection
rejected env index row none rest = rest
rejected env index row (some r) rest =
    record { index = index; kind = kind_in (decode_frame env row.line); reason = r } ∷ rest

abbrev pub Folded : Type 0
Folded = Option State × List Rejection

-- the loop from a record's index on
unfoldable pub fold_from : Env → ℕ → Option State → List Row → Result Folded
fold_from env index state [] = ok (state, [])
fold_from env index state (row ∷ rows) = elim (turn env state row) [
  | raise e ↦ raise e
  | ok (state', reason) ↦ (do
    (final, rest) ← fold_from env (index + 1) state' rows
    ok (final, rejected env index row reason rest))
]

abbrev pub status_of : Option State → Option Status
status_of none = none
status_of (some s) = some s.status

unfoldable pub fold : Env → List Row → Result (Option Status × List Rejection)
unfolding fold_from
fold env rows = do (final, rejections) ← fold_from env 0 none rows; ok (status_of final, rejections)

-- The one-line answer: the status, and the first rejection if there is one.
abbrev pub first_of_list : List Rejection → Option Rejection
first_of_list [] = none
first_of_list (r ∷ rs) = some r

abbrev pub answer_of : Option Status × List Rejection → Option (Status × Option Rejection)
answer_of (none, rs) = none
answer_of (some s, rs) = some (s, first_of_list rs)

-- `answer` from the parsed rows on; no rows, no answer
unfoldable pub answer : Env → List Row → Result (Option (Status × Option Rejection))
unfolding fold
answer env [] = ok none
answer env (row ∷ rows) = do folded ← fold env (row ∷ rows); ok (answer_of folded)
