-- ===== src/Compute/Spend.antt =====
-- `attempt_spend` of apps/earn/flop_compute.py: validate, cap, enable, client. The purchases that the
-- attempt made come back beside its ledger row, also where it raises.
use lumi_observatory.Base.{ℕ, ◌-◌, Bool, not, String, List, [], Option, none, some, if◌then◌else◌}
use lumi_observatory.Base.Int.{ℤ, pos, leb_ℤ, ltb_ℤ, max_zero}
use lumi_observatory.Base.Text.{one_of}
use lumi_observatory.Compute.Budget.{
  key_error, type_error, attribute_error, Result, ok, raise, Ratio, spendable_calls,
  compute_credit_calls, spend_cap,
}
use lumi_observatory.Compute.Client.{
  World, Reply, paid, refused, coroutine, Purchase, bought, client_available, client_call,
}

pub data Outcome : Type 0 where
  blocked : String → Outcome
  dry_run : Bool → Outcome
  spend : String → Outcome

-- a ledger row of an attempt, without its time stamp and the free text of `detail`
pub record Attempt : Type 0 where
  pub call : String
  pub amount_flop : ℤ
  pub outcome : Outcome

pub record Request : Type 0 where
  pub call : String
  pub amount_flop : ℤ
  pub principal : ℤ
  pub spent_flop : ℤ
  pub ratio : Ratio
  pub enabled : Option Bool
  pub client_ok : Option Bool
  pub dry_run : Bool

abbrev pub given_or : Option Bool → Bool → Bool
given_or none d = d
given_or (some b) d = b

abbrev pub Attempted : Type 0
Attempted = List Purchase × Result Attempt

abbrev pub row_of : Request → Outcome → Attempt
row_of r o = record { call = r.call; amount_flop = r.amount_flop; outcome = o }

-- `cap - max(0, spent_flop)`, floored at 0
abbrev pub room : ℕ → ℤ → ℕ
room cap spent = cap - max_zero spent

-- the live call: its reply becomes the row; a coroutine has no `get`
abbrev pub settled : Request → Reply → Result Attempt
settled r (paid tx) = ok (row_of r (spend tx))
settled r (refused reason detail) = ok (row_of r (blocked reason))
settled r coroutine = raise attribute_error

-- the client is not available: the row quotes the detail of a call that is made to obtain it
abbrev pub quoted : Request → Reply → Result Attempt
quoted r (paid tx) = raise key_error
quoted r (refused reason detail) = ok (row_of r (blocked "client_unavailable"))
quoted r coroutine = raise type_error

unfoldable pub attempt_live : World → Request → Attempted
attempt_live w r =
    let (bought, reply) = client_call w r.call r.amount_flop in
    if given_or r.client_ok (client_available w)
    then (bought, settled r reply)
    else (bought, quoted r reply)

unfoldable pub attempt_within : World → Request → ℕ → Attempted
attempt_within w r cap =
    if ltb_ℤ (pos (room cap r.spent_flop)) r.amount_flop
    then ([], ok (row_of r (blocked "cap_exceeded")))
    else if r.dry_run
    then ([], ok (row_of r (Outcome.dry_run (one_of r.call compute_credit_calls))))
    else if not (given_or r.enabled w.enabled)
    then ([], ok (row_of r (blocked "disabled")))
    else attempt_live w r

abbrev pub capped : World → Request → Result ℕ → Attempted
capped w r (raise e) = ([], raise e)
capped w r (ok cap) = attempt_within w r cap

unfoldable pub attempt_spend : World → Request → Attempted
attempt_spend w r =
    if not (one_of r.call spendable_calls)
    then ([], ok (row_of r (blocked "unknown_call")))
    else if leb_ℤ r.amount_flop (pos 0)
    then ([], ok (row_of r (blocked "invalid_amount")))
    else capped w r (spend_cap r.principal r.ratio)
