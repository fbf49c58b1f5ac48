-- ===== src/Compute/Tests.antt =====
-- Runs of the compute-spend lane, and its theorems at concrete inputs.
use lumi_observatory.Base.{ℕ, true, false, List, [], ◌∷◌, ◌++◌, ◌≡◌, refl, none, some, arith, map}
use lumi_observatory.Base.Int.{pos, ◌+ℤ◌, ◌≤ℤ◌}
use lumi_observatory.Compute.Budget.{
  Ratio, default_cap_ratio, Plan, plan, plan_quarter, Result, ok, raise, key_error, type_error,
  attribute_error, spend_cap,
}
use lumi_observatory.Compute.Client.{World, receipt, failure, client_call, client_available}
use lumi_observatory.Compute.Spend.{Request, attempt_spend, attempt_within, attempt_live}
use lumi_observatory.Compute.Ledger
use lumi_observatory.Compute.Ledger.{Row, Summary, summarize, tally}
use lumi_observatory.Compute.Loop.{Setup, request, Run, spend_loop}
use lumi_observatory.Compute.Cleared
use lumi_observatory.Compute.Budget
use lumi_observatory.Compute.Cleared.{
  IsCleared, attempt_spend-IsCleared, unrecorded_purchase, agent_transfer_raises,
}
use lumi_observatory.Compute.Report.{IsConsistent}
use lumi_observatory.Compute.Counts.{AddsUp, summarize-AddsUp}
use lumi_observatory.Compute.Bound.{ledger_row, spend_loop_report}

-- only the chain client is configured, and it sells
abbrev chain_only : World
chain_only = record {
  enabled = true;
  gateway_ready = false;
  rpc_set = false;
  cli_found = false;
  chain_present = true;
  chain_ready = true;
  destination_set = true;
  chain_buy = λ amount. receipt "0xt";
  gateway_complete = λ tokens. failure "unused" "";
}

-- the chain client sells, and the gateway is ready too
abbrev both : World
both = record chain_only { gateway_ready = true }

abbrev forty : Setup
forty = record { amount = pos 40; principal = pos 100; ratio = default_cap_ratio }

abbrev transfer : Request
transfer = record (request forty (pos 0)) { call = "agent_transfer" }

plan_1200 : Result Plan
plan_1200 = plan (pos 1200) (pos 0) default_cap_ratio

abbrev planned : Plan
planned = record {
  principal_flop = pos 1200;
  cap_ratio = default_cap_ratio;
  cap_flop = 900;
  spent_flop = 0;
  remaining_flop = 900;
  projected_unlock_flop = 300;
  dispute_window_days = 7;
}

plan_1200_lem : plan (pos 1200) (pos 0) default_cap_ratio ≡ ok planned
unfolding plan
plan_1200_lem = refl

unfoldable lane : Unit {0}
unfolding attempt_spend attempt_within attempt_live client_call client_available spend_cap
    spend_loop summarize tally ◌+ℤ◌
lane = tt

transfer-IsCleared : IsCleared chain_only transfer 75
unfolding lane
transfer-IsCleared = record {
  known = refl;
  positive = omega arith;
  ceiling = refl;
  fits = omega arith;
  live = refl;
  allowed = refl;
}

buy-IsCleared : IsCleared chain_only (request forty (pos 0)) 75
unfolding lane
buy-IsCleared = record {
  known = refl;
  positive = omega arith;
  ceiling = refl;
  fits = omega arith;
  live = refl;
  allowed = refl;
}

buy_unready : client_available chain_only ≡ false
unfolding lane
buy_unready = refl

unrecorded_purchase_example :
    attempt_spend chain_only (request forty (pos 0))
    ≡ (record { call = "compute_completion"; amount = pos 40 } ∷ [], raise key_error)
unrecorded_purchase_example =
    unrecorded_purchase chain_only (request forty (pos 0)) 75 "0xt" buy-IsCleared refl refl
      buy_unready refl refl refl

attempt_acts : Cleared.acts (attempt_spend both (request forty (pos 0))) ≡ true
unfolding lane
attempt_acts = refl

attempt_spend-IsCleared_example : (cap : ℕ) × IsCleared both (request forty (pos 0)) cap
attempt_spend-IsCleared_example = attempt_spend-IsCleared both (request forty (pos 0)) attempt_acts

-- the second purchase of 40 does not fit under 75
abbrev run_of_two : Run
run_of_two = spend_loop forty (both ∷ both ∷ both ∷ []) (pos 0)

run_of_two_lem : (run_of_two.spent ≡ pos 40) × (run_of_two.fault ≡ none)
unfolding lane
run_of_two_lem = (refl, refl)

cap_75 : spend_cap (pos 100) default_cap_ratio ≡ ok 75
unfolding lane
cap_75 = refl

empty_ledger : summarize [] ≡ ok Ledger.empty
unfolding lane
empty_ledger = refl

spend_loop_report_example :
    (run_of_two.spent ≤ℤ pos 75)
    × ((t : Summary) × (summarize ([] ++ map ledger_row run_of_two.recorded) ≡ ok t)
        × (t.spent_flop ≡ run_of_two.spent))
spend_loop_report_example =
    spend_loop_report forty 75 (both ∷ both ∷ both ∷ []) [] Ledger.empty cap_75 empty_ledger
      (omega arith) (omega arith)

abbrev two_rows : List Row
two_rows =
    Row.settlement true true none (some (pos 10))
    ∷ Row.spend (some "open_channel") (some (pos 5))
    ∷ []

abbrev two_rows_summary : Summary
two_rows_summary = record Ledger.empty {
  rows = 2;
  spent_flop = pos 5;
  spent_by_call = ("open_channel", pos 5) ∷ [];
  credited_k_locked_flop = pos 10;
  unlocked_flop = 3;
}

two_rows_lem : summarize two_rows ≡ ok two_rows_summary
unfolding lane Budget.credit_for_payable
two_rows_lem = refl

summarize-AddsUp_example : AddsUp two_rows two_rows_summary × IsConsistent two_rows_summary
summarize-AddsUp_example = summarize-AddsUp two_rows two_rows_summary two_rows_lem
