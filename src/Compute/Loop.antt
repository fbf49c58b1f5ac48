-- ===== src/Compute/Loop.antt =====
-- The `--loop` of `main` in apps/earn/flop_compute.py: repeat a purchase, and stop at the first refusal.
use lumi_observatory.Base.{false, List, [], ◌∷◌, ◌++◌, Option, none, some}
use lumi_observatory.Base.Int.{ℤ, ◌+ℤ◌}
use lumi_observatory.Compute.Budget.{Fault, Result, ok, raise, Ratio}
use lumi_observatory.Compute.Client.{World, Purchase}
use lumi_observatory.Compute.Spend.{Outcome, spend, Attempt, Request, attempt_spend}

-- The loop's own parameters; the amount, the principal and the ratio do not change while it runs.
pub record Setup : Type 0 where
  pub amount : ℤ
  pub principal : ℤ
  pub ratio : Ratio

abbrev pub request : Setup → ℤ → Request
request c spent = record {
  call = "compute_completion";
  amount_flop = c.amount;
  principal = c.principal;
  spent_flop = spent;
  ratio = c.ratio;
  enabled = none;
  client_ok = none;
  dry_run = false;
}

-- What a run leaves: the rows it recorded, the purchases it made, the spent total of its report, and
-- the fault that ended it, if one did.
pub record Run : Type 0 where
  pub recorded : List Attempt
  pub purchases : List Purchase
  pub spent : ℤ
  pub fault : Option Fault

-- one turn: a spend goes on, a refusal is recorded and ends the loop, an exception ends it unrecorded
abbrev pub on_outcome : ℤ → Run → List Purchase → Attempt → Outcome → Run
on_outcome spent rest bought row (spend tx) = record {
  recorded = row ∷ rest.recorded;
  purchases = bought ++ rest.purchases;
  spent = rest.spent;
  fault = rest.fault;
}
on_outcome spent rest bought row _ = record {
  recorded = row ∷ [];
  purchases = bought;
  spent = spent;
  fault = none;
}

abbrev pub on_attempt : ℤ → Run → List Purchase → Result Attempt → Run
on_attempt spent rest bought (raise e) = record {
  recorded = [];
  purchases = bought;
  spent = spent;
  fault = some e;
}
on_attempt spent rest bought (ok row) = on_outcome spent rest bought row row.outcome

-- The worlds that the attempts meet, one for each attempt: `args.loop` of them.
unfoldable pub spend_loop : Setup → List World → ℤ → Run
spend_loop c [] spent = record { recorded = []; purchases = []; spent = spent; fault = none }
spend_loop c (w ∷ ws) spent =
    let rest = spend_loop c ws (spent +ℤ c.amount) in
    let (bought, result) = attempt_spend w (request c spent) in on_attempt spent rest bought result
