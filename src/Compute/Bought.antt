-- ===== src/Compute/Bought.antt =====
-- A loop that ends without an exception has bought exactly what it recorded as spent.
use lumi_observatory.Base.{String, List, [], ◌∷◌, ◌++◌, ◌≡◌, refl, ◌∙◌, none, arith}
use lumi_observatory.Base.Int.{ℤ, ◌+ℤ◌}
use lumi_observatory.Compute.Budget.{Result, ok, raise, spend_cap}
use lumi_observatory.Compute.Client.{World, Reply, paid, Purchase, client_call}
use lumi_observatory.Compute.Spend.{
  Outcome, blocked, dry_run, spend, Attempt, Request, capped, attempt_live, attempt_within,
  attempt_spend,
}
use lumi_observatory.Compute.Loop.{Setup, request, Run, on_outcome, on_attempt, spend_loop}

abbrev paid_for : String → ℤ → Reply → List Purchase
paid_for call amount (paid tx) = record { call = call; amount = amount } ∷ []
paid_for call amount _ = []

abbrev pub purchase_of : Attempt → Outcome → List Purchase
purchase_of row (spend tx) = record { call = row.call; amount = row.amount_flop } ∷ []
purchase_of row _ = []

-- the purchases that the recorded rows report
abbrev pub purchases_of : List Attempt → List Purchase
purchases_of [] = []
purchases_of (row ∷ rows) = purchase_of row row.outcome ++ purchases_of rows

client_pays :
    (w : World) (call : String) (amount : ℤ)
    → (client_call w call amount).0 ≡ paid_for call amount (client_call w call amount).1
unfolding client_call
client_pays w call amount = ground arith

live_bought :
    (w : World) (r : Request) (row : Attempt)
    → (attempt_live w r).1 ≡ ok row
    → (attempt_live w r).0 ≡ purchase_of row row.outcome
unfolding attempt_live
live_bought w r row e = ground (arith, client_pays w r.call r.amount_flop)

within_bought :
    (w : World) (r : Request) (v : Result _) (row : Attempt)
    → (capped w r v).1 ≡ ok row
    → (capped w r v).0 ≡ purchase_of row row.outcome
unfolding attempt_within
within_bought w r (raise x) row e = absurd (cc)
within_bought w r (ok cap) row e = ground (arith, live_bought w r row)

attempt_bought :
    (w : World) (r : Request) (row : Attempt)
    → (attempt_spend w r).1 ≡ ok row
    → (attempt_spend w r).0 ≡ purchase_of row row.outcome
unfolding attempt_spend
attempt_bought w r row e = ground (arith, within_bought w r (spend_cap r.principal r.ratio) row)

on_outcome_bought :
    (spent : ℤ) (rest : Run) (bought : List Purchase) (row : Attempt) (o : Outcome)
    → row.outcome ≡ o
    → bought ≡ purchase_of row row.outcome
    → (rest.fault ≡ none → rest.purchases ≡ purchases_of rest.recorded)
    → (on_outcome spent rest bought row o).fault ≡ none
    → (on_outcome spent rest bought row o).purchases
      ≡ purchases_of (on_outcome spent rest bought row o).recorded
on_outcome_bought spent rest bought row (spend tx) e b ih f = rw (b, ih f)
on_outcome_bought spent rest bought row (blocked reason) e b ih f = b ∙ (rw e)
on_outcome_bought spent rest bought row (dry_run c) e b ih f = b ∙ (rw e)

on_attempt_bought :
    (spent : ℤ) (rest : Run) (bought : List Purchase) (v : Result Attempt)
    → ((row : Attempt) → v ≡ ok row → bought ≡ purchase_of row row.outcome)
    → (rest.fault ≡ none → rest.purchases ≡ purchases_of rest.recorded)
    → (on_attempt spent rest bought v).fault ≡ none
    → (on_attempt spent rest bought v).purchases
      ≡ purchases_of (on_attempt spent rest bought v).recorded
on_attempt_bought spent rest bought (raise e) b ih f = absurd (cc)
on_attempt_bought spent rest bought (ok row) b ih f =
    on_outcome_bought spent rest bought row row.outcome refl (b row refl) ih f

-- If no exception ends the loop, the purchases it made are those that its rows report as spends, in
-- order, whatever the worlds answer.
pub spend_loop_bought :
    (c : Setup) (ws : List World) (spent : ℤ)
    → (spend_loop c ws spent).fault ≡ none
    → (spend_loop c ws spent).purchases ≡ purchases_of (spend_loop c ws spent).recorded
unfolding spend_loop
spend_loop_bought c [] spent f = refl
spend_loop_bought c (w ∷ ws) spent f =
    let a = attempt_spend w (request c spent) in
    on_attempt_bought spent (spend_loop c ws (spent +ℤ c.amount)) a.0 a.1
      (attempt_bought w (request c spent)) (spend_loop_bought c ws (spent +ℤ c.amount)) f
