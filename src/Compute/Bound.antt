-- ===== src/Compute/Bound.antt =====
-- The loop stays under the ceiling, buys what it records, and leaves a ledger that reports its total.
use lumi_observatory.Base.{
  ℕ, true, false, String, List, [], ◌∷◌, ◌++◌, ◌≡◌, refl, sym, ◌∙◌, some, arith, map,
}
use lumi_observatory.Base.Int.{ℤ, pos, ◌+ℤ◌, ◌≤ℤ◌, ◌<ℤ◌, int_laws}
use lumi_observatory.Compute.Budget.{Result, ok, raise, spend_cap, ok_inj}
use lumi_observatory.Compute.Client.{World, Purchase}
use lumi_observatory.Compute.Spend.{
  Outcome, blocked, dry_run, spend, Attempt, Request, Attempted, capped, attempt_live,
  attempt_within, attempt_spend,
}
use lumi_observatory.Compute.Ledger
use lumi_observatory.Compute.Ledger.{Row, Summary, tally, summarize_from, summarize}
use lumi_observatory.Compute.Loop.{Setup, request, Run, on_outcome, on_attempt, spend_loop}
use lumi_observatory.Compute.Cleared.{acts, is_spend, attempt_spend-IsCleared}
use lumi_observatory.Compute.Report.{
  spent_in, row_amount, summarize_from_counts, summarize_from-append,
}

-- a row of `attempt_spend` as it stands on the ledger
abbrev pub row_for : Attempt → Outcome → Row
row_for a (blocked reason) = Row.blocked (some reason)
row_for a (dry_run c) = Row.dry_run
row_for a (spend tx) = Row.spend (some a.call) (some a.amount_flop)

abbrev pub ledger_row : Attempt → Row
ledger_row a = row_for a a.outcome

abbrev IsCapped : ℕ → Setup → ℤ → Run → Type 0
IsCapped cap c spent run =
    (pos 0 ≤ℤ run.spent)
    × (run.spent ≤ℤ pos cap)
    × (run.spent ≡ spent +ℤ spent_in (map ledger_row run.recorded))

-- a row that says it spent is for the loop's amount, which fits
spend_fits :
    (c : Setup) (w : World) (spent : ℤ) (cap : ℕ)
    → spend_cap c.principal c.ratio ≡ ok cap
    → pos 0 ≤ℤ spent
    → acts (attempt_spend w (request c spent)) ≡ true
    → (pos 0 <ℤ c.amount) × (spent +ℤ c.amount ≤ℤ pos cap)
spend_fits c w spent cap q z h =
    let (cap', k) = attempt_spend-IsCleared w (request c spent) h in
    let same : cap' ≡ cap = ok_inj (sym k.ceiling ∙ q) in
    (k.positive, omega (int_laws, k.fits, k.positive, same, z))

-- the row of an attempt is about the request's call and amount
abbrev IsAbout : Request → Attempt → Type 0
IsAbout r row = (row.call ≡ r.call) × (row.amount_flop ≡ r.amount_flop)

live-IsAbout :
    (w : World) (r : Request) (row : Attempt) → (attempt_live w r).1 ≡ ok row → IsAbout r row
unfolding attempt_live
live-IsAbout w r row e = ground arith

within-IsAbout :
    (w : World) (r : Request) (cap : ℕ) (row : Attempt)
    → (attempt_within w r cap).1 ≡ ok row
    → IsAbout r row
unfolding attempt_within
within-IsAbout w r cap row e = ground (arith, live-IsAbout w r row)

capped-IsAbout :
    (w : World) (r : Request) (v : Result ℕ) (row : Attempt)
    → (capped w r v).1 ≡ ok row
    → IsAbout r row
capped-IsAbout w r (ok cap) row e = within-IsAbout w r cap row e
capped-IsAbout w r (raise x) row e = absurd (cc)

attempt-IsAbout :
    (w : World) (r : Request) (row : Attempt) → (attempt_spend w r).1 ≡ ok row → IsAbout r row
unfolding attempt_spend
attempt-IsAbout w r row e = ground (arith, capped-IsAbout w r (spend_cap r.principal r.ratio) row)

zero_add : (a : ℤ) → a ≡ a +ℤ pos 0
zero_add a = omega int_laws

-- what a row adds to the ledger's spent total
amount_spent :
    (row : Attempt) (tx : String)
    → row.outcome ≡ spend tx
    → row_amount (ledger_row row) ≡ row.amount_flop
amount_spent row tx e = ground arith

is_spend_row : (row : Attempt) (tx : String) → row.outcome ≡ spend tx → is_spend (ok row) ≡ true
is_spend_row row tx e = ground arith

acts_spend : (a : Attempted) → is_spend a.1 ≡ true → acts a ≡ true
acts_spend a e = ground arith

no_amount :
    (row : Attempt) (o : Outcome)
    → row.outcome ≡ o
    → is_spend (ok (record row { outcome = o })) ≡ false
    → row_amount (ledger_row row) ≡ pos 0
no_amount row (blocked reason) e h = ground arith
no_amount row (dry_run b) e h = ground arith
no_amount row (spend tx) e h = cc

module _ (c : Setup) (cap : ℕ) (ceiling : spend_cap c.principal c.ratio ≡ ok cap) where
  on_outcome-IsCapped :
      (w : World) (spent : ℤ) (rest : Run) (bought : List Purchase) (row : Attempt) (o : Outcome)
      → (attempt_spend w (request c spent)).1 ≡ ok row
      → row.outcome ≡ o
      → pos 0 ≤ℤ spent
      → spent ≤ℤ pos cap
      → (pos 0 ≤ℤ spent +ℤ c.amount
          → spent +ℤ c.amount ≤ℤ pos cap
          → IsCapped cap c (spent +ℤ c.amount) rest)
      → IsCapped cap c spent (on_outcome spent rest bought row o)
  on_outcome-IsCapped w spent rest bought row (spend tx) q e z h ih =
      let r = request c spent in
      let does : is_spend (attempt_spend w r).1 ≡ true = rw q (is_spend_row row tx e) in
      let (p, f) = spend_fits c w spent cap ceiling z (acts_spend (attempt_spend w r) does) in
      let (a, b, t) = ih (omega (int_laws, z, p)) f in
      let same : row_amount (ledger_row row) ≡ c.amount =
        amount_spent row tx e ∙ (attempt-IsAbout w r row q).1 in
      (a, b, t ∙ (rw same (omega int_laws)))
  on_outcome-IsCapped w spent rest bought row (blocked reason) q e z h ih =
      (z, h, rw (no_amount row (blocked reason) e refl) (omega int_laws))
  on_outcome-IsCapped w spent rest bought row (dry_run b) q e z h ih =
      (z, h, rw (no_amount row (dry_run b) e refl) (omega int_laws))

  on_attempt-IsCapped :
      (w : World) (spent : ℤ) (rest : Run) (bought : List Purchase) (v : Result Attempt)
      → (attempt_spend w (request c spent)).1 ≡ v
      → pos 0 ≤ℤ spent
      → spent ≤ℤ pos cap
      → (pos 0 ≤ℤ spent +ℤ c.amount
          → spent +ℤ c.amount ≤ℤ pos cap
          → IsCapped cap c (spent +ℤ c.amount) rest)
      → IsCapped cap c spent (on_attempt spent rest bought v)
  on_attempt-IsCapped w spent rest bought (raise e) q z h ih = (z, h, zero_add spent)
  on_attempt-IsCapped w spent rest bought (ok row) q z h ih =
      on_outcome-IsCapped w spent rest bought row row.outcome q refl z h ih

  loop-IsCapped :
      (ws : List World) (spent : ℤ)
      → pos 0 ≤ℤ spent
      → spent ≤ℤ pos cap
      → IsCapped cap c spent (spend_loop c ws spent)
  unfolding spend_loop
  loop-IsCapped [] spent z h = (z, h, zero_add spent)
  loop-IsCapped (w ∷ ws) spent z h =
      let a = attempt_spend w (request c spent) in
      on_attempt-IsCapped w spent (spend_loop c ws (spent +ℤ c.amount)) a.0 a.1 refl z h
        (λ z' h'. loop-IsCapped ws (spent +ℤ c.amount) z' h')

-- rows of attempts never make the report raise
one_summed :
    (s : Summary) (row : Attempt) (rest : List Row) (o : Outcome)
    → ((u : Summary) → (t : Summary) × (summarize_from u rest ≡ ok t))
    → (t : Summary) × (summarize_from s (row_for row o ∷ rest) ≡ ok t)
unfolding summarize_from tally
one_summed s row rest (blocked reason) h = h _
one_summed s row rest (dry_run c) h = h _
one_summed s row rest (spend tx) h = h _

attempts_summed :
    (s : Summary) (rows : List Attempt)
    → (t : Summary) × (summarize_from s (map ledger_row rows) ≡ ok t)
unfolding summarize_from
attempts_summed s [] = (s, refl)
attempts_summed s (row ∷ rows) =
    one_summed s row (map ledger_row rows) row.outcome (λ u. attempts_summed u rows)

-- From a ledger whose spent total lies under the ceiling, whatever the worlds that the attempts meet:
-- the loop's total stays under the ceiling, and the report of the ledger with the loop's rows appended
-- exists and gives that total.
pub spend_loop_report :
    (c : Setup) (cap : ℕ) (ws : List World) (old : List Row) (s : Summary)
    → spend_cap c.principal c.ratio ≡ ok cap
    → summarize old ≡ ok s
    → pos 0 ≤ℤ s.spent_flop
    → s.spent_flop ≤ℤ pos cap
    → let run = spend_loop c ws s.spent_flop in
      (run.spent ≤ℤ pos cap)
      × ((t : Summary) × (summarize (old ++ map ledger_row run.recorded) ≡ ok t)
          × (t.spent_flop ≡ run.spent))
unfolding summarize
spend_loop_report c cap ws old s q e z h =
    let run = spend_loop c ws s.spent_flop in
    let (_, b, d) = loop-IsCapped c cap q ws s.spent_flop z h in
    let (t, p) = attempts_summed s run.recorded in
    (
      b,
      (
        t,
        summarize_from-append Ledger.empty old (map ledger_row run.recorded) s e ∙ p,
        (summarize_from_counts s (map ledger_row run.recorded) t p).1 ∙ sym d,
      ),
    )
