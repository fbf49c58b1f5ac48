-- ===== src/Worker/Recovery.antt =====
-- What `_try_continuation` of apps/worker/worker.py leaves behind when it calls no tool.
use lumi_observatory.Base.{ℕ, Bool, true, false, ◌≡◌, Option, none, some, ◌⊎◌}
use lumi_observatory.Base.Int.{ℤ}
use lumi_observatory.Base.Text.{◌=ₛ◌}
use lumi_observatory.Policy.Records.{RunStatus, RunRow, Execution, find_run, find_execution}
use lumi_observatory.Worker.Store.{Store}
use lumi_observatory.Worker.Continue.{Next, handled, raised}

abbrev pub succeeded : Option Execution → Bool
succeeded none = false
succeeded (some x) = x.status =ₛ "SUCCEEDED"

abbrev pub is_open : Option Execution → Bool
is_open none = false
is_open (some x) = x.status =ₛ "PENDING"

-- the row a redelivered run ends with
abbrev pub closed_row : ℤ → Bool → RunRow → RunRow
closed_row now true r = record r { status = RunStatus.completed; finished_at = some now }
closed_row now false r = record r {
  status = RunStatus.failed;
  error = some "needs_reconciliation";
  finished_at = some now;
}

-- the message is handled, the run closed by the outcome, and no execution left open
abbrev pub IsSettled : ℕ → ℤ → RunRow → ℕ → Store → Store × Next → Type 0
IsSettled k now r i s (next, n) =
    (n ≡ handled)
    × (find_run k next.db.runs
        ≡ some (closed_row now (succeeded (find_execution i s.db.executions)) r))
    × (is_open (find_execution i next.db.executions) ≡ false)

-- a redelivery whose event may fail: without it the message stays pending, and either nothing is changed, where the
-- execution was pending, or the run is closed all the same
abbrev pub IsRecovered : Bool → ℕ → ℤ → RunRow → ℕ → Store → Store × Next → Type 0
IsRecovered true k now r i s result = IsSettled k now r i s result
IsRecovered false k now r i s (next, n) =
    (n ≡ raised)
    × ((is_open (find_execution i s.db.executions) ≡ true) × (next ≡ s)
        ⊎ (find_run k next.db.runs
            ≡ some (closed_row now (succeeded (find_execution i s.db.executions)) r))
          × (is_open (find_execution i next.db.executions) ≡ false))
