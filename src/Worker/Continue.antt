-- ===== src/Worker/Continue.antt =====
-- WorkerLoop._try_continuation of apps/worker/worker.py as its transactions: the first one, which consumes an approval
-- or reconciles a consumed one, and the two that finish after the call of the tool. `event_ok` says whether the
-- append of the event succeeds; where it raises inside a transaction, that is rolled back.
use lumi_observatory.Base.{
  ℕ, ◌==◌, Bool, true, false, ◌&&◌, ◌||◌, String, List, [], ◌∷◌, ◌++◌, Option, none, some,
  if◌then◌else◌,
}
use lumi_observatory.Base.Int.{ℤ}
use lumi_observatory.Base.Text.{◌=ₛ◌}
use lumi_observatory.Policy.Records.{
  Status, RunStatus, RunRow, Approval, Execution, Db, find_run, find_execution, write_execution,
}
use lumi_observatory.Policy.Service.{is_approved, is_consumed, Recorded, consume_and_record}
use lumi_observatory.Worker.Store.{
  Event, approval_ambiguous, replay_blocked, Store, set_run, is_executing,
}

abbrev pub is_run : ℕ → Option ℕ → Bool
is_run k none = false
is_run k (some j) = j == k

abbrev pub later_or : Option Approval → Option Approval → Option Approval
later_or (some a) o = some a
later_or none o = o

-- the latest approval of the run with the status, `order_by(created_at.desc())`
unfoldable pub latest : ℕ → (Status → Bool) → List Approval → Option Approval
latest k test [] = none
latest k test (a ∷ rest) =
    later_or (latest k test rest) (if is_run k a.run_id && test a.status then some a else none)

-- what the first transaction leads to; `proceed` is the return of False
pub data Next : Type 0 where
  proceed handled raised : Next
  execute : (approval_id : ℕ) (tool : String) → Next

abbrev pub append_event : Event → Store → Store
append_event e s = record s { events = s.events ++ e ∷ [] }

-- `if run_row is not None and run_row.status == EXECUTING`
abbrev pub close_row : RunStatus → Option String → ℤ → Option RunRow → Store → Store
close_row status error now none s = s
close_row status error now (some r) s =
    if is_executing r.status
    then set_run (record r { status = status; error = error; finished_at = some now }) s
    else s

abbrev pub error_of : Option RunRow → Option String
error_of none = none
error_of (some r) = r.error

unfoldable pub fail_executing : ℕ → ℤ → Store → Store
fail_executing k now s =
    close_row RunStatus.failed (some "needs_reconciliation") now (find_run k s.db.runs) s

unfoldable pub complete_executing : ℕ → ℤ → Store → Store
complete_executing k now s =
    close_row RunStatus.completed (error_of (find_run k s.db.runs)) now (find_run k s.db.runs) s

abbrev pub set_execution : Execution → Store → Store
set_execution x s = record s { db = record s.db { executions = write_execution x s.db.executions } }

-- the event after the commit
abbrev pub then_event : Bool → Event → Store → Store × Next
then_event true e s = (append_event e s, handled)
then_event false e s = (s, raised)

-- a consumed approval with its execution, of which only the result of the first call may stand
abbrev pub reconcile_status : ℕ → ℤ → Bool → Approval → Execution → Store → Store × Next
reconcile_status k now event_ok a x s =
    if x.status =ₛ "PENDING"
    then (if event_ok
        then (
          append_event (approval_ambiguous a.id)
              (fail_executing k now (set_execution (record x { status = "AMBIGUOUS" }) s)),
          handled,
        )
        else (s, raised))
    else if x.status =ₛ "SUCCEEDED"
    then then_event event_ok (replay_blocked a.id) (complete_executing k now s)
    else if x.status =ₛ "FAILED" || x.status =ₛ "AMBIGUOUS"
    then then_event event_ok (replay_blocked a.id) (fail_executing k now s)
    else then_event event_ok (approval_ambiguous a.id) (fail_executing k now s)

abbrev pub lost_execution : (ℕ → String) → ℕ → Approval → Execution
lost_execution show k a = record {
  approval_id = a.id;
  run_id = k;
  action_id = show a.id;
  tool = "";
  status = "AMBIGUOUS";
  result = "consumed_without_execution";
}

abbrev pub add_execution : Execution → Store → Store
add_execution x s = record s { db = record s.db { executions = s.db.executions ++ x ∷ [] } }

abbrev pub reconcile :
    (ℕ → String) → ℕ → ℤ → Bool → Approval → Option Execution → Store → Store × Next
reconcile show k now event_ok a none s =
    then_event event_ok (approval_ambiguous a.id)
      (fail_executing k now (add_execution (lost_execution show k a) s))
reconcile show k now event_ok a (some x) s = reconcile_status k now event_ok a x s

abbrev pub recover : (ℕ → String) → ℕ → ℤ → Bool → Option Approval → Store → Store × Next
recover show k now event_ok none s = (s, proceed)
recover show k now event_ok (some a) s =
    reconcile show k now event_ok a (find_execution a.id s.db.executions) s

-- the tool of the locked payload, else of the one read first
abbrev pub locked_tool : Option Approval → Approval → String
locked_tool none a = a.tool
locked_tool (some b) a = b.tool

abbrev pub after_consume : Bool → Approval → Store → Db × Recorded → Store × Next
after_consume event_ok a s (db, (true, locked, x)) =
    (record s { db = db }, execute a.id (locked_tool locked a))
after_consume event_ok a s (db, (false, locked, x)) =
    then_event event_ok (replay_blocked a.id) (record s { db = db })

abbrev pub continue_with :
    (String → Option ℕ) → (ℕ → String) → ℕ → ℤ → Bool → Option Approval → Store → Store × Next
continue_with parse show k now event_ok none s =
    recover show k now event_ok (latest k is_consumed s.db.approvals) s
continue_with parse show k now event_ok (some a) s =
    after_consume event_ok a s (consume_and_record parse show (show a.id) (show k) now s.db)

-- the first transaction
unfoldable pub try_continuation :
    (String → Option ℕ) → (ℕ → String) → ℕ → ℤ → Bool → Store → Store × Next
try_continuation parse show k now event_ok s =
    continue_with parse show k now event_ok (latest k is_approved s.db.approvals) s

abbrev pub finish_execution : Option Execution → String → String → Store → Store
finish_execution none status result s = s
finish_execution (some x) status result s =
    set_execution (record x { status = status; result = result }) s

abbrev pub finish_row : RunStatus → Option String → ℤ → Option RunRow → Store → Store
finish_row status error now none s = s
finish_row status error now (some r) s =
    set_run (record r { status = status; error = error; finished_at = some now }) s

-- the final transaction after a call that returned
unfoldable pub finish_succeeded : ℕ → ℕ → String → ℤ → Store → Store
finish_succeeded k approval_id result now s =
    finish_row RunStatus.completed (error_of (find_run k s.db.runs)) now (find_run k s.db.runs)
      (finish_execution (find_execution approval_id s.db.executions) "SUCCEEDED" result s)

-- the final transaction of the except branch
unfoldable pub finish_ambiguous : ℕ → ℕ → String → ℤ → Store → Store
finish_ambiguous k approval_id error now s =
    finish_row RunStatus.failed (some "needs_reconciliation") now (find_run k s.db.runs)
      (finish_execution (find_execution approval_id s.db.executions) "AMBIGUOUS" error s)
