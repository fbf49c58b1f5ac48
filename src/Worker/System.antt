-- ===== src/Worker/System.antt =====
-- Workers of apps/worker/worker.py side by side with the approval service, as a step function on the shared tables. A
-- worker's place says where in `_process_run` it stands; an act is one transaction, one call of a tool, or a crash.
-- A call that `_try_continuation` makes is written down under the approval it is made for.
use lumi_observatory.Base.{
  ℕ, zero, suc, ◌==◌, Bool, true, false, String, List, [], ◌∷◌, Option, none, some, if◌then◌else◌,
}
use lumi_observatory.Base.Int.{ℤ, pos, ◌+ℤ◌}
use lumi_observatory.Base.Text.{◌=ₛ◌}
use lumi_observatory.Policy.Records.{RunStatus, RunRow, find_run}
use lumi_observatory.Policy.Trace
use lumi_observatory.Policy.Trace.{Op}
use lumi_observatory.Worker.Store.{
  called, tool_failed, Store, lease_seconds, set_run, is_terminal, Claim, claimed, claim,
}
use lumi_observatory.Worker.Continue.{
  Next, proceed, handled, raised, execute, append_event, try_continuation, finish_succeeded,
  finish_ambiguous,
}

-- `returned` is after a call that returned, `errored` inside the except branch
pub data Place : Type 0 where
  idle : Place
  began planning : (run : ℕ) → Place
  holding : (run approval_id : ℕ) (tool : String) → Place
  returned : (run approval_id : ℕ) (tool result : String) → Place
  errored : (run approval_id : ℕ) (tool error : String) → Place

-- a worker is its position
pub record World : Type 0 where
  pub store : Store
  pub places : List Place
  pub calls : List ℕ

unfoldable pub place_of : ℕ → List Place → Place
place_of i [] = idle
place_of zero (p ∷ rest) = p
place_of (suc i) (p ∷ rest) = place_of i rest

unfoldable pub set_place : ℕ → Place → List Place → List Place
set_place i q [] = []
set_place zero q (p ∷ rest) = q ∷ rest
set_place (suc i) q (p ∷ rest) = p ∷ set_place i q rest

pub data Act : Type 0 where
  claims : (worker run : ℕ) (task_found : Bool) (now : ℤ) → Act
  continues : (worker : ℕ) (now : ℤ) (event_ok : Bool) → Act
  calling : (worker : ℕ) (returns : Bool) (text : String) → Act
  records : (worker : ℕ) (now : ℤ) (event_ok commit_ok : Bool) (error : String) → Act
  fails : (worker : ℕ) (now : ℤ) (event_ok : Bool) → Act
  heartbeats : (worker : ℕ) (now : ℤ) → Act
  finishes : (worker : ℕ) (status : RunStatus) (failure : String) (now : ℤ) → Act
  crashes : (worker : ℕ) → Act
  serves : (op : Op) → Act
  -- the runs and their leases, as the scheduler or the API leaves them
  changes : (runs : List RunRow) (leases : ℕ → Option ℤ) → Act

abbrev pub goes : ℕ → Place → Store → World → World
goes i p s w = record w { store = s; places = set_place i p w.places }

abbrev pub after_claim : ℕ → ℕ → Store × Claim → World → World
after_claim i k (s, claimed) w = goes i (began k) s w
after_claim i k (s, _) w = goes i idle s w

abbrev pub claim_at : (ℕ → String) → ℕ → ℕ → Bool → ℤ → Place → World → World
claim_at name i k task_found now idle w =
    after_claim i k (claim (name i) now task_found k w.store) w
claim_at name i k task_found now _ w = w

abbrev pub after_transaction : ℕ → ℕ → Store × Next → World → World
after_transaction i k (s, proceed) w = goes i (planning k) s w
after_transaction i k (s, handled) w = goes i idle s w
after_transaction i k (s, raised) w = goes i idle s w
after_transaction i k (s, execute a tool) w = goes i (holding k a tool) s w

abbrev pub continue_at : (String → Option ℕ) → (ℕ → String) → ℕ → ℤ → Bool → Place → World → World
continue_at parse show i now event_ok (began k) w =
    after_transaction i k (try_continuation parse show k now event_ok w.store) w
continue_at parse show i now event_ok _ w = w

-- `registry.call`, which returns the text or raises it
abbrev pub call_at : ℕ → Bool → String → Place → World → World
call_at i true text (holding k a tool) w = record (goes i (returned k a tool text) w.store w) {
  calls = a ∷ w.calls;
}
call_at i false text (holding k a tool) w = record (goes i (errored k a tool text) w.store w) {
  calls = a ∷ w.calls;
}
call_at i returns text _ w = w

abbrev pub commit_call : ℕ → ℕ → ℕ → String → String → ℤ → Bool → String → Store → World → World
commit_call i k a tool r now true e s w = goes i idle (finish_succeeded k a r now s) w
commit_call i k a tool r now false e s w = goes i (errored k a tool e) s w

-- the event and the final transaction; where either raises, the except branch follows
abbrev pub record_at : ℕ → ℤ → Bool → Bool → String → Place → World → World
record_at i now true commit_ok e (returned k a tool r) w =
    commit_call i k a tool r now commit_ok e (append_event (called a) w.store) w
record_at i now false commit_ok e (returned k a tool r) w = goes i (errored k a tool e) w.store w
record_at i now event_ok commit_ok e _ w = w

-- the except branch, whose own event may raise
abbrev pub fail_at : ℕ → ℤ → Bool → Place → World → World
fail_at i now true (errored k a tool e) w =
    goes i idle (finish_ambiguous k a e now (append_event (tool_failed a) w.store)) w
fail_at i now false (errored k a tool e) w = goes i idle w.store w
fail_at i now event_ok _ w = w

abbrev pub owns : String → Option String → Bool
owns name none = false
owns name (some x) = x =ₛ name

-- the UPDATE of `_heartbeat_loop`
abbrev pub renew : String → ℕ → ℤ → Store → Store
renew name k now s =
    if owns name (s.worker_id k)
    then record s {
      lease_expires_at =
          λ j. if j == k then some (now +ℤ pos lease_seconds) else s.lease_expires_at j;
    }
    else s

abbrev pub heartbeat_at : (ℕ → String) → ℕ → ℤ → Place → World → World
heartbeat_at name i now (planning k) w = record w { store = renew (name i) k now w.store }
heartbeat_at name i now _ w = w

abbrev pub is_failed : RunStatus → Bool
is_failed RunStatus.failed = true
is_failed _ = false

-- `coordinator.failure_code or "worker_execution_error"`
abbrev pub failure_or : String → String
failure_or failure = if failure =ₛ "" then "worker_execution_error" else failure

-- `run2.error or ...`
abbrev pub error_or : Option String → String → String
error_or none failure = failure_or failure
error_or (some t) failure = if t =ₛ "" then failure_or failure else t

-- the row after `coordinator.run`, whatever it holds by then
abbrev pub finish_run : RunStatus → String → ℤ → Option RunRow → Store → Store
finish_run status failure now none s = s
finish_run status failure now (some r) s =
    set_run
      (record r {
        status = status;
        finished_at = if is_terminal status then some now else r.finished_at;
        error = if is_failed status then some (error_or r.error failure) else r.error;
      })
      s

abbrev pub finish_at : ℕ → RunStatus → String → ℤ → Place → World → World
finish_at i status failure now (planning k) w =
    goes i idle (finish_run status failure now (find_run k w.store.db.runs) w.store) w
finish_at i status failure now _ w = w

module _ (parse : String → Option ℕ) (show name : ℕ → String) where
  unfoldable pub act : Act → World → World
  act (claims i k task_found now) w = claim_at name i k task_found now (place_of i w.places) w
  act (continues i now event_ok) w = continue_at parse show i now event_ok (place_of i w.places) w
  act (calling i returns text) w = call_at i returns text (place_of i w.places) w
  act (records i now event_ok commit_ok e) w =
      record_at i now event_ok commit_ok e (place_of i w.places) w
  act (fails i now event_ok) w = fail_at i now event_ok (place_of i w.places) w
  act (heartbeats i now) w = heartbeat_at name i now (place_of i w.places) w
  act (finishes i status failure now) w = finish_at i status failure now (place_of i w.places) w
  act (crashes i) w = goes i idle w.store w
  act (serves op) w = record w {
    store = record w.store { db = Trace.step parse show op w.store.db };
  }
  act (changes runs leases) w = record w {
    store = record w.store { db = record w.store.db { runs = runs }; lease_expires_at = leases };
  }

  unfoldable pub run_acts : List Act → World → World
  run_acts [] w = w
  run_acts (a ∷ acts) w = run_acts acts (act a w)
