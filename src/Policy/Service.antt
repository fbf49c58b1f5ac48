-- ===== src/Policy/Service.antt =====
-- ApprovalService of packages/policy/approval.py. `parse` is `uuid.UUID` of a text (`none` where it
-- raises), `now` the clock. Each method returns the tables as its callers keep them: an exception rolls back, except
-- that the expiry of an approval is committed.
use lumi_observatory.Base.{
  ℕ, Bool, true, false, not, String, [], ◌∷◌, ◌++◌, Option, none, some, if◌then◌else◌,
}
use lumi_observatory.Base.Int.{ℤ, pos, ltb_ℤ, ◌+ℤ◌}
use lumi_observatory.Base.Text.{◌=ₛ◌}
use lumi_observatory.Policy.Records.{
  Status, pending, approved, rejected, expired, consumed, RunStatus, queued, waiting_approval,
  failed, Choice, approve, other, Approval, Execution, RunRow, Db, find_approval, write_approval,
  find_run, write_run, find_execution, write_execution,
}

-- the messages of the `ValueError`s
pub data Refusal : Type 0 where
  invalid_id not_found has_expired bad_decision bad_user : Refusal
  already_decided : Status → Refusal

pub data Result (A : Type 0) : Type 0 where
  ok : A → Result A
  raise : Refusal → Result A

abbrev pub save : Db → Approval → Db
save db a = record db { approvals = write_approval a db.approvals }

abbrev pub is_pending : Status → Bool
is_pending pending = true
is_pending _ = false

abbrev pub is_approved : Status → Bool
is_approved approved = true
is_approved _ = false

abbrev pub is_consumed : Status → Bool
is_consumed consumed = true
is_consumed _ = false

-- `expires is not None and expires < now`
abbrev pub is_past : Option ℤ → ℤ → Bool
is_past none now = false
is_past (some t) now = ltb_ℤ t now

-- `create`: a pending row under the new id that the database gives it
unfoldable pub create : ℕ → Option ℕ → String → String → ℕ → ℤ → Db → Db × Approval
create new_id run_id action_id tool ttl_seconds now db =
    let a : Approval = record {
      id = new_id;
      status = pending;
      run_id = run_id;
      expires_at = some (now +ℤ pos ttl_seconds);
      decision = none;
      decided_by = none;
      action_id = action_id;
      tool = tool;
    } in
    (record db { approvals = db.approvals ++ a ∷ [] }, a)

module _ (parse : String → Option ℕ) where
  -- the caller's id, when it is not empty
  abbrev pub user_of : String → Option (Option ℕ)
  user_of user_id =
      if user_id =ₛ ""
      then some none
      else (elim (parse user_id) [ none ↦ none | some u ↦ some (some u) ])

abbrev pub status_for : Choice → Status
status_for approve = approved
status_for _ = rejected

-- the row with its decision; a malformed user id raises after the status was set, and the callers roll that back
abbrev pub set_decision : Db → Approval → Choice → Option (Option ℕ) → Db × Result Approval
set_decision db a decision none = (db, raise bad_user)
set_decision db a decision (some user) =
    let b = record a {
      status = status_for decision;
      decision = some decision;
      decided_by = user;
    } in
    (save db b, ok b)

abbrev pub is_choice : Choice → Bool
is_choice other = false
is_choice _ = true

unfoldable pub decide_row : Approval → Choice → Option (Option ℕ) → ℤ → Db → Db × Result Approval
decide_row a decision user now db =
    if not (is_pending a.status)
    then (db, raise (already_decided a.status))
    else if is_past a.expires_at now
    then (save db (record a { status = expired }), raise has_expired)
    else if not (is_choice decision)
    then (db, raise bad_decision)
    else set_decision db a decision user

abbrev pub decide_found :
    Option Approval → Choice → Option (Option ℕ) → ℤ → Db → Db × Result Approval
decide_found none decision user now db = (db, raise not_found)
decide_found (some a) decision user now db = decide_row a decision user now db

abbrev pub decide_id : Option ℕ → Choice → Option (Option ℕ) → ℤ → Db → Db × Result Approval
decide_id none decision user now db = (db, raise invalid_id)
decide_id (some k) decision user now db =
    decide_found (find_approval k db.approvals) decision user now db

unfoldable pub decide :
    (String → Option ℕ) → String → Choice → String → ℤ → Db → Db × Result Approval
decide parse approval_id decision user_id now db =
    decide_id (parse approval_id) decision (user_of parse user_id) now db

abbrev pub is_waiting : RunStatus → Bool
is_waiting waiting_approval = true
is_waiting _ = false

-- the run's transition and, for an approval, the outbox message, whatever the run's status
unfoldable pub continue_run : Approval → Choice → ℤ → Db → RunRow → Db
continue_run a approve now db run =
    let moved = record run { status = queued; control_request = none } in
    record db {
      runs = if is_waiting run.status then write_run moved db.runs else db.runs;
      outbox = db.outbox ++ record { run_id = run.id; approval_id = a.id } ∷ [];
    }
continue_run a _ now db run =
    let moved = record run {
      status = failed;
      error = some "approval_rejected";
      finished_at = some now;
    } in
    record db { runs = if is_waiting run.status then write_run moved db.runs else db.runs }

abbrev pub continue_found : Approval → Choice → ℤ → Db → Option RunRow → Db
continue_found a decision now db none = db
continue_found a decision now db (some run) = continue_run a decision now db run

abbrev pub continue_id : Approval → Choice → ℤ → Db → Option ℕ → Db
continue_id a decision now db none = db
continue_id a decision now db (some k) = continue_found a decision now db (find_run k db.runs)

abbrev pub continue_decided : Choice → ℤ → Db × Result Approval → Db × Result Approval
continue_decided decision now (db, raise e) = (db, raise e)
continue_decided decision now (db, ok a) = (continue_id a decision now db a.run_id, ok a)

unfoldable pub decide_with_continuation :
    (String → Option ℕ) → String → Choice → String → ℤ → Db → Db × Result Approval
decide_with_continuation parse approval_id decision user_id now db =
    continue_decided decision now (decide parse approval_id decision user_id now db)

unfoldable pub get : (String → Option ℕ) → String → Db → Option Approval
get parse approval_id db = elim (parse approval_id) [
  | none ↦ none
  | some k ↦ find_approval k db.approvals
]

unfoldable pub consume_row : Approval → Db → Db × Bool
consume_row a db =
    if not (is_approved a.status)
    then (db, false)
    else (save db (record a { status = consumed }), true)

abbrev pub consume_found : Option Approval → Db → Db × Bool
consume_found none db = (db, false)
consume_found (some a) db = consume_row a db

abbrev pub consume_id : Option ℕ → Db → Db × Bool
consume_id none db = (db, false)
consume_id (some k) db = consume_found (find_approval k db.approvals) db

unfoldable pub consume : (String → Option ℕ) → String → Db → Db × Bool
consume parse approval_id db = consume_id (parse approval_id) db

-- `(consumed, approval, execution)`
abbrev pub Recorded : Type 0
Recorded = Bool × Option Approval × Option Execution

-- `payload.get("action_id") or str(a.id)`, the id shown by `show`
abbrev pub action_of : (ℕ → String) → Approval → String
action_of show a = if a.action_id =ₛ "" then show a.id else a.action_id

abbrev pub new_execution : (ℕ → String) → Approval → ℕ → Execution
new_execution show a run_id = record {
  approval_id = a.id;
  run_id = run_id;
  action_id = action_of show a;
  tool = a.tool;
  status = "PENDING";
  result = "";
}

unfoldable pub record_row : (ℕ → String) → Approval → ℕ → ℤ → Db → Db × Recorded
record_row show a run_id now db =
    if is_past a.expires_at now
    then (if is_pending a.status
        then (
          save db (record a { status = expired }),
          (false, some (record a { status = expired }), none),
        )
        else (db, (false, some a, none)))
    else if is_consumed a.status
    then (db, (false, some a, find_execution a.id db.executions))
    else if not (is_approved a.status)
    then (db, (false, some a, none))
    else (
      record db {
        approvals = write_approval (record a { status = consumed }) db.approvals;
        executions = db.executions ++ new_execution show a run_id ∷ [];
      },
      (true, some (record a { status = consumed }), some (new_execution show a run_id)),
    )

abbrev pub record_found : (ℕ → String) → Option Approval → ℕ → ℤ → Db → Db × Recorded
record_found show none run_id now db = (db, (false, none, none))
record_found show (some a) run_id now db = record_row show a run_id now db

abbrev pub record_ids : (ℕ → String) → Option ℕ → Option ℕ → ℤ → Db → Db × Recorded
record_ids show (some k) (some run_id) now db =
    record_found show (find_approval k db.approvals) run_id now db
record_ids show _ _ now db = (db, (false, none, none))

unfoldable pub consume_and_record :
    (String → Option ℕ) → (ℕ → String) → String → String → ℤ → Db → Db × Recorded
consume_and_record parse show approval_id run_id now db =
    record_ids show (parse approval_id) (parse run_id) now db

abbrev pub mark_found : Option Execution → String → Option String → Db → Db
mark_found none status result db = db
mark_found (some x) status none db = record db {
  executions = write_execution (record x { status = status }) db.executions;
}
mark_found (some x) status (some r) db = record db {
  executions = write_execution (record x { status = status; result = r }) db.executions;
}

abbrev pub mark_id : Option ℕ → String → Option String → Db → Db
mark_id none status result db = db
mark_id (some k) status result db = mark_found (find_execution k db.executions) status result db

unfoldable pub mark_execution_result :
    (String → Option ℕ) → String → String → Option String → Db → Db
mark_execution_result parse approval_id status result db =
    mark_id (parse approval_id) status result db
