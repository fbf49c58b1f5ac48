-- ===== src/Scheduler/Stuck.antt =====
-- SchedulerLoop.recover_stuck_runs of apps/scheduler/scheduler.py. One transaction is one step; ids of new runs count
-- upwards; times are in seconds.
use lumi_observatory.Base.{
  ℕ, zero, suc, ◌-◌, ◌*◌, ltb, Bool, true, false, not, ◌&&◌, ◌||◌, String, List, [], ◌∷◌, ◌++◌,
  Option, none, some, if◌then◌else◌,
}
use lumi_observatory.Base.Int.{ℤ, pos, ltb_ℤ, ◌+ℤ◌}
use lumi_observatory.Policy.Records.{RunStatus}

pub record Run : Type 0 where
  pub id : ℕ
  pub task_id : ℕ
  pub status : RunStatus
  pub retry_count : ℕ
  pub heartbeat_at : Option ℤ
  pub updated_at : ℤ
  pub lease_expires_at : Option ℤ
  pub error : Option String
  pub finished_at : Option ℤ

-- an outbox message of a retry, whose idempotency key is `retry:{retry_of}:{run_id}`
pub record Retry : Type 0 where
  pub run_id : ℕ
  pub retry_of : ℕ
  pub not_before : ℤ

pub record Tables : Type 0 where
  pub runs : List Run
  pub retries : List Retry
  pub dead : List ℕ
  pub next_id : ℕ

-- `_stuck_threshold`, 15 minutes
abbrev pub stuck_seconds : ℕ
stuck_seconds = 900

abbrev pub heartbeat_of : Option ℤ → ℤ → ℤ
heartbeat_of none updated = updated
heartbeat_of (some t) updated = t

abbrev pub has_expired_lease : Option ℤ → ℤ → Bool
has_expired_lease none now = false
has_expired_lease (some t) now = ltb_ℤ t now

abbrev pub is_running : RunStatus → Bool
is_running RunStatus.executing = true
is_running _ = false

unfoldable pub is_stuck : ℤ → Run → Bool
is_stuck now r =
    is_running r.status
    && (ltb_ℤ (heartbeat_of r.heartbeat_at r.updated_at +ℤ pos stuck_seconds) now
        || has_expired_lease r.lease_expires_at now)

abbrev pub max_retries : ℕ
max_retries = 3

abbrev pub double : ℕ → ℕ
double zero = 1
double (suc n) = 2 * double n

-- `30 * (2 ** (retry - 1))` for a retry from 1 on
abbrev pub backoff_seconds : ℕ → ℕ
backoff_seconds retry = 30 * double (retry - 1)

abbrev pub failed_run : ℤ → Run → Run
failed_run now r = record r {
  status = RunStatus.failed;
  error = some "stuck_run_recovered";
  finished_at = some now;
  heartbeat_at = some now;
  retry_count = suc r.retry_count;
}

abbrev pub new_run : ℤ → Run → ℕ → Run
new_run now r k = record {
  id = k;
  task_id = r.task_id;
  status = RunStatus.queued;
  retry_count = suc r.retry_count;
  heartbeat_at = none;
  updated_at = now;
  lease_expires_at = none;
  error = none;
  finished_at = none;
}

-- the loop's state: the rows it has passed, the rows it has added, and the messages
pub record Swept : Type 0 where
  pub passed : List Run
  pub made : List Run
  pub retries : List Retry
  pub dead : List ℕ
  pub next_id : ℕ
  pub recovered : ℕ

abbrev pub give_up : ℤ → Run → Swept → Swept
give_up now r s = record s {
  passed = s.passed ++ failed_run now r ∷ [];
  dead = s.dead ++ r.id ∷ [];
  recovered = suc s.recovered;
}

abbrev pub retry_of_run : ℤ → Run → ℕ → Retry
retry_of_run now r k = record {
  run_id = k;
  retry_of = r.id;
  not_before = now +ℤ pos (backoff_seconds (suc r.retry_count));
}

abbrev pub queue_retry : ℤ → Run → Swept → Swept
queue_retry now r s = record s {
  passed = s.passed ++ failed_run now r ∷ [];
  made = s.made ++ new_run now r s.next_id ∷ [];
  retries = s.retries ++ retry_of_run now r s.next_id ∷ [];
  next_id = suc s.next_id;
  recovered = suc s.recovered;
}

unfoldable pub sweep : ℤ → Run → Swept → Swept
sweep now r s =
    if not (is_stuck now r)
    then record s { passed = s.passed ++ r ∷ [] }
    else if ltb max_retries (suc r.retry_count)
    then give_up now r s
    else queue_retry now r s

unfoldable pub sweep_rows : ℤ → List Run → Swept → Swept
sweep_rows now [] s = s
sweep_rows now (r ∷ rest) s = sweep_rows now rest (sweep now r s)

abbrev pub swept_nothing : Tables → Swept
swept_nothing t = record {
  passed = [];
  made = [];
  retries = t.retries;
  dead = t.dead;
  next_id = t.next_id;
  recovered = 0;
}

abbrev pub tables_of : Swept → Tables
tables_of s = record {
  runs = s.passed ++ s.made;
  retries = s.retries;
  dead = s.dead;
  next_id = s.next_id;
}

-- the tables after the transaction, and the count that it returns
unfoldable pub recover_stuck_runs : ℤ → Tables → Tables × ℕ
recover_stuck_runs now t =
    let s = sweep_rows now t.runs (swept_nothing t) in (tables_of s, s.recovered)
