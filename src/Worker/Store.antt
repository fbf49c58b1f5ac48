-- ===== src/Worker/Store.antt =====
-- The rows that apps/worker/worker.py reads and writes, and the claim of `_process_run`. A row is read and
-- claimed in one step. Times are in seconds.
use lumi_observatory.Base.{
  ℕ, ◌==◌, Bool, true, false, not, ◌&&◌, ◌||◌, String, List, Option, none, some, if◌then◌else◌,
}
use lumi_observatory.Base.Int.{ℤ, pos, ltb_ℤ, ◌+ℤ◌}
use lumi_observatory.Policy.Records.{RunStatus, RunRow, Db, find_run, write_run}

-- the events that the worker appends itself
pub data Event : Type 0 where
  approval_ambiguous replay_blocked called tool_failed : (approval_id : ℕ) → Event

-- the tables of the service, the lease columns of the runs, and the appended events
pub record Store : Type 0 where
  pub db : Db
  pub lease_expires_at : ℕ → Option ℤ
  pub worker_id : ℕ → Option String
  pub events : List Event

-- `_lease_ms`
abbrev pub lease_seconds : ℕ
lease_seconds = 30

abbrev pub is_terminal : RunStatus → Bool
is_terminal RunStatus.completed = true
is_terminal RunStatus.failed = true
is_terminal RunStatus.cancelled = true
is_terminal _ = false

abbrev pub is_executing : RunStatus → Bool
is_executing RunStatus.executing = true
is_executing _ = false

abbrev pub is_queued : RunStatus → Bool
is_queued RunStatus.queued = true
is_queued _ = false

abbrev pub set_run : RunRow → Store → Store
set_run r s = record s { db = record s.db { runs = write_run r s.db.runs } }

-- `lease_expires_at IS NULL OR lease_expires_at < :now`
abbrev pub lease_is_over : Option ℤ → ℤ → Bool
lease_is_over none now = true
lease_is_over (some t) now = ltb_ℤ t now

-- the WHERE clause of the UPDATE
unfoldable pub is_claimable : RunRow → Option ℤ → ℤ → Bool
is_claimable r lease now = is_queued r.status || (is_executing r.status && lease_is_over lease now)

-- the row of the UPDATE, with its lease; heartbeat_at and started_at are left out, since the worker does not read them
unfoldable pub take_run : String → ℤ → RunRow → Store → Store
take_run worker now r s = record (set_run (record r { status = RunStatus.executing }) s) {
  lease_expires_at =
      λ k. if k == r.id then some (now +ℤ pos lease_seconds) else s.lease_expires_at k;
  worker_id = λ k. if k == r.id then some worker else s.worker_id k;
}

pub data Claim : Type 0 where
  no_run terminal no_task skipped claimed : Claim

abbrev pub claim_row : String → ℤ → Bool → Option RunRow → Store → Store × Claim
claim_row worker now task_found none s = (s, no_run)
claim_row worker now task_found (some r) s =
    if is_terminal r.status
    then (s, terminal)
    else if not task_found
    then (
      set_run (record r { status = RunStatus.failed; error = some "task_not_found" }) s,
      no_task,
    )
    else if is_claimable r (s.lease_expires_at r.id) now
    then (take_run worker now r s, claimed)
    else (s, skipped)

unfoldable pub claim : String → ℤ → Bool → ℕ → Store → Store × Claim
claim worker now task_found k s = claim_row worker now task_found (find_run k s.db.runs) s
