-- ===== src/Worker/Tests.antt =====
-- A run whose approved action two workers meet, with a crash in between, and the theorems at concrete inputs.
use lumi_observatory.Base.{
  ℕ, ◌+◌, ◌≤◌, ◌==◌, Bool, true, false, String, List, [], ◌∷◌, ◌≡◌, refl, Option, none, some,
  if◌then◌else◌,
}
use lumi_observatory.Base.Int.{pos, ltb_ℤ, ◌+ℤ◌}
use lumi_observatory.Base.Text.{◌=ₛ◌}
use lumi_observatory.Policy.Records
use lumi_observatory.Policy.Records.{Choice, approve, Approval, Execution, RunRow, RunStatus, Db}
use lumi_observatory.Policy.Service
use lumi_observatory.Policy.Once.{used}
use lumi_observatory.Policy.Trace
use lumi_observatory.Policy.Trace.{Op, deciding}
use lumi_observatory.Worker.Store.{
  Store, replay_blocked, is_claimable, take_run, claimed, skipped, claim,
}
use lumi_observatory.Worker.Continue.{
  handled, append_event, latest, fail_executing, try_continuation,
}
use lumi_observatory.Worker.System.{
  idle, World, place_of, set_place, Act, claims, continues, calling, crashes, serves, changes, act,
  run_acts,
}
use lumi_observatory.Worker.Paid.{times, holders}
use lumi_observatory.Worker.Once.{times-run_acts}
use lumi_observatory.Worker.Consent.{ready}
use lumi_observatory.Worker.Approved.{approved_in, unapproved-run_acts}
use lumi_observatory.Worker.Lease.{
  Attempt, takes, beats, run_attempts, all_skipped, lease_after, claim-run_attempts,
}
use lumi_observatory.Worker.Entry.{text, Loaded, not_dict, dict, raises, handle_entry}

-- the ids of the rows below, as texts
abbrev parse_id : String → Option ℕ
parse_id s = if s =ₛ "one" then some 1 else if s =ₛ "seven" then some 7 else none

abbrev show_id : ℕ → String
show_id n = if n == 1 then "one" else "seven"

abbrev name_of : ℕ → String
name_of n = if n == 0 then "first" else "second"

abbrev asked : Approval
asked = record {
  id = 1;
  status = Records.pending;
  run_id = some 7;
  expires_at = some (pos 1000);
  decision = none;
  decided_by = none;
  action_id = "action_1";
  tool = "technocore_signed_write";
}

abbrev run_in : RunStatus → RunRow
run_in status = record {
  id = 7;
  status = status;
  control_request = none;
  error = none;
  finished_at = none;
}

abbrev store_with : Approval → List Execution → RunStatus → Store
store_with a xs status = record {
  db = record { approvals = a ∷ []; executions = xs; runs = run_in status ∷ []; outbox = [] };
  lease_expires_at = λ k. none;
  worker_id = λ k. none;
  events = [];
}

abbrev waiting_world : World
waiting_world = record {
  store = store_with asked [] Records.waiting_approval;
  places = idle ∷ idle ∷ [];
  calls = [];
}

-- approved, claimed and called by the first worker, which crashes before it records the result
abbrev crashed : List Act
crashed =
    serves (deciding "one" approve "" (pos 10))
    ∷ claims 0 7 true (pos 20)
    ∷ continues 0 (pos 20) true
    ∷ calling 0 true "sent"
    ∷ crashes 0
    ∷ []

-- the second worker, whose claim comes too early and then in time
abbrev redelivered : List Act
redelivered =
    claims 1 7 true (pos 40)
    ∷ claims 1 7 true (pos 60)
    ∷ continues 1 (pos 60) true
    ∷ calling 1 true "sent"
    ∷ []

abbrev both : World
both =
    run_acts parse_id show_id name_of redelivered
      (run_acts parse_id show_id name_of crashed waiting_world)

module _ where
  called_once : both.calls ≡ 1 ∷ []
  unfolding run_acts act place_of set_place claim is_claimable take_run try_continuation latest
      Service.consume_and_record Service.record_row Trace.step Service.decide_with_continuation
      Service.decide Service.decide_row Service.continue_run Records.find_approval
      Records.write_approval Records.find_run Records.write_run Records.find_execution
      Records.write_execution fail_executing ◌+ℤ◌
  called_once = refl

  run_closed :
      both.store.db.runs
      ≡ record (run_in Records.failed) {
        error = some "needs_reconciliation";
        finished_at = some (pos 60);
      }
        ∷ []
  unfolding run_acts act place_of set_place claim is_claimable take_run try_continuation latest
      Service.consume_and_record Service.record_row Trace.step Service.decide_with_continuation
      Service.decide Service.decide_row Service.continue_run Records.find_approval
      Records.write_approval Records.find_run Records.write_run Records.find_execution
      Records.write_execution fail_executing ◌+ℤ◌
  run_closed = refl

abbrev sending : Execution
sending = record {
  approval_id = 1;
  run_id = 7;
  action_id = "action_1";
  tool = "technocore_signed_write";
  status = "PENDING";
  result = "";
}

-- the scheduler fails the run before its redelivery, which then finds it over
abbrev overtaken : World
overtaken =
    run_acts parse_id show_id name_of
      (changes (record (run_in Records.failed) { error = some "stuck_run_recovered" } ∷ [])
          (λ k. none)
        ∷ claims 1 7 true (pos 90)
        ∷ continues 1 (pos 90) true
        ∷ [])
      (run_acts parse_id show_id name_of crashed waiting_world)

module _ where
  left_pending : overtaken.store.db.executions ≡ sending ∷ []
  unfolding run_acts act place_of set_place claim is_claimable take_run try_continuation latest
      Service.consume_and_record Service.record_row Trace.step Service.decide_with_continuation
      Service.decide Service.decide_row Service.continue_run Records.find_approval
      Records.write_approval Records.find_run Records.write_run Records.find_execution
      Records.write_execution fail_executing ◌+ℤ◌
  left_pending = refl

times-run_acts_example :
    times 1 (run_acts parse_id show_id name_of crashed waiting_world).calls
      + holders 1 (run_acts parse_id show_id name_of crashed waiting_world).places
      + used 1 waiting_world.store.db
    ≤ times 1 waiting_world.calls + holders 1 waiting_world.places + 1
times-run_acts_example = times-run_acts parse_id show_id name_of 1 refl crashed waiting_world

asked_not_ready : ready 1 waiting_world.store.db ≡ false
unfolding Records.find_approval
asked_not_ready = refl

redelivered_asks_nobody : approved_in parse_id show_id 1 redelivered ≡ false
unfolding approved_in
redelivered_asks_nobody = refl

unapproved-run_acts_example :
    times 1 (run_acts parse_id show_id name_of redelivered waiting_world).calls
    ≤ times 1 waiting_world.calls + holders 1 waiting_world.places
unapproved-run_acts_example =
    unapproved-run_acts parse_id show_id name_of 1 refl redelivered waiting_world asked_not_ready
      redelivered_asks_nobody

abbrev queued_store : Store
queued_store = store_with asked [] Records.queued

queued_claimed : (claim "first" (pos 20) true 7 queued_store).1 ≡ claimed
unfolding claim is_claimable Records.find_run
queued_claimed = refl

abbrev contested : List Attempt
contested =
    beats "first" (pos 30)
    ∷ takes "second" (pos 55)
    ∷ beats "second" (pos 56)
    ∷ takes "first" (pos 60)
    ∷ []

abbrev claimed_store : Store
claimed_store = (claim "first" (pos 20) true 7 queued_store).0

claim-run_attempts_example :
    (all_skipped 7 contested claimed_store ≡ true)
    × ((claim "second" (pos 61) true 7 (run_attempts 7 contested claimed_store)).1
        ≡ (if ltb_ℤ (lease_after "first" (pos 50) contested) (pos 61) then claimed else skipped))
unfolding ◌+ℤ◌
claim-run_attempts_example =
    claim-run_attempts "first" "second" (pos 20) (pos 61) true 7 queued_store contested
      queued_claimed (refl, (refl, tt))

abbrev taken : Approval
taken = record asked { status = Records.consumed; decision = some approve }

abbrev consumed_store : Store
consumed_store = store_with taken (sending ∷ []) Records.executing

abbrev granted : Approval
granted = record asked { status = Records.approved; decision = some approve }

abbrev granted_store : Store
granted_store = store_with granted [] Records.executing

module _ where
  -- an approval that expires before the worker takes its run: only an event is appended
  expired_stays :
      try_continuation parse_id show_id 7 (pos 2000) true granted_store
      ≡ (append_event (replay_blocked 1) granted_store, handled)
  unfolding try_continuation latest Service.consume_and_record Service.record_row
      Records.find_approval
  expired_stays = refl

abbrev loads_one : String → Loaded
loads_one raw = if raw =ₛ "[]" then not_dict else dict (text raw)

abbrev completes : ℕ → Option Bool
completes k = some true

module _ where
  -- a list, and an id that is no UUID
  poison :
      (handle_entry loads_one parse_id completes (some "[]") ≡ raises)
      × (handle_entry loads_one parse_id completes (some "eight") ≡ raises)
  unfolding handle_entry
  poison = (refl, refl)
