-- ===== src/Worker/Entry.antt =====
-- WorkerLoop._handle_entry of apps/worker/worker.py: which messages are acknowledged. The
-- JSON reader, the reading of a UUID and the processing of a run, which may raise, are parameters.
use lumi_observatory.Base.{ℕ, Bool, true, String, Option, none, some}

-- `payload.get("run_id")` of a dict
pub data RunId : Type 0 where
  empty not_text : RunId
  text : (id : String) → RunId

-- `json.loads(raw)`
pub data Loaded : Type 0 where
  unreadable not_dict : Loaded
  dict : (run_id : RunId) → Loaded

-- `acks` sends the acknowledgement, whose own exception is swallowed: the entry then stays pending, as it does where
-- the handler raises, and is claimed again
pub data Handled : Type 0 where
  acks : (ok : Bool) → Handled
  raises : Handled

module _ (loads : String → Loaded) (parse : String → Option ℕ) (process : ℕ → Option Bool) where
  -- the return of `_process_run`, or its exception
  abbrev processed : Option Bool → Handled
  processed none = raises
  processed (some ok) = acks ok

  -- `uuid.UUID(run_id)`
  abbrev process_id : Option ℕ → Handled
  process_id none = raises
  process_id (some k) = processed (process k)

  abbrev handle_id : RunId → Handled
  handle_id empty = acks true
  handle_id not_text = raises
  handle_id (text id) = process_id (parse id)

  abbrev handle_loaded : Loaded → Handled
  handle_loaded unreadable = acks true
  handle_loaded not_dict = raises
  handle_loaded (dict run_id) = handle_id run_id

  -- none where the data is missing or empty
  unfoldable pub handle_entry : Option String → Handled
  handle_entry none = acks true
  handle_entry (some raw) = handle_loaded (loads raw)
