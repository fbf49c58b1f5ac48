-- ===== src/Policy/Tests.antt =====
-- Runs of the tool policy and of the approval service, and their theorems at concrete inputs.
use lumi_observatory.Base.{
  ℕ, true, false, String, List, [], ◌∷◌, ◌≡◌, refl, Option, none, some, arith, ◌+◌, ◌≤◌,
  if◌then◌else◌,
}
use lumi_observatory.Base.Int.{pos}
use lumi_observatory.Base.Text.{◌=ₛ◌, codes, comma_parts, member}
use lumi_observatory.Policy.Engine
use lumi_observatory.Policy.Engine.{
  ActionClass, read_only, safe_write, Decision, allow, require_approval, deny, tool_to_action,
  Overrides, override_of, set_override, JevResult, Settings, intent_is, decide_async,
}
use lumi_observatory.Policy.Floor.{strictness, decide_async_tightens}
use lumi_observatory.Policy.Records
use lumi_observatory.Policy.Records.{
  Choice, approve, reject, Approval, Execution, RunRow, Outbox, Db,
}
use lumi_observatory.Policy.Service
use lumi_observatory.Policy.Service.{
  Result, ok, raise, consume, consume_and_record, decide_with_continuation,
}
use lumi_observatory.Policy.Once.{used, executions_for}
use lumi_observatory.Policy.Trace.{
  Op, deciding, consuming, recording, marking, step, granted, run_ops, grants, grants-run_ops,
  executions-run_ops,
}
use lumi_observatory.Policy.Abstract.{
  view, untold, handed, decided, spec_step, spec_run, spec_answers,
}

abbrev watching : Settings
watching = record { jev_enabled = true; jev_tools = "http_json_read,technocore_read"; review = 60 }

abbrev abusive : JevResult
abusive = record { within = 90; intent = codes "Abusive"; confidence = 80 }

-- the ids of the runs below, as texts
abbrev parse_one : String → Option ℕ
parse_one s = if s =ₛ "one" then some 1 else if s =ₛ "seven" then some 7 else none

abbrev show_one : ℕ → String
show_one n = "one"

abbrev waiting_row : Approval
waiting_row = record {
  id = 1;
  status = Records.pending;
  run_id = some 7;
  expires_at = some (pos 100);
  decision = none;
  decided_by = none;
  action_id = "action_1";
  tool = "technocore_signed_write";
}

abbrev waiting_run : RunRow
waiting_run = record {
  id = 7;
  status = Records.waiting_approval;
  control_request = none;
  error = none;
  finished_at = none;
}

abbrev one_row : Db
one_row = record {
  approvals = waiting_row ∷ [];
  executions = [];
  runs = waiting_run ∷ [];
  outbox = [];
}

-- approved, then consumed and recorded twice, then consumed once more
abbrev calls : List Op
calls =
    deciding "one" approve "" (pos 10)
    ∷ recording "one" "seven" (pos 20)
    ∷ recording "one" "seven" (pos 30)
    ∷ consuming "one"
    ∷ marking "one" "DONE" (some "ok")
    ∷ []

module _ where
  read_allowed : (Engine.decide [] "http_json_read").decision ≡ allow
  unfolding Engine.decide override_of tool_to_action Engine.decide_class
  read_allowed = refl

  jev_denies : (decide_async watching [] (some abusive) "http_json_read").decision ≡ deny
  unfolding decide_async Engine.decide override_of tool_to_action Engine.decide_class Engine.tighten
  jev_denies = refl

decide_async_tightens_example :
    (strictness (Engine.decide [] "http_json_read").decision
      ≤ strictness (decide_async watching [] (some abusive) "http_json_read").decision)
    × ((decide_async watching [] (some abusive) "http_json_read").action_class
        ≡ (Engine.decide [] "http_json_read").action_class)
    × (decide_async watching [] none "http_json_read" ≡ Engine.decide [] "http_json_read")
    × (member (codes "http_json_read") (comma_parts watching.jev_tools) ≡ false
        → decide_async watching [] (some abusive) "http_json_read"
          ≡ Engine.decide [] "http_json_read")
decide_async_tightens_example = decide_async_tightens watching [] (some abusive) "http_json_read"

granted_once : grants parse_one show_one 1 calls one_row ≡ 1
unfolding grants run_ops granted step decide_with_continuation Service.decide Service.decide_row
    consume consume_and_record Service.consume_row Service.record_row Service.mark_execution_result
    Service.continue_run Records.find_approval Records.write_approval Records.find_run
    Records.write_run Records.find_execution Records.write_execution
granted_once = refl

grants-run_ops_example :
    grants parse_one show_one 1 calls one_row + used 1 one_row
      ≤ used 1 (run_ops parse_one show_one calls one_row)
    × (used 1 (run_ops parse_one show_one calls one_row) ≤ 1)
grants-run_ops_example = grants-run_ops parse_one show_one 1 calls one_row

one_row_fresh : executions_for 1 one_row.executions ≤ used 1 one_row
unfolding executions_for
one_row_fresh = omega arith

executions-run_ops_example :
    (executions_for 1 (run_ops parse_one show_one calls one_row).executions
      ≤ used 1 (run_ops parse_one show_one calls one_row))
    × (executions_for 1 (run_ops parse_one show_one calls one_row).executions ≤ 1)
executions-run_ops_example = executions-run_ops parse_one show_one 1 calls one_row one_row_fresh

abbrev approved_row : Approval
approved_row = record waiting_row { status = Records.approved; decision = some approve }

decided_row : (Service.decide parse_one "one" approve "" (pos 10) one_row).1 ≡ ok approved_row
unfolding Service.decide Service.decide_row Records.find_approval
decided_row = refl

-- the abstract machine ends with the approval consumed, and granted it once
view_after :
    (spec_run parse_one calls (view one_row) 1 ≡ some (Records.consumed, some (pos 100)))
    × (spec_answers parse_one calls (view one_row)
        ≡ decided none ∷ handed true ∷ handed false ∷ handed false ∷ untold ∷ [])
unfolding spec_run spec_step Records.find_approval
view_after = (refl, refl)
