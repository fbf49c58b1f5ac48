-- ===== src/Coordinator/Turn.antt =====
-- One action in the loop of RunCoordinator.run. What the run awaits is given per action: the answers of
-- the two database checks, the clock, the policy's decision, what the tool did and the controls that came
-- meanwhile. An event sink that fails outside the tool's own `try` ends the process of the run, not modelled.
use lumi_observatory.Base.{
  ℕ, ◌+◌, Bool, true, false, not, ◌&&◌, String, List, [], ◌∷◌, ◌++◌, if◌then◌else◌,
}
use lumi_observatory.Base.Text.{◌=ₛ◌}
use lumi_observatory.Coordinator.State.{
  executing, failed, cancelled, paused, waiting_approval, Decision, allow, require_approval, deny,
  policy_denied, tool_error, was_paused, was_cancelled, checked, denied, awaiting, tool_called,
  circuit_open, tool_failed, Budget, State, emit, Control, apply_controls, record_failure, reset,
  can_continue,
}

-- What `executor.execute` and the lines that report it did: the call raised, with the name of the
-- exception; or it returned and reporting it raised; or all went well.
pub data Outcome : Type 0 where
  raised unreported : String → Outcome
  returned : Outcome

pub record Turn : Type 0 where
  pub pause_check : Bool
  pub stop_check : Bool
  pub before : List Control
  pub elapsed : ℕ
  pub decision : Decision
  pub during : List Control
  pub outcome : Outcome
  pub clock : ℕ

-- `tool or 'unknown'`
abbrev pub tool_or : String → String
tool_or tool = if tool =ₛ "" then "unknown" else tool

-- `except Exception as e`
abbrev pub on_open : String → State → (String → List ℕ) × Bool → State × Bool
on_open tool s (failures, true) =
    (emit (circuit_open tool) (record s { failures = failures; status = failed }), false)
on_open tool s (failures, false) = (record s { failures = failures }, true)

abbrev pub tool_raised : String → String → ℕ → State → State × Bool
tool_raised tool name now s =
    let recorded = record s {
      had_error = true;
      failure_code = tool_error (tool_or tool) name;
      events = s.events ++ tool_failed tool name ∷ [];
      executed = s.executed ++ record { tool = tool; ok = false } ∷ [];
    } in
    on_open tool recorded (record_failure tool now s.failures)

-- the call returned: it is counted, recorded and emitted
abbrev pub tool_returned : String → State → State
tool_returned tool s = record s {
  tool_calls_count = s.tool_calls_count + 1;
  executed = s.executed ++ record { tool = tool; ok = true } ∷ [];
  events = s.events ++ tool_called tool ∷ [];
}

abbrev pub execute : String → Outcome → ℕ → State → State × Bool
execute tool (raised name) now s = tool_raised tool name now s
execute tool (unreported name) now s = tool_raised tool name now (tool_returned tool s)
execute tool returned now s =
    let done = tool_returned tool s in (record done { failures = reset tool done.failures }, true)

abbrev pub on_decision : String → Decision → Outcome → ℕ → State → State × Bool
on_decision tool deny outcome now s = (
  emit (denied tool) (record s { status = failed; failure_code = policy_denied (tool_or tool) }),
  false,
)
on_decision tool require_approval outcome now s =
    (emit (awaiting tool) (record s { status = waiting_approval }), false)
on_decision tool allow outcome now s = execute tool outcome now s

-- the rest of the body once the guard let it through
unfoldable pub act : String → Turn → State → State × Bool
act tool t s =
    let entered = record s {
      iteration = s.iteration + 1;
      status = executing;
      events = s.events ++ checked tool t.decision ∷ [];
    } in
    on_decision tool t.decision t.outcome t.clock (apply_controls t.during entered)

abbrev pub on_guard : String → Turn → State × Bool → State × Bool
on_guard tool t (s, false) =
    (if not s.pause && not s.kill then record s { status = failed } else s, false)
on_guard tool t (s, true) = act tool t s

-- the body of the loop on a dict action, and whether the loop goes on
unfoldable pub turn : Budget → String → Turn → State → State × Bool
turn b tool t s =
    let here = apply_controls t.before s in
    if t.pause_check
    then (emit was_paused (record here { status = paused }), false)
    else if t.stop_check
    then (emit was_cancelled (record here { status = cancelled }), false)
    else on_guard tool t (can_continue b t.elapsed here)
