-- ===== src/Coordinator/State.antt =====
-- The state of RunCoordinator in packages/agent_core/coordinator.py, its events, its controls, the circuit
-- breaker and the token account. Clock readings are numbers of one unit; a cost is counted in its smallest unit.
use lumi_observatory.Base.{
  ℕ, zero, ◌+◌, ◌-◌, ltb, leb, Bool, true, false, String, List, [], ◌∷◌, ◌++◌, Option, none, some,
  if◌then◌else◌,
}
use lumi_observatory.Base.Int.{ℤ, pos, ◌+ℤ◌, ltb_ℤ}
use lumi_observatory.Base.Text.{◌=ₛ◌}

-- RunStatus, without the member no line of the coordinator sets
pub data Status : Type 0 where
  queued context_building planning policy_check waiting_approval executing verifying persisting :
      Status
  completed failed cancelled paused : Status

pub data Decision : Type 0 where
  allow require_approval deny : Decision

-- `failure_code`
pub data Code : Type 0 where
  no_code wall_time_exceeded iteration_limit_exceeded tool_call_limit_exceeded
        token_budget_exceeded :
      Code
  cost_budget_exceeded plan_guard_rejected plan_has_no_actions verification_failed : Code
  policy_denied : String → Code
  tool_error : String → String → Code

-- the emitted events with what identifies them; `seq` is the position
pub data Event : Type 0 where
  started planned plan_guard context was_paused was_cancelled wall_time iteration_limit
        tool_call_limit token_budget cost_budget :
      Event
  checked : String → Decision → Event
  denied awaiting tool_called circuit_open : String → Event
  tool_failed : String → String → Event
  verified : Bool → Event
  ended : Status → Event

-- an item of `executed`
pub record Entry : Type 0 where
  pub tool : String
  pub ok : Bool

pub record Budget : Type 0 where
  pub max_iterations : ℕ
  pub max_tool_calls : ℕ
  pub max_wall_seconds : ℕ
  pub max_tokens : ℤ
  pub max_cost : ℤ

pub record State : Type 0 where
  pub status : Status
  pub iteration : ℕ
  pub tool_calls_count : ℕ
  pub tokens_used : ℤ
  pub cost_used : ℤ
  pub kill : Bool
  pub pause : Bool
  pub failures : String → List ℕ
  pub events : List Event
  pub failure_code : Code
  -- the locals of `run`
  pub executed : List Entry
  pub had_error : Bool

-- `RunCoordinator()`
abbrev pub fresh : State
fresh = record {
  status = queued;
  iteration = 0;
  tool_calls_count = 0;
  tokens_used = pos 0;
  cost_used = pos 0;
  kill = false;
  pause = false;
  failures = λ key. [];
  events = [];
  failure_code = no_code;
  executed = [];
  had_error = false;
}

abbrev pub emit : Event → State → State
emit e s = record s { events = s.events ++ e ∷ [] }

pub data Control : Type 0 where
  request_stop request_pause resume : Control

abbrev pub apply_control : Control → State → State
apply_control request_stop s = record s { kill = true }
apply_control request_pause s = record s { pause = true }
apply_control resume s = record s { pause = false }

-- the controls that arrive while the run awaits
unfoldable pub apply_controls : List Control → State → State
apply_controls [] s = s
apply_controls (c ∷ cs) s = apply_controls cs (apply_control c s)

-- `len` of a list of times
unfoldable pub count : List ℕ → ℕ
count [] = 0
count (t ∷ ts) = count ts + 1

-- `[t for t in lst if now - t < self._cooldown]`, on a clock that does not go back
unfoldable pub recent : ℕ → ℕ → List ℕ → List ℕ
recent cooldown now [] = []
recent cooldown now (t ∷ ts) =
    let rest = recent cooldown now ts in if ltb (now - t) cooldown then t ∷ rest else rest

-- CircuitBreaker(): the threshold and the cooldown
abbrev pub threshold : ℕ
threshold = 5

abbrev pub cooldown : ℕ
cooldown = 30

abbrev pub set_failures : String → List ℕ → (String → List ℕ) → String → List ℕ
set_failures key ts failures k = if key =ₛ k then ts else failures k

-- the new failures, and whether the circuit is open
unfoldable pub record_failure : String → ℕ → (String → List ℕ) → (String → List ℕ) × Bool
record_failure key now failures =
    let ts = recent cooldown now (failures key) ++ now ∷ [] in
    (set_failures key ts failures, leb threshold (count ts))

abbrev pub reset : String → (String → List ℕ) → String → List ℕ
reset key failures = set_failures key [] failures

-- a member of the usage dict: absent, a number, or what `int` or `float` refuses
pub data Amount : Type 0 where
  absent bad : Amount
  number : ℤ → Amount

pub record Usage : Type 0 where
  pub prompt_tokens : Amount
  pub completion_tokens : Amount
  pub total_tokens : Amount
  pub cost : Amount

abbrev is_zero : ℤ → Bool
is_zero (pos zero) = true
is_zero _ = false

-- `int(x or d)`
abbrev pub amount_or : ℤ → Amount → Option ℤ
amount_or d absent = some d
amount_or d bad = none
amount_or d (number n) = if is_zero n then some d else some n

abbrev pub add_cost : Option ℤ → State → State
add_cost none s = s
add_cost (some c) s = record s { cost_used = s.cost_used +ℤ c }

abbrev pub add_tokens : Option ℤ → Amount → State → State
add_tokens none cost s = s
add_tokens (some n) cost s =
    add_cost (amount_or (pos 0) cost) (record s { tokens_used = s.tokens_used +ℤ n })

abbrev pub add_parts : Option ℤ → Option ℤ → Usage → State → State
add_parts (some p) (some c) u s = add_tokens (amount_or (p +ℤ c) u.total_tokens) u.cost s
add_parts _ _ u s = s

-- `_add_usage`: an exception ends the account where it stands
unfoldable pub add_usage : Usage → State → State
add_usage u s =
    add_parts (amount_or (pos 0) u.prompt_tokens) (amount_or (pos 0) u.completion_tokens) u s

abbrev stop : Code → Event → State → State × Bool
stop code e s = (emit e (record s { failure_code = code }), false)

-- `can_continue`, `elapsed` after the start of the run
unfoldable pub can_continue : Budget → ℕ → State → State × Bool
can_continue b elapsed s =
    if s.kill
    then (s, false)
    else if s.pause
    then (emit was_paused s, false)
    else if ltb b.max_wall_seconds elapsed
    then stop wall_time_exceeded wall_time s
    else if leb b.max_iterations s.iteration
    then stop iteration_limit_exceeded iteration_limit s
    else if leb b.max_tool_calls s.tool_calls_count
    then stop tool_call_limit_exceeded tool_call_limit s
    else if ltb_ℤ b.max_tokens s.tokens_used
    then stop token_budget_exceeded token_budget s
    else if ltb_ℤ b.max_cost s.cost_used
    then stop cost_budget_exceeded cost_budget s
    else (s, true)
