-- ===== src/Coordinator/Run.antt =====
-- RunCoordinator.run in packages/agent_core/coordinator.py, from the plan to the final status.
use lumi_observatory.Base.{
  ℕ, ◌+◌, Bool, true, false, not, String, List, [], ◌∷◌, Option, none, some, if◌then◌else◌,
}
use lumi_observatory.Coordinator.State.{
  Status, queued, context_building, planning, policy_check, executing, persisting, completed,
  failed, cancelled, paused, Code, no_code, plan_guard_rejected, plan_has_no_actions,
  verification_failed, started, planned, plan_guard, context, verified, ended, Budget, State, emit,
  Usage, add_usage,
}
use lumi_observatory.Coordinator.Verifier.{Check, verify}
use lumi_observatory.Coordinator.Turn.{Turn, turn}

-- An action is the name of its tool, or `none` where it is no dict. A plan is a dict.
pub record Plan : Type 0 where
  pub guarded : Bool
  pub usage : Option Usage
  pub actions : List (Option String)
  pub tools : List String

-- an old plan names its tools only
unfoldable pub from_tools : List String → List (Option String)
from_tools [] = []
from_tools (t ∷ ts) = some t ∷ from_tools ts

abbrev pub actions_of : Plan → List (Option String)
actions_of p = elim p.actions [ [] ↦ from_tools p.tools | a ∷ rest ↦ a ∷ rest ]

-- the loop from the action at position `n` on: `env` gives what each action meets
unfoldable pub act_loop : Budget → List (Option String) → ℕ → (ℕ → Turn) → State → State
act_loop b [] n env s = s
act_loop b (none ∷ acts) n env s = act_loop b acts (n + 1) env s
act_loop b (some tool ∷ acts) n env s =
    let rest = act_loop b acts (n + 1) env (turn b tool (env n) s).0 in
    if (turn b tool (env n) s).1 then rest else (turn b tool (env n) s).0

-- the statuses that `run` takes to verification
abbrev pub is_open : Status → Bool
is_open queued = true
is_open executing = true
is_open planning = true
is_open context_building = true
is_open policy_check = true
is_open _ = false

abbrev pub or_code : Code → Code → Code
or_code no_code d = d
or_code c d = c

abbrev pub conclude : Bool → State → State
conclude true s = emit (verified true) (record s { status = persisting })
conclude false s =
    emit (verified false)
      (record s { status = failed; failure_code = or_code s.failure_code verification_failed })

-- `if self.status == RunStatus.PERSISTING`, and the last event
abbrev pub persist : Status → Status
persist persisting = completed
persist x = x

abbrev pub finish : State → State
finish s = let done = persist s.status in emit (ended done) (record s { status = done })

unfoldable pub settle : List Check → State → State
settle checks s =
    if s.pause
    then record s { status = paused }
    else if s.kill
    then record s { status = cancelled }
    else if not (is_open s.status)
    then s
    else if s.had_error
    then emit (verified false) (record s { status = failed })
    else conclude (verify checks s.executed) s

abbrev pub reject_plan : Bool → State → State
reject_plan guarded s = emit (ended failed) (
    emit (verified false) (record s {
      status = failed;
      failure_code = if guarded then plan_guard_rejected else plan_has_no_actions;
    }))

-- `plan.get("_llm_usage") or {}`
abbrev pub charge : Option Usage → State → State
charge none s = s
charge (some u) s = add_usage u s

-- the guard's event, where the plan has a guard
abbrev pub announce : Bool → State → State
announce true s = emit plan_guard s
announce false s = s

-- the emissions and the account before the first action
unfoldable pub prepare : Plan → State → State
prepare p s =
    let began = emit planned (emit started (record s { status = planning })) in
    emit context (charge p.usage (announce p.guarded began))

abbrev pub run_actions :
    Budget → List Check → Bool → List (Option String) → (ℕ → Turn) → State → State
run_actions b checks guarded [] env s = reject_plan guarded s
run_actions b checks guarded (a ∷ acts) env s =
    finish (settle checks (act_loop b (a ∷ acts) 0 env s))

unfoldable pub run : Budget → List Check → Plan → (ℕ → Turn) → State → State
run b checks p env s = run_actions b checks p.guarded (actions_of p) env (prepare p s)
