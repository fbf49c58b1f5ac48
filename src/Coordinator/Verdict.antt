-- ===== src/Coordinator/Verdict.antt =====
-- Every run ends in a final status, and a failed one carries its reason.
use lumi_observatory.Base.{
  ℕ, ◌+◌, Bool, true, false, not, ◌&&◌, ◌||◌, String, List, [], ◌∷◌, ◌++◌, ◌≡◌, refl, ap, ◌∙◌,
  Option, none, some, arith, inl, inr, Bool-cases,
}
use lumi_observatory.Coordinator.State.{
  Status, completed, failed, cancelled, paused, waiting_approval, executing, Code, no_code,
  Decision, checked, Budget, State, fresh, Control, apply_controls, record_failure, can_continue,
}
use lumi_observatory.Coordinator.Verifier.{Check}
use lumi_observatory.Coordinator.Turn.{Turn, Outcome, on_decision, act, on_guard, turn}
use lumi_observatory.Coordinator.Run.{
  Plan, act_loop, finish, settle, prepare, actions_of, run_actions, run,
}
use lumi_observatory.Coordinator.Limits.{prepare-Keeps}
use lumi_observatory.Coordinator.Complete.{is_late, act_loop_late, controls_other, controls_status}

abbrev pub has_code : Code → Bool
has_code no_code = false
has_code _ = true

abbrev pub is_failed : Status → Bool
is_failed failed = true
is_failed _ = false

-- the statuses a run may end with
abbrev pub is_final : Status → Bool
is_final completed = true
is_final failed = true
is_final cancelled = true
is_final paused = true
is_final waiting_approval = true
is_final _ = false

-- in the loop, a failure or an error has its code, and the status is one the end can deal with
abbrev explains : Status → Code → Bool → Bool
explains status code had_error = has_code code || (not (is_failed status) && not had_error)

abbrev is_explained : State → Bool
is_explained s = explains s.status s.failure_code s.had_error

on_decision_explained :
    (tool : String) (d : Decision) (o : Outcome) (now : ℕ) (s : State)
    → is_explained s ≡ true
    → is_explained (on_decision tool d o now s).0 ≡ true
unfolding record_failure
on_decision_explained tool d o now s h = ground arith

controls_explained :
    (cs : List Control) (s : State) → is_explained (apply_controls cs s) ≡ is_explained s
controls_explained cs s = let c = controls_other cs s in rw (c.1, c.2, controls_status cs s) refl

act_explained :
    (tool : String) (t : Turn) (s : State)
    → is_explained s ≡ true
    → is_explained (act tool t s).0 ≡ true
unfolding act
act_explained tool t s h =
    let entered = record s {
      iteration = s.iteration + 1;
      status = executing;
      events = s.events ++ checked tool t.decision ∷ [];
    } in
    on_decision_explained tool t.decision t.outcome t.clock (apply_controls t.during entered)
      (controls_explained t.during entered ∙ ground arith)

-- a guard that stops the run without a control has set the code
guard_explained :
    (b : Budget) (elapsed : ℕ) (tool : String) (t : Turn) (s : State)
    → is_explained s ≡ true
    → is_explained (on_guard tool t (can_continue b elapsed s)).0 ≡ true
unfolding can_continue
guard_explained b elapsed tool t s h = ground (arith, act_explained tool t s h)

turn_explained :
    (b : Budget) (tool : String) (t : Turn) (s : State)
    → is_explained s ≡ true
    → is_explained (turn b tool t s).0 ≡ true
unfolding turn
turn_explained b tool t s h =
    let j = controls_explained t.before s ∙ h in
    let g = guard_explained b t.elapsed tool t (apply_controls t.before s) j in ground (arith, g, j)

act_loop_explained :
    (b : Budget) (acts : List (Option String)) (n : ℕ) (env : ℕ → Turn) (s : State)
    → is_explained s ≡ true
    → is_explained (act_loop b acts n env s) ≡ true
unfolding act_loop
act_loop_explained b [] n env s h = h
act_loop_explained b (none ∷ acts) n env s h = act_loop_explained b acts (n + 1) env s h
act_loop_explained b (some tool ∷ acts) n env s h =
    let j = turn_explained b tool (env n) s h in
    let k = act_loop_explained b acts (n + 1) env (turn b tool (env n) s).0 j in
    elim (Bool-cases (turn b tool (env n) s).1) [ inl e ↦ rw e k | inr e ↦ rw e j ]

-- the status is final, and a failure has its code
abbrev pub Concluded : State → Type 0
Concluded s = (is_final s.status ≡ true) × (s.status ≡ failed → has_code s.failure_code ≡ true)

settle-Concluded :
    (checks : List Check) (s : State)
    → is_late s.status ≡ false
    → is_explained s ≡ true
    → Concluded (finish (settle checks s))
unfolding settle
settle-Concluded checks s l h = ground arith

-- Every run that starts fresh ends COMPLETED, FAILED, CANCELLED, PAUSED or WAITING_APPROVAL, and one that
-- ends FAILED has a failure code.
pub run-Concluded :
    (b : Budget) (checks : List Check) (p : Plan) (env : ℕ → Turn)
    → Concluded (run b checks p env fresh)
unfolding run
run-Concluded b checks p env = concluded_actions (actions_of p)
  where
    start : State
    start = prepare p fresh

    concluded_actions :
        (acts : List (Option String)) → Concluded (run_actions b checks p.guarded acts env start)
    concluded_actions [] = ground arith
    concluded_actions (a ∷ acts) =
        let k = prepare-Keeps p fresh in
        settle-Concluded checks (act_loop b (a ∷ acts) 0 env start)
          (act_loop_late b (a ∷ acts) 0 env start (ap is_late k.5))
          (act_loop_explained b (a ∷ acts) 0 env start (ground (arith, k.2, k.4, k.5)))
