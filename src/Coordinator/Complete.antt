-- ===== src/Coordinator/Complete.antt =====
-- What a final status tells: a completed run executed its whole plan, a failed one says why.
use mathlib.Core.List.{append-nil, append_assoc}
use lumi_observatory.Base.{
  ℕ, ◌+◌, Bool, true, false, not, ◌||◌, String, List, [], ◌∷◌, ◌++◌, ◌≡◌, refl, sym, ap, ◌∙◌,
  Option, none, some, arith, inl, inr, Bool-cases,
}
use lumi_observatory.Coordinator.State.{
  Status, completed, verifying, persisting, no_code, Entry, Decision, checked, executing, Budget,
  State, fresh, Control, apply_controls, record_failure, can_continue,
}
use lumi_observatory.Coordinator.Verifier.{Check, verify}
use lumi_observatory.Coordinator.Turn.{Turn, Outcome, on_decision, act, on_guard, turn}
use lumi_observatory.Coordinator.Run.{
  Plan, act_loop, is_open, persist, settle, prepare, actions_of, run_actions, run,
}
use lumi_observatory.Coordinator.Limits.{controls_only, guard_passed, prepare-Keeps}

abbrev pub success : String → Entry
success tool = record { tool = tool; ok = true }

-- the evidence of a plan whose every dict action succeeded
pub successes : List (Option String) → List Entry
successes [] = []
successes (none ∷ acts) = successes acts
successes (some tool ∷ acts) = success tool ∷ successes acts

-- the loop ended for a reason that finalizing respects
abbrev is_stopped : State → Bool
is_stopped s = s.kill || s.pause || not (is_open s.status)

execute_more :
    (tool : String) (d : Decision) (o : Outcome) (now : ℕ) (s : State)
    → (on_decision tool d o now s).1 ≡ true
    → (on_decision tool d o now s).0.had_error ≡ false
    → ((on_decision tool d o now s).0.executed ≡ s.executed ++ success tool ∷ [])
      × ((on_decision tool d o now s).0.failure_code ≡ s.failure_code)
      × (s.had_error ≡ false)
unfolding record_failure
execute_more tool d o now s h e = ground arith

execute_stop :
    (tool : String) (d : Decision) (o : Outcome) (now : ℕ) (s : State)
    → (on_decision tool d o now s).1 ≡ false
    → is_stopped (on_decision tool d o now s).0 ≡ true
unfolding record_failure
execute_stop tool d o now s h = ground arith

execute_error :
    (tool : String) (d : Decision) (o : Outcome) (now : ℕ) (s : State)
    → s.had_error ≡ true
    → (on_decision tool d o now s).0.had_error ≡ true
unfolding record_failure
execute_error tool d o now s h = ground arith

pub controls_other :
    (cs : List Control) (s : State)
    → ((apply_controls cs s).executed ≡ s.executed)
      × ((apply_controls cs s).failure_code ≡ s.failure_code)
      × ((apply_controls cs s).had_error ≡ s.had_error)
controls_other cs s = (
  ap (λ x. x.executed) (controls_only cs s),
  ap (λ x. x.failure_code) (controls_only cs s),
  ap (λ x. x.had_error) (controls_only cs s),
)

guard_error :
    (b : Budget) (elapsed : ℕ) (s : State) → (can_continue b elapsed s).0.had_error ≡ s.had_error
unfolding can_continue
guard_error b elapsed s = ground arith

-- what one turn leaves behind, whether the loop goes on or not
abbrev Advances : String → State → State × Bool → Type 0
Advances tool s r =
    (r.1 ≡ true
      → r.0.had_error ≡ false
      → (r.0.executed ≡ s.executed ++ success tool ∷ [])
        × (r.0.failure_code ≡ s.failure_code)
        × (s.had_error ≡ false))
    × (r.1 ≡ false → is_stopped r.0 ≡ true)
    × (s.had_error ≡ true → r.0.had_error ≡ true)

act-Advances : (tool : String) (t : Turn) (s : State) → Advances tool s (act tool t s)
unfolding act
act-Advances tool t s =
    let entered = record s {
      iteration = s.iteration + 1;
      status = executing;
      events = s.events ++ checked tool t.decision ∷ [];
    } in
    let c = controls_other t.during entered in
    let here = apply_controls t.during entered in
    (
      λ h e.
          let m = execute_more tool t.decision t.outcome t.clock here h e in
          (m.0 ∙ ap (λ x. x ++ success tool ∷ []) c.0, m.1 ∙ c.1, sym c.2 ∙ m.2),
      execute_stop tool t.decision t.outcome t.clock here,
      λ h. execute_error tool t.decision t.outcome t.clock here (c.2 ∙ h),
    )

guard-Advances :
    (b : Budget) (tool : String) (t : Turn) (s : State) (r : State × Bool)
    → can_continue b t.elapsed s ≡ r
    → Advances tool s (on_guard tool t r)
guard-Advances b tool t s (next, true) e =
    let p = guard_passed b t.elapsed s (ap (λ x. x.1) e) in
    let same : next ≡ s = sym (ap (λ x. x.0) e) ∙ p.0 in rw same (act-Advances tool t s)
guard-Advances b tool t s (next, false) e =
    let d : next.had_error ≡ s.had_error =
      sym (ap (λ x. x.0.had_error) e) ∙ guard_error b t.elapsed s in
    (λ h. absurd (cc), λ h. ground arith, λ h. ground (arith, d))

turn-Advances :
    (b : Budget) (tool : String) (t : Turn) (s : State) → Advances tool s (turn b tool t s)
unfolding turn act
turn-Advances b tool t s =
    let here = apply_controls t.before s in
    let c = controls_other t.before s in
    let g = guard-Advances b tool t here (can_continue b t.elapsed here) refl in
    elim (Bool-cases t.pause_check) [
      | inl e ↦ rw e (λ h. absurd (cc), λ h. ground arith, λ h. c.2 ∙ h)
      | inr e ↦ elim (Bool-cases t.stop_check) [
        | inl f ↦ rw (e, f) (λ h. absurd (cc), λ h. ground arith, λ h. c.2 ∙ h)
        | inr f ↦
            rw (e, f)
              (
                λ h k.
                    let m = g.0 h k in
                    (m.0 ∙ ap (λ x. x ++ success tool ∷ []) c.0, m.1 ∙ c.1, sym c.2 ∙ m.2),
                g.1,
                λ h. g.2 (c.2 ∙ h),
              )
      ]
    ]

-- the loop went through every action without an error, or it stopped, or there was an error
act_loop_advances :
    (b : Budget) (acts : List (Option String)) (n : ℕ) (env : ℕ → Turn) (s : State)
    → is_stopped (act_loop b acts n env s) ≡ false
    → (act_loop b acts n env s).had_error ≡ false
    → ((act_loop b acts n env s).executed ≡ s.executed ++ successes acts)
      × ((act_loop b acts n env s).failure_code ≡ s.failure_code)
      × (s.had_error ≡ false)
unfolding act_loop successes
act_loop_advances b [] n env s = λ h e. (sym (append-nil s.executed), refl, e)
act_loop_advances b (none ∷ acts) n env s = act_loop_advances b acts (n + 1) env s
act_loop_advances b (some tool ∷ acts) n env s =
    let a = turn-Advances b tool (env n) s in
    let next = (turn b tool (env n) s).0 in
    elim (Bool-cases (turn b tool (env n) s).1) [
      | inl m ↦ rw m (λ h e.
          let r = act_loop_advances b acts (n + 1) env next h e in
          let d = a.0 m r.2 in
          (
            r.0
                ∙ ap (λ x. x ++ successes acts) d.0
                ∙ append_assoc s.executed (success tool ∷ []) (successes acts),
            r.1 ∙ d.1,
            d.2,
          ))
      | inr m ↦ rw m (λ h e. absurd (cc (a.1 m, h)))
    ]

-- the statuses that only finalizing sets
abbrev pub is_late : Status → Bool
is_late completed = true
is_late verifying = true
is_late persisting = true
is_late _ = false

on_decision_late :
    (tool : String) (d : Decision) (o : Outcome) (now : ℕ) (s : State)
    → is_late s.status ≡ false
    → is_late (on_decision tool d o now s).0.status ≡ false
unfolding record_failure
on_decision_late tool d o now s h = ground arith

pub controls_status : (cs : List Control) (s : State) → (apply_controls cs s).status ≡ s.status
controls_status cs s = ap (λ x. x.status) (controls_only cs s)

guard_late :
    (tool : String) (t : Turn) (r : State × Bool)
    → is_late r.0.status ≡ false
    → is_late (on_guard tool t r).0.status ≡ false
unfolding act
guard_late tool t (s, false) h = ground arith
guard_late tool t (s, true) h =
    let entered = record s {
      iteration = s.iteration + 1;
      status = executing;
      events = s.events ++ checked tool t.decision ∷ [];
    } in
    on_decision_late tool t.decision t.outcome t.clock (apply_controls t.during entered)
      (ap is_late (controls_status t.during entered))

guard_status :
    (b : Budget) (elapsed : ℕ) (s : State) → (can_continue b elapsed s).0.status ≡ s.status
unfolding can_continue
guard_status b elapsed s = ground arith

turn_late :
    (b : Budget) (tool : String) (t : Turn) (s : State)
    → is_late s.status ≡ false
    → is_late (turn b tool t s).0.status ≡ false
unfolding turn
turn_late b tool t s h =
    let here = apply_controls t.before s in
    let g =
      guard_late tool t (can_continue b t.elapsed here)
        (ap is_late (guard_status b t.elapsed here ∙ controls_status t.before s) ∙ h) in
    ground (arith, g)

pub act_loop_late :
    (b : Budget) (acts : List (Option String)) (n : ℕ) (env : ℕ → Turn) (s : State)
    → is_late s.status ≡ false
    → is_late (act_loop b acts n env s).status ≡ false
unfolding act_loop
act_loop_late b [] n env s h = h
act_loop_late b (none ∷ acts) n env s h = act_loop_late b acts (n + 1) env s h
act_loop_late b (some tool ∷ acts) n env s h =
    let j = turn_late b tool (env n) s h in
    let k = act_loop_late b acts (n + 1) env (turn b tool (env n) s).0 j in
    elim (Bool-cases (turn b tool (env n) s).1) [ inl e ↦ rw e k | inr e ↦ rw e j ]

settle_completed :
    (checks : List Check) (s : State)
    → is_late s.status ≡ false
    → persist (settle checks s).status ≡ completed
    → (is_stopped s ≡ false)
      × (s.had_error ≡ false)
      × (verify checks s.executed ≡ true)
      × ((settle checks s).executed ≡ s.executed)
      × ((settle checks s).failure_code ≡ s.failure_code)
unfolding settle
settle_completed checks s l h = ground arith

-- A run that starts fresh and ends COMPLETED executed every action of its plan that is a dict, in order,
-- each with success and none twice; the checks passed on that evidence; and no failure code is set.
pub run_completed :
    (b : Budget) (checks : List Check) (p : Plan) (env : ℕ → Turn)
    → (run b checks p env fresh).status ≡ completed
    → ((run b checks p env fresh).executed ≡ successes (actions_of p))
      × (verify checks (successes (actions_of p)) ≡ true)
      × ((run b checks p env fresh).failure_code ≡ no_code)
unfolding run
run_completed b checks p env h = completed_actions (actions_of p) h
  where
    start : State
    start = prepare p fresh

    completed_actions :
        (acts : List (Option String))
        → (run_actions b checks p.guarded acts env start).status ≡ completed
        → ((run_actions b checks p.guarded acts env start).executed ≡ successes acts)
          × (verify checks (successes acts) ≡ true)
          × ((run_actions b checks p.guarded acts env start).failure_code ≡ no_code)
    completed_actions [] h = absurd (cc)
    completed_actions (a ∷ acts) h =
        let k = prepare-Keeps p fresh in
        let last = act_loop b (a ∷ acts) 0 env start in
        let s =
          settle_completed checks last (act_loop_late b (a ∷ acts) 0 env start (ap is_late k.5))
            h in
        let r = act_loop_advances b (a ∷ acts) 0 env start s.0 s.1 in
        let e = r.0 ∙ ap (λ x. x ++ successes (a ∷ acts)) k.3 in
        (s.3 ∙ e, ap (verify checks) (sym e) ∙ s.2, s.4 ∙ r.1 ∙ k.2)
