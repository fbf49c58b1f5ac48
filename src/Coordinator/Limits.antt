-- ===== src/Coordinator/Limits.antt =====
-- The limits of a run: the loop counts its iterations and its finished calls, and stops at the budget.
use lumi_observatory.Base.{
  ℕ, ◌+◌, ◌≤◌, ◌<◌, Bool, true, false, String, List, [], ◌∷◌, ◌++◌, ◌≡◌, refl, sym, ap, ◌∙◌, Option,
  none, some, arith, inl, inr, Bool-cases,
}
use lumi_observatory.Coordinator.State.{
  Decision, checked, planning, executing, emit, started, planned, plan_guard, Budget, State, fresh,
  Control, request_stop, request_pause, resume, apply_controls, record_failure, can_continue,
  add_usage, Usage,
}
use lumi_observatory.Coordinator.Verifier.{Check}
use lumi_observatory.Coordinator.Turn.{Turn, Outcome, on_decision, act, on_guard, turn}
use lumi_observatory.Coordinator.Run.{
  Plan, act_loop, settle, announce, charge, prepare, actions_of, run_actions, run,
}

-- controls set the two flags and nothing else
pub controls_only :
    (cs : List Control) (s : State)
    → apply_controls cs s
      ≡ record s { kill = (apply_controls cs s).kill; pause = (apply_controls cs s).pause }
unfolding apply_controls
controls_only [] s = refl
controls_only (request_stop ∷ cs) s = controls_only cs (record s { kill = true })
controls_only (request_pause ∷ cs) s = controls_only cs (record s { pause = true })
controls_only (resume ∷ cs) s = controls_only cs (record s { pause = false })

-- the guard lets a run through only below its limits, and then changes nothing
pub guard_passed :
    (b : Budget) (elapsed : ℕ) (s : State)
    → (can_continue b elapsed s).1 ≡ true
    → ((can_continue b elapsed s).0 ≡ s)
      × (s.iteration < b.max_iterations)
      × (s.tool_calls_count < b.max_tool_calls)
unfolding can_continue
guard_passed b elapsed s h = ground arith

guard_counts :
    (b : Budget) (elapsed : ℕ) (s : State)
    → ((can_continue b elapsed s).0.iteration ≡ s.iteration)
      × ((can_continue b elapsed s).0.tool_calls_count ≡ s.tool_calls_count)
unfolding can_continue
guard_counts b elapsed s = ground arith

on_decision_counts :
    (tool : String) (d : Decision) (o : Outcome) (now : ℕ) (s : State)
    → ((on_decision tool d o now s).0.iteration ≡ s.iteration)
      × (s.tool_calls_count ≤ (on_decision tool d o now s).0.tool_calls_count)
      × ((on_decision tool d o now s).0.tool_calls_count ≤ s.tool_calls_count + 1)
unfolding record_failure
on_decision_counts tool d o now s = ground arith

controls_counts :
    (cs : List Control) (s : State)
    → ((apply_controls cs s).iteration ≡ s.iteration)
      × ((apply_controls cs s).tool_calls_count ≡ s.tool_calls_count)
controls_counts cs s =
    (ap (λ x. x.iteration) (controls_only cs s), ap (λ x. x.tool_calls_count) (controls_only cs s))

act_counts :
    (tool : String) (t : Turn) (s : State)
    → ((act tool t s).0.iteration ≡ s.iteration + 1)
      × (s.tool_calls_count ≤ (act tool t s).0.tool_calls_count)
      × ((act tool t s).0.tool_calls_count ≤ s.tool_calls_count + 1)
unfolding act
act_counts tool t s =
    let entered = record s {
      iteration = s.iteration + 1;
      status = executing;
      events = s.events ++ checked tool t.decision ∷ [];
    } in
    let c = controls_counts t.during entered in
    let d =
      on_decision_counts tool t.decision t.outcome t.clock (apply_controls t.during entered) in
    (d.0 ∙ c.0, omega (arith, c.1, d.1), omega (arith, c.1, d.2))

-- the counters are within the limits, and only iterations finish calls
abbrev pub Within : Budget → State → Type 0
Within b s =
    (s.iteration ≤ b.max_iterations)
    × (s.tool_calls_count ≤ b.max_tool_calls)
    × (s.tool_calls_count ≤ s.iteration)

same-Within :
    (b : Budget) (s next : State)
    → (next.iteration ≡ s.iteration) × (next.tool_calls_count ≡ s.tool_calls_count)
    → Within b s
    → Within b next
same-Within b s next e w =
    (omega (arith, e.0, w.0), omega (arith, e.1, w.1), omega (arith, e.0, e.1, w.2))

guard-Within :
    (b : Budget) (tool : String) (t : Turn) (s : State) (r : State × Bool)
    → can_continue b t.elapsed s ≡ r
    → Within b s
    → Within b (on_guard tool t r).0
guard-Within b tool t s (next, true) e w =
    let p = guard_passed b t.elapsed s (ap (λ x. x.1) e) in
    let same : next ≡ s = sym (ap (λ x. x.0) e) ∙ p.0 in
    let c = act_counts tool t s in
    rw same (omega (arith, c.0, p.1), omega (arith, c.2, p.2), omega (arith, c.0, c.2, w.2))
guard-Within b tool t s (next, false) e w =
    let c = guard_counts b t.elapsed s in
    let d : (next.iteration ≡ s.iteration) × (next.tool_calls_count ≡ s.tool_calls_count) =
      (sym (ap (λ x. x.0.iteration) e) ∙ c.0, sym (ap (λ x. x.0.tool_calls_count) e) ∙ c.1) in
    same-Within b s (on_guard tool t (next, false)).0 (ground (arith, d.0), ground (arith, d.1)) w

turn-Within :
    (b : Budget) (tool : String) (t : Turn) (s : State) → Within b s → Within b (turn b tool t s).0
unfolding turn act
turn-Within b tool t s w =
    let here = apply_controls t.before s in
    let v = same-Within b s here (controls_counts t.before s) w in
    elim (Bool-cases t.pause_check) [
      | inl e ↦ rw e v
      | inr e ↦ elim (Bool-cases t.stop_check) [
        | inl f ↦ rw (e, f) v
        | inr f ↦ rw (e, f) (guard-Within b tool t here (can_continue b t.elapsed here) refl v)
      ]
    ]

act_loop-Within :
    (b : Budget) (acts : List (Option String)) (n : ℕ) (env : ℕ → Turn) (s : State)
    → Within b s
    → Within b (act_loop b acts n env s)
unfolding act_loop
act_loop-Within b [] n env s w = w
act_loop-Within b (none ∷ acts) n env s w = act_loop-Within b acts (n + 1) env s w
act_loop-Within b (some tool ∷ acts) n env s w =
    let v = turn-Within b tool (env n) s w in
    let rest = act_loop-Within b acts (n + 1) env (turn b tool (env n) s).0 v in
    elim (Bool-cases (turn b tool (env n) s).1) [ inl e ↦ rw e rest | inr e ↦ rw e v ]

pub charge_only :
    (o : Option Usage) (s : State)
    → charge o s
      ≡ record s { tokens_used = (charge o s).tokens_used; cost_used = (charge o s).cost_used }
unfolding add_usage
charge_only none s = refl
charge_only (some u) s = ground arith

-- before the first action a run sets its status, its account and its events only
abbrev pub Keeps : State → State → Type 0
Keeps s next =
    (next.iteration ≡ s.iteration)
    × (next.tool_calls_count ≡ s.tool_calls_count)
    × (next.failure_code ≡ s.failure_code)
    × (next.executed ≡ s.executed)
    × (next.had_error ≡ s.had_error)
    × (next.status ≡ s.status)

charge-Keeps : (o : Option Usage) (s : State) → Keeps s (charge o s)
charge-Keeps o s =
    let e = charge_only o s in
    (
      ap (λ x. x.iteration) e,
      ap (λ x. x.tool_calls_count) e,
      ap (λ x. x.failure_code) e,
      ap (λ x. x.executed) e,
      ap (λ x. x.had_error) e,
      ap (λ x. x.status) e,
    )

announced-Keeps : (o : Option Usage) (g : Bool) (s : State) → Keeps s (charge o (announce g s))
announced-Keeps o true s = charge-Keeps o (emit plan_guard s)
announced-Keeps o false s = charge-Keeps o s

pub prepare-Keeps : (p : Plan) (s : State) → Keeps (record s { status = planning }) (prepare p s)
unfolding prepare
prepare-Keeps p s =
    announced-Keeps p.usage p.guarded (emit planned (emit started (record s { status = planning })))

settle_counts :
    (checks : List Check) (s : State)
    → ((settle checks s).iteration ≡ s.iteration)
      × ((settle checks s).tool_calls_count ≡ s.tool_calls_count)
unfolding settle
settle_counts checks s = ground arith

run_actions-Within :
    (b : Budget) (checks : List Check) (g : Bool) (acts : List (Option String)) (env : ℕ → Turn)
    (s : State)
    → Within b s
    → Within b (run_actions b checks g acts env s)
run_actions-Within b checks g [] env s w = w
run_actions-Within b checks g (a ∷ acts) env s w =
    let last = act_loop b (a ∷ acts) 0 env s in
    same-Within b last (settle checks last) (settle_counts checks last)
      (act_loop-Within b (a ∷ acts) 0 env s w)

-- Whatever the plan and its surroundings do, a run that starts fresh ends with at most `max_iterations`
-- policy checks and at most `max_tool_calls` finished calls, and with no more finished calls than checks.
pub run-Within :
    (b : Budget) (checks : List Check) (p : Plan) (env : ℕ → Turn)
    → Within b (run b checks p env fresh)
unfolding run
run-Within b checks p env =
    run_actions-Within b checks p.guarded (actions_of p) env (prepare p fresh) (
      same-Within b fresh (prepare p fresh) ((prepare-Keeps p fresh).0, (prepare-Keeps p fresh).1)
        (omega arith, omega arith, omega arith))
