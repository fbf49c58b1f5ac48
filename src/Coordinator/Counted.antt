-- ===== src/Coordinator/Counted.antt =====
-- The counters of a run of packages/agent_core/coordinator.py against its events.
use lumi_observatory.Base.{
  ℕ, ◌+◌, ◌≤◌, Bool, true, false, String, List, [], ◌∷◌, ◌++◌, ◌≡◌, refl, Option, none, some, arith,
  inl, inr, Bool-cases,
}
use lumi_observatory.Coordinator.State.{
  Decision, allow, require_approval, deny, Event, checked, denied, awaiting, tool_called,
  tool_failed, circuit_open, tool_error, failed, started, planned, context, was_paused,
  was_cancelled, wall_time, iteration_limit, tool_call_limit, token_budget, cost_budget, verified,
  ended, planning, executing, emit, plan_guard, Budget, State, fresh, Control, apply_controls,
  can_continue, Usage, record_failure,
}
use lumi_observatory.Coordinator.Verifier.{Check, verify}
use lumi_observatory.Coordinator.Turn.{
  Turn, Outcome, raised, unreported, returned, tool_or, on_open, tool_raised, tool_returned,
  on_decision, act, on_guard, turn,
}
use lumi_observatory.Coordinator.Run.{
  Plan, act_loop, settle, conclude, persist, charge, announce, prepare, actions_of, run_actions,
  run,
}
use lumi_observatory.Coordinator.Limits.{controls_only, charge_only, run-Within}

abbrev one_call : Event → ℕ
one_call (tool_called t) = 1
one_call _ = 0

abbrev one_check : Event → ℕ
one_check (checked t d) = 1
one_check _ = 0

-- the TOOL_CALL and the POLICY_CHECK events
unfoldable pub calls_in : List Event → ℕ
calls_in [] = 0
calls_in (e ∷ rest) = let n = calls_in rest in one_call e + n

unfoldable pub checks_in : List Event → ℕ
checks_in [] = 0
checks_in (e ∷ rest) = let n = checks_in rest in one_check e + n

calls_in-snoc : (es : List Event) (e : Event) → calls_in (es ++ e ∷ []) ≡ calls_in es + one_call e
unfolding calls_in
calls_in-snoc [] e = omega arith
calls_in-snoc (d ∷ es) e = let h = calls_in-snoc es e in omega (arith, h)

checks_in-snoc :
    (es : List Event) (e : Event) → checks_in (es ++ e ∷ []) ≡ checks_in es + one_check e
unfolding checks_in
checks_in-snoc [] e = omega arith
checks_in-snoc (d ∷ es) e = let h = checks_in-snoc es e in omega (arith, h)

-- the counters count the events
abbrev pub IsCounted : State → Type 0
IsCounted s = (calls_in s.events ≡ s.tool_calls_count) × (checks_in s.events ≡ s.iteration)

-- an event that is counted by no counter
emit-IsCounted :
    (e : Event) (s : State) → one_call e ≡ 0 → one_check e ≡ 0 → IsCounted s → IsCounted (emit e s)
emit-IsCounted e s c d h = (
  rw (calls_in-snoc s.events e) (omega (arith, c, h.0)),
  rw (checks_in-snoc s.events e) (omega (arith, d, h.1)),
)

on_open-IsCounted :
    (tool : String) (s : State) (r : (String → List ℕ) × Bool)
    → IsCounted s
    → IsCounted (on_open tool s r).0
on_open-IsCounted tool s (f, true) h = emit-IsCounted (circuit_open tool) s refl refl h
on_open-IsCounted tool s (f, false) h = h

raised-IsCounted :
    (tool name : String) (now : ℕ) (s : State)
    → IsCounted s
    → IsCounted (tool_raised tool name now s).0
raised-IsCounted tool name now s h =
    let recorded = record s {
      had_error = true;
      failure_code = tool_error (tool_or tool) name;
      events = s.events ++ tool_failed tool name ∷ [];
      executed = s.executed ++ record { tool = tool; ok = false } ∷ [];
    } in
    on_open-IsCounted tool recorded (record_failure tool now s.failures)
      (emit-IsCounted (tool_failed tool name) s refl refl h)

returned-IsCounted : (tool : String) (s : State) → IsCounted s → IsCounted (tool_returned tool s)
returned-IsCounted tool s h = (
  rw (calls_in-snoc s.events (tool_called tool)) (omega (arith, h.0)),
  rw (checks_in-snoc s.events (tool_called tool)) (omega (arith, h.1)),
)

on_decision-IsCounted :
    (tool : String) (d : Decision) (o : Outcome) (now : ℕ) (s : State)
    → IsCounted s
    → IsCounted (on_decision tool d o now s).0
on_decision-IsCounted tool deny o now s h = emit-IsCounted (denied tool) s refl refl h
on_decision-IsCounted tool require_approval o now s h = emit-IsCounted (awaiting tool) s refl refl h
on_decision-IsCounted tool allow (raised name) now s h = raised-IsCounted tool name now s h
on_decision-IsCounted tool allow (unreported name) now s h =
    raised-IsCounted tool name now (tool_returned tool s) (returned-IsCounted tool s h)
on_decision-IsCounted tool allow returned now s h = returned-IsCounted tool s h

guard-IsCounted :
    (b : Budget) (elapsed : ℕ) (s : State) → IsCounted s → IsCounted (can_continue b elapsed s).0
unfolding can_continue
guard-IsCounted b elapsed s h =
    let keeps : (e : Event) → one_call e ≡ 0 → one_check e ≡ 0 → IsCounted (emit e s) =
      λ e c d. emit-IsCounted e s c d h in
    ground (
      arith,
      h.0,
      h.1,
      keeps was_paused refl refl,
      keeps wall_time refl refl,
      keeps iteration_limit refl refl,
      keeps tool_call_limit refl refl,
      keeps token_budget refl refl,
      keeps cost_budget refl refl,
    )

controls-IsCounted : (cs : List Control) (s : State) → IsCounted s → IsCounted (apply_controls cs s)
controls-IsCounted cs s h = rw (controls_only cs s) h

act-IsCounted : (tool : String) (t : Turn) (s : State) → IsCounted s → IsCounted (act tool t s).0
unfolding act
act-IsCounted tool t s h =
    let entered = record s {
      iteration = s.iteration + 1;
      status = executing;
      events = s.events ++ checked tool t.decision ∷ [];
    } in
    let c : IsCounted entered = (
      rw (calls_in-snoc s.events (checked tool t.decision)) (omega (arith, h.0)),
      rw (checks_in-snoc s.events (checked tool t.decision)) (omega (arith, h.1)),
    ) in
    on_decision-IsCounted tool t.decision t.outcome t.clock (apply_controls t.during entered)
      (controls-IsCounted t.during entered c)

on_guard-IsCounted :
    (tool : String) (t : Turn) (r : State × Bool) → IsCounted r.0 → IsCounted (on_guard tool t r).0
on_guard-IsCounted tool t (s, true) h = act-IsCounted tool t s h
on_guard-IsCounted tool t (s, false) h = ground (arith, h.0, h.1)

turn-IsCounted :
    (b : Budget) (tool : String) (t : Turn) (s : State)
    → IsCounted s
    → IsCounted (turn b tool t s).0
unfolding turn act
turn-IsCounted b tool t s h =
    let here = apply_controls t.before s in
    let c = controls-IsCounted t.before s h in
    elim (Bool-cases t.pause_check) [
      | inl e ↦ rw e (emit-IsCounted was_paused here refl refl c)
      | inr e ↦ elim (Bool-cases t.stop_check) [
        | inl f ↦ rw (e, f) (emit-IsCounted was_cancelled here refl refl c)
        | inr f ↦
            rw (e, f)
              (on_guard-IsCounted tool t (can_continue b t.elapsed here)
                (guard-IsCounted b t.elapsed here c))
      ]
    ]

act_loop-IsCounted :
    (b : Budget) (acts : List (Option String)) (n : ℕ) (env : ℕ → Turn) (s : State)
    → IsCounted s
    → IsCounted (act_loop b acts n env s)
unfolding act_loop
act_loop-IsCounted b [] n env s h = h
act_loop-IsCounted b (none ∷ acts) n env s h = act_loop-IsCounted b acts (n + 1) env s h
act_loop-IsCounted b (some tool ∷ acts) n env s h =
    let c = turn-IsCounted b tool (env n) s h in
    let rest = act_loop-IsCounted b acts (n + 1) env (turn b tool (env n) s).0 c in
    elim (Bool-cases (turn b tool (env n) s).1) [ inl e ↦ rw e rest | inr e ↦ rw e c ]

conclude-IsCounted : (v : Bool) (s : State) → IsCounted s → IsCounted (conclude v s)
conclude-IsCounted true s h = emit-IsCounted (verified true) s refl refl h
conclude-IsCounted false s h = emit-IsCounted (verified false) s refl refl h

settle-IsCounted : (checks : List Check) (s : State) → IsCounted s → IsCounted (settle checks s)
unfolding settle
settle-IsCounted checks s h =
    let v = emit-IsCounted (verified false) s refl refl h in
    let c = conclude-IsCounted (verify checks s.executed) s h in
    ground (arith, h.0, h.1, v.0, v.1, c.0, c.1)

charge-IsCounted : (o : Option Usage) (s : State) → IsCounted s → IsCounted (charge o s)
charge-IsCounted o s h = rw (charge_only o s) h

announce-IsCounted : (g : Bool) (s : State) → IsCounted s → IsCounted (announce g s)
announce-IsCounted true s h = emit-IsCounted plan_guard s refl refl h
announce-IsCounted false s h = h

prepare-IsCounted : (p : Plan) (s : State) → IsCounted s → IsCounted (prepare p s)
unfolding prepare
prepare-IsCounted p s h =
    let began = emit planned (emit started (record s { status = planning })) in
    let a = emit-IsCounted started (record s { status = planning }) refl refl h in
    let b = emit-IsCounted planned (emit started (record s { status = planning })) refl refl a in
    let c = announce-IsCounted p.guarded began b in
    emit-IsCounted context (charge p.usage (announce p.guarded began)) refl refl
      (charge-IsCounted p.usage (announce p.guarded began) c)

run_actions-IsCounted :
    (b : Budget) (checks : List Check) (g : Bool) (acts : List (Option String)) (env : ℕ → Turn)
    (s : State)
    → IsCounted s
    → IsCounted (run_actions b checks g acts env s)
run_actions-IsCounted b checks g [] env s h =
    emit-IsCounted (ended failed) (emit (verified false) s) refl refl
      (emit-IsCounted (verified false) s refl refl h)
run_actions-IsCounted b checks g (a ∷ acts) env s h =
    let last = settle checks (act_loop b (a ∷ acts) 0 env s) in
    emit-IsCounted (ended (persist last.status)) last refl refl (
      settle-IsCounted checks (act_loop b (a ∷ acts) 0 env s)
        (act_loop-IsCounted b (a ∷ acts) 0 env s h))

fresh-IsCounted : IsCounted fresh
unfolding calls_in checks_in
fresh-IsCounted = (refl, refl)

run-IsCounted :
    (b : Budget) (checks : List Check) (p : Plan) (env : ℕ → Turn)
    → IsCounted (run b checks p env fresh)
unfolding run
run-IsCounted b checks p env =
    run_actions-IsCounted b checks p.guarded (actions_of p) env (prepare p fresh)
      (prepare-IsCounted p fresh fresh-IsCounted)

-- the events within the limits of the run
abbrev pub IsLimited : Budget → State → Type 0
IsLimited b s =
    (checks_in s.events ≤ b.max_iterations)
    × (calls_in s.events ≤ b.max_tool_calls)
    × (calls_in s.events ≤ checks_in s.events)

-- Whatever the plan and its surroundings do, a run that starts fresh emits at most `max_iterations` POLICY_CHECK
-- events and at most `max_tool_calls` TOOL_CALL events, and no more of the latter; the two counters that it reports
-- are the numbers of these events.
pub run-IsLimited :
    (b : Budget) (checks : List Check) (p : Plan) (env : ℕ → Turn)
    → IsLimited b (run b checks p env fresh) × IsCounted (run b checks p env fresh)
run-IsLimited b checks p env =
    let c = run-IsCounted b checks p env in
    let w = run-Within b checks p env in
    ((omega (arith, c.1, w.0), omega (arith, c.0, w.1), omega (arith, c.0, c.1, w.2)), c)
