-- ===== src/Coordinator/Gate.antt =====
-- The order of the events of a run: no tool is called that the policy did not just allow.
use lumi_observatory.Base.{
  ℕ, ◌+◌, Bool, true, false, String, List, [], ◌∷◌, ◌++◌, ◌≡◌, refl, ◌∙◌, Option, none, some,
  if◌then◌else◌, arith, inl, inr, Bool-cases,
}
use lumi_observatory.Base.Text.{◌=ₛ◌, eq_iff}
use lumi_observatory.Coordinator.State.{
  Decision, allow, require_approval, deny, Event, checked, tool_called, tool_failed, was_paused,
  was_cancelled, wall_time, iteration_limit, tool_call_limit, token_budget, cost_budget, denied,
  awaiting, circuit_open, executing, failed, tool_error, fresh, verified, ended, planning, started,
  planned, plan_guard, context, emit, Budget, State, Control, request_stop, request_pause, resume,
  apply_controls, record_failure, can_continue, add_usage, Usage,
}
use lumi_observatory.Coordinator.Verifier.{Check}
use lumi_observatory.Coordinator.Turn.{
  Turn, Outcome, tool_or, on_open, tool_raised, tool_returned, raised, unreported, returned,
  execute, on_decision, act, on_guard, turn,
}
use lumi_observatory.Coordinator.Run.{
  Plan, act_loop, settle, announce, charge, prepare, persist, actions_of, run_actions, run,
}

-- What a reader of the events knows: no decision in force, a tool allowed just now, a tool called just
-- now, or a breach.
pub data Gate : Type 0 where
  closed broken : Gate
  opened ran : String → Gate

abbrev pub admits : Gate → String → Bool
admits closed tool = false
admits broken tool = false
admits (ran t) tool = false
admits (opened t) tool = t =ₛ tool

abbrev pub may_fail : Gate → String → Bool
may_fail (opened t) tool = t =ₛ tool
may_fail (ran t) tool = t =ₛ tool
may_fail _ tool = false

-- a call needs the decision that opened the gate for its tool; its failure closes the gate
abbrev pub watch : Gate → Event → Gate
watch g (checked tool allow) = elim g [ broken ↦ broken | _ ↦ opened tool ]
watch g (tool_called tool) = if admits g tool then ran tool else broken
watch g (tool_failed tool name) = if may_fail g tool then closed else broken
watch g e = elim g [ broken ↦ broken | _ ↦ closed ]

unfoldable pub watch_all : Gate → List Event → Gate
watch_all g [] = g
watch_all g (e ∷ es) = watch_all (watch g e) es

abbrev pub is_intact : Gate → Bool
is_intact broken = false
is_intact _ = true

watch_all-append :
    (g : Gate) (es : List Event) (e : Event) → watch_all g (es ++ e ∷ []) ≡ watch (watch_all g es) e
unfolding watch_all
watch_all-append g [] e = refl
watch_all-append g (x ∷ es) e = watch_all-append (watch g x) es e

abbrev gate_of : State → Gate
gate_of s = watch_all closed s.events

controls_events : (cs : List Control) (s : State) → (apply_controls cs s).events ≡ s.events
unfolding apply_controls
controls_events [] s = refl
controls_events (request_stop ∷ cs) s = controls_events cs (record s { kill = true })
controls_events (request_pause ∷ cs) s = controls_events cs (record s { pause = true })
controls_events (resume ∷ cs) s = controls_events cs (record s { pause = false })

-- an event that is no call leaves the gate intact
abbrev is_call : Event → Bool
is_call (tool_called tool) = true
is_call (tool_failed tool name) = true
is_call _ = false

watch_intact :
    (g : Gate) (e : Event) → is_call e ≡ false → is_intact g ≡ true → is_intact (watch g e) ≡ true
watch_intact g e c i = ground arith

emit_intact :
    (s : State) (e : Event)
    → is_call e ≡ false
    → is_intact (gate_of s) ≡ true
    → is_intact (gate_of (emit e s)) ≡ true
emit_intact s e c i = rw (watch_all-append closed s.events e) (watch_intact (gate_of s) e c i)

called_runs : (tool : String) (g : Gate) → g ≡ opened tool → watch g (tool_called tool) ≡ ran tool
called_runs tool g h = ground (arith, eq_iff tool tool)

opened-may_fail : (tool : String) (g : Gate) → g ≡ opened tool → may_fail g tool ≡ true
opened-may_fail tool g h = ground (arith, eq_iff tool tool)

ran-may_fail : (tool : String) (g : Gate) → g ≡ ran tool → may_fail g tool ≡ true
ran-may_fail tool g h = ground (arith, eq_iff tool tool)

raised_intact :
    (tool name : String) (now : ℕ) (s : State)
    → may_fail (gate_of s) tool ≡ true
    → is_intact (gate_of (tool_raised tool name now s).0) ≡ true
raised_intact tool name now s h = on_open_intact (record_failure tool now s.failures)
  where
    failed_closes : watch_all closed (s.events ++ tool_failed tool name ∷ []) ≡ closed
    failed_closes = rw (watch_all-append closed s.events (tool_failed tool name), h) refl

    on_open_intact :
        (r : (String → List ℕ) × Bool)
        → is_intact (
            gate_of
              (on_open tool
                (record s {
                  had_error = true;
                  failure_code = tool_error (tool_or tool) name;
                  events = s.events ++ tool_failed tool name ∷ [];
                  executed = s.executed ++ record { tool = tool; ok = false } ∷ [];
                })
                r).0)
          ≡ true
    on_open_intact (f, true) =
        rw
          (
            watch_all-append closed (s.events ++ tool_failed tool name ∷ []) (circuit_open tool),
            failed_closes,
          )
          refl
    on_open_intact (f, false) = rw failed_closes refl

execute_intact :
    (tool : String) (o : Outcome) (now : ℕ) (s : State)
    → gate_of s ≡ opened tool
    → is_intact (gate_of (execute tool o now s).0) ≡ true
execute_intact tool (raised name) now s h =
    raised_intact tool name now s (opened-may_fail tool (gate_of s) h)
execute_intact tool (unreported name) now s h = raised_intact tool name now (tool_returned tool s) (
    ran-may_fail tool (gate_of (tool_returned tool s))
      (watch_all-append closed s.events (tool_called tool) ∙ called_runs tool (gate_of s) h))
execute_intact tool returned now s h =
    rw (watch_all-append closed s.events (tool_called tool), called_runs tool (gate_of s) h) refl

on_decision_intact :
    (tool : String) (d : Decision) (o : Outcome) (now : ℕ) (s : State)
    → (d ≡ allow → gate_of s ≡ opened tool)
    → is_intact (gate_of s) ≡ true
    → is_intact (gate_of (on_decision tool d o now s).0) ≡ true
on_decision_intact tool allow o now s h i = execute_intact tool o now s (h refl)
on_decision_intact tool deny o now s h i = emit_intact s (denied tool) refl i
on_decision_intact tool require_approval o now s h i = emit_intact s (awaiting tool) refl i

opened_by :
    (tool : String) (d : Decision) (g : Gate)
    → is_intact g ≡ true
    → d ≡ allow
    → watch g (checked tool d) ≡ opened tool
opened_by tool d g i h = ground arith

act_intact :
    (tool : String) (t : Turn) (s : State)
    → is_intact (gate_of s) ≡ true
    → is_intact (gate_of (act tool t s).0) ≡ true
unfolding act
act_intact tool t s i =
    on_decision_intact tool t.decision t.outcome t.clock (apply_controls t.during entered)
      (λ h.
        rw
          (
            controls_events t.during entered,
            watch_all-append closed s.events (checked tool t.decision),
          )
          (opened_by tool t.decision (gate_of s) i h))
      (rw (controls_events t.during entered) (emit_intact s (checked tool t.decision) refl i))
  where
    entered : State
    entered = record s {
      iteration = s.iteration + 1;
      status = executing;
      events = s.events ++ checked tool t.decision ∷ [];
    }

can_continue_intact :
    (b : Budget) (elapsed : ℕ) (s : State)
    → is_intact (gate_of s) ≡ true
    → is_intact (gate_of (can_continue b elapsed s).0) ≡ true
unfolding can_continue
can_continue_intact b elapsed s i = ground (
  arith,
  emit_intact s was_paused refl i,
  emit_intact s wall_time refl i,
  emit_intact s iteration_limit refl i,
  emit_intact s tool_call_limit refl i,
  emit_intact s token_budget refl i,
  emit_intact s cost_budget refl i,
)

on_guard_intact :
    (tool : String) (t : Turn) (r : State × Bool)
    → is_intact (gate_of r.0) ≡ true
    → is_intact (gate_of (on_guard tool t r).0) ≡ true
on_guard_intact tool t (s, true) i = act_intact tool t s i
on_guard_intact tool t (s, false) i = ground arith

turn_intact :
    (b : Budget) (tool : String) (t : Turn) (s : State)
    → is_intact (gate_of s) ≡ true
    → is_intact (gate_of (turn b tool t s).0) ≡ true
unfolding turn
turn_intact b tool t s i =
    let e = controls_events t.before s in
    let here = apply_controls t.before s in
    let j : is_intact (gate_of here) ≡ true = rw e i in
    ground (
      arith,
      emit_intact here was_paused refl j,
      emit_intact here was_cancelled refl j,
      on_guard_intact tool t (can_continue b t.elapsed here)
          (can_continue_intact b t.elapsed here j),
    )

act_loop_intact :
    (b : Budget) (acts : List (Option String)) (n : ℕ) (env : ℕ → Turn) (s : State)
    → is_intact (gate_of s) ≡ true
    → is_intact (gate_of (act_loop b acts n env s)) ≡ true
unfolding act_loop
act_loop_intact b [] n env s i = i
act_loop_intact b (none ∷ acts) n env s i = act_loop_intact b acts (n + 1) env s i
act_loop_intact b (some tool ∷ acts) n env s i =
    let j = turn_intact b tool (env n) s i in
    let k = act_loop_intact b acts (n + 1) env (turn b tool (env n) s).0 j in
    elim (Bool-cases (turn b tool (env n) s).1) [ inl e ↦ rw e k | inr e ↦ rw e j ]

add_usage_events : (u : Usage) (s : State) → (add_usage u s).events ≡ s.events
unfolding add_usage
add_usage_events u s = ground arith

prepare_intact :
    (p : Plan) (s : State) → is_intact (gate_of s) ≡ true → is_intact (gate_of (prepare p s)) ≡ true
unfolding prepare
prepare_intact p s i =
    let began = emit started (record s { status = planning }) in
    let announced = emit planned began in
    let guarded = announce p.guarded announced in
    emit_intact (charge p.usage guarded) context refl (
      charged p.usage guarded (
        guard_intact p.guarded announced (
          emit_intact began planned refl
            (emit_intact (record s { status = planning }) started refl i))))
  where
    charged :
        (o : Option Usage) (s : State)
        → is_intact (gate_of s) ≡ true
        → is_intact (gate_of (charge o s)) ≡ true
    charged none s i = i
    charged (some u) s i = rw (add_usage_events u s) i

    guard_intact :
        (g : Bool) (s : State)
        → is_intact (gate_of s) ≡ true
        → is_intact (gate_of (announce g s)) ≡ true
    guard_intact true s i = emit_intact s plan_guard refl i
    guard_intact false s i = i

settle_intact :
    (checks : List Check) (s : State)
    → is_intact (gate_of s) ≡ true
    → is_intact (gate_of (settle checks s)) ≡ true
unfolding settle
settle_intact checks s i =
    ground (arith, emit_intact s (verified true) refl i, emit_intact s (verified false) refl i)

run_actions_intact :
    (b : Budget) (checks : List Check) (g : Bool) (acts : List (Option String)) (env : ℕ → Turn)
    (s : State)
    → is_intact (gate_of s) ≡ true
    → is_intact (gate_of (run_actions b checks g acts env s)) ≡ true
run_actions_intact b checks g [] env s i =
    emit_intact (emit (verified false) s) (ended failed) refl
      (emit_intact s (verified false) refl i)
run_actions_intact b checks g (a ∷ acts) env s i =
    let done = settle checks (act_loop b (a ∷ acts) 0 env s) in
    emit_intact done (ended (persist done.status)) refl (
      settle_intact checks (act_loop b (a ∷ acts) 0 env s) (act_loop_intact b (a ∷ acts) 0 env s i))

-- Whatever the plan, the limits, the policy's decisions, the tools and the controls do, in the events of a
-- run that starts fresh every call of a tool comes right after the policy's ALLOW for that tool, one call per
-- ALLOW, and every failure of a call comes right after such an ALLOW or after the event of its call.
pub run_intact :
    (b : Budget) (checks : List Check) (p : Plan) (env : ℕ → Turn)
    → is_intact (watch_all closed (run b checks p env fresh).events) ≡ true
unfolding run watch_all
run_intact b checks p env =
    run_actions_intact b checks p.guarded (actions_of p) env (prepare p fresh)
      (prepare_intact p fresh refl)
