-- ===== src/Planner/Make.antt =====
-- Planner.make_plan: a selected skill, else a validated answer of the model, else a fixed local plan.
-- A digit of an action id is one of ASCII.
use lumi_observatory.Base.{
  ℕ, leb, Bool, not, ◌&&◌, String, List, [], ◌∷◌, Option, none, some, if◌then◌else◌, is_nil,
  is_some, length, all,
}
use lumi_observatory.Base.Text.{codes, starts, is_digit, strip}
use lumi_observatory.Coordinator.State.{Usage}
use lumi_observatory.Coordinator.Run
use lumi_observatory.Planner.Scope.{Text, Net}
use lumi_observatory.Planner.Sanitize.{
  Action, Scope, Settings, Reason, tool_of, sanitize, sorted_reasons, empty_action,
}

-- the reasons in `_plan_guard`
pub data Note : Type 0 where
  dropped : List Reason → Note
  selected_skill_unavailable invalid_llm_plan_fallback : Note

pub record Planned : Type 0 where
  pub actions : List Action
  -- `rejected_action_count` and the reasons
  pub guard : Option (ℕ × Note)
  pub usage : Option Usage

-- a PlanAction as the model proposes it
pub record Proposal : Type 0 where
  pub action_id : Text
  pub action : Action

abbrev pub drop_prefix : Text → Text → Text
drop_prefix [] s = s
drop_prefix (p ∷ ps) [] = []
drop_prefix (p ∷ ps) (c ∷ s) = drop_prefix ps s

-- `^action_\d+$`
unfoldable pub valid_id : Text → Bool
valid_id s =
    starts (codes "action_") s
    && not (is_nil (drop_prefix (codes "action_") s))
    && all is_digit (drop_prefix (codes "action_") s)

abbrev pub valid_proposal : Proposal → Bool
valid_proposal p = valid_id p.action_id && is_some (tool_of p.action.tool)

-- `TaskPlan(**parsed)`: one to twelve actions, each with a numbered id and a known tool
unfoldable pub valid_plan : List Proposal → Bool
valid_plan ps = leb 1 (length ps) && leb (length ps) 12 && all valid_proposal ps

-- What the provider did: there is none, it raised or gave no JSON, it gave no text, or it proposed.
pub data Reply : Type 0 where
  no_provider failed silent : Reply
  proposed : List Proposal → Usage → Reply

abbrev pub guard_of : List Reason → Option (ℕ × Note)
guard_of [] = none
guard_of (r ∷ rs) = some (length (r ∷ rs), dropped (sorted_reasons (r ∷ rs)))

-- the plan of sanitized actions
abbrev pub guarded_plan : List Action × List Reason → Option Usage → Planned
guarded_plan (safe, reasons) usage = record {
  actions = safe;
  guard = guard_of reasons;
  usage = usage;
}

-- `_guarded_empty_plan`
abbrev pub guarded_empty_plan : Note → Planned
guarded_empty_plan note = record { actions = []; guard = some (1, note); usage = none }

-- `_template_plan`: both of its branches plan the same check
abbrev pub template_actions : List Action
template_actions = record empty_action { tool = "internal_health" } ∷ []

abbrev pub template_plan : Option (ℕ × Note) → Planned
template_plan guard = record { actions = template_actions; guard = guard; usage = none }

abbrev pub proposed_actions : List Proposal → List (Option Action)
proposed_actions [] = []
proposed_actions (p ∷ ps) = some p.action ∷ proposed_actions ps

abbrev pub fallback : Planned
fallback = template_plan (some (0, invalid_llm_plan_fallback))

unfoldable pub model_plan : Net → Settings → Scope → Reply → Planned
model_plan net cfg s no_provider = template_plan none
model_plan net cfg s failed = fallback
model_plan net cfg s silent = template_plan none
model_plan net cfg s (proposed ps usage) =
    if valid_plan ps
    then guarded_plan (sanitize net cfg s (proposed_actions ps)) (some usage)
    else fallback

-- the plan of the selected skill, where the registry has it
unfoldable pub skill_plan : Net → Settings → Scope → Option (List (Option Action)) → Planned
skill_plan net cfg s none = guarded_empty_plan selected_skill_unavailable
skill_plan net cfg s (some actions) = guarded_plan (sanitize net cfg s actions) none

-- `skills` is what the registry builds for an id
unfoldable pub make_plan :
    Net → Settings → Scope → (Text → Option (List (Option Action))) → Text → Reply → Planned
make_plan net cfg s skills skill_id reply =
    if is_nil (strip skill_id)
    then model_plan net cfg s reply
    else skill_plan net cfg s (skills (strip skill_id))

abbrev pub tools_of : List Action → List (Option String)
tools_of [] = []
tools_of (a ∷ as_) = some a.tool ∷ tools_of as_

-- the plan as `RunCoordinator.run` reads it
unfoldable pub run_plan : Planned → Run.Plan
run_plan p = record {
  guarded = is_some p.guard;
  usage = p.usage;
  actions = tools_of p.actions;
  tools = [];
}
