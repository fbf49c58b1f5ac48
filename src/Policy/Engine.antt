-- ===== src/Policy/Engine.antt =====
-- packages/policy/engine.py: the static map of tools, and the Jev layer above it. The probabilities of
-- a Jev answer are only compared, so they are given as numbers over a common denominator.
use lumi_observatory.Base.{
  ℕ, ltb, leb, Bool, true, false, not, ◌&&◌, ◌||◌, String, List, [], ◌∷◌, Option, none, some,
  if◌then◌else◌,
}
use lumi_observatory.Base.Text.{◌=ₛ◌, codes, codes_eq, lower_codes, comma_parts, member}

-- ActionClass of packages/observability/models.py
pub data ActionClass : Type 0 where
  read_only safe_write public_write privileged_host destructive : ActionClass

pub data Decision : Type 0 where
  allow require_approval deny : Decision

pub data Reason : Type 0 where
  override unknown_tool phase_approval host_change public_post own_write automatic : Reason
  jev_abusive jev_suspicious jev_out_of_scope jev_ok : Reason

pub record PolicyDecision : Type 0 where
  pub action_class : ActionClass
  pub decision : Decision
  pub reason : Reason

abbrev decided : ActionClass → Decision → Reason → PolicyDecision
decided c d r = record { action_class = c; decision = d; reason = r }

-- TOOL_TO_ACTION
unfoldable pub tool_to_action : String → Option ActionClass
tool_to_action tool =
    if tool =ₛ "technocore_read"
    then some read_only
    else if tool =ₛ "github_repo_read"
    then some read_only
    else if tool =ₛ "http_json_read"
    then some read_only
    else if tool =ₛ "internal_health"
    then some read_only
    else if tool =ₛ "flop_mcp_read"
    then some read_only
    else if tool =ₛ "technocore_signed_write"
    then some public_write
    else if tool =ₛ "db_self_write"
    then some safe_write
    else if tool =ₛ "apply_privileged"
    then some privileged_host
    else if tool =ₛ "destructive_op"
    then some destructive
    else none

-- `_GATED`
abbrev pub is_gated : ActionClass → Bool
is_gated public_write = true
is_gated privileged_host = true
is_gated destructive = true
is_gated _ = false

-- `_overrides`, a dict
abbrev pub Overrides : Type 0
Overrides = List (String × Decision)

unfoldable pub override_of : String → Overrides → Option Decision
override_of tool [] = none
override_of tool ((t, d) ∷ rest) = if t =ₛ tool then some d else override_of tool rest

unfoldable pub set_override : String → Decision → Overrides → Overrides
set_override tool d [] = (tool, d) ∷ []
set_override tool d ((t, e) ∷ rest) =
    if t =ₛ tool then (t, d) ∷ rest else (t, e) ∷ set_override tool d rest

-- the cascade on the action class
unfoldable pub decide_class : ActionClass → PolicyDecision
decide_class destructive = decided destructive deny phase_approval
decide_class privileged_host = decided privileged_host require_approval host_change
decide_class public_write = decided public_write require_approval public_post
decide_class safe_write = decided safe_write allow own_write
decide_class read_only = decided read_only allow automatic

abbrev pub decide_registered : Option ActionClass → PolicyDecision
decide_registered none = decided destructive deny unknown_tool
decide_registered (some c) = decide_class c

abbrev pub decide_from : Option Decision → Option ActionClass → PolicyDecision
decide_from (some d) c = decided read_only d override
decide_from none c = decide_registered c

unfoldable pub decide : Overrides → String → PolicyDecision
decide overrides tool = decide_from (override_of tool overrides) (tool_to_action tool)

-- What `jev.evaluate` answers to the two questions: `prob("within_scope")` and `choice("intent")`.
pub record JevResult : Type 0 where
  pub within : ℕ
  pub intent : List ℕ
  pub confidence : ℕ

pub record Settings : Type 0 where
  pub jev_enabled : Bool
  pub jev_tools : String
  pub review : ℕ

abbrev pub is_allow : Decision → Bool
is_allow allow = true
is_allow _ = false

abbrev pub intent_is : JevResult → String → Bool
intent_is j name = codes_eq (lower_codes j.intent) (codes name)

-- the decision on an answer, strictest first
unfoldable pub tighten : Settings → PolicyDecision → JevResult → PolicyDecision
tighten cfg base j =
    if intent_is j "abusive" && leb cfg.review j.confidence
    then decided base.action_class deny jev_abusive
    else if intent_is j "suspicious" && leb cfg.review j.confidence
    then decided base.action_class require_approval jev_suspicious
    else if ltb j.within cfg.review
    then decided base.action_class require_approval jev_out_of_scope
    else decided base.action_class allow jev_ok

abbrev pub on_answer : Settings → PolicyDecision → Option JevResult → PolicyDecision
on_answer cfg base none = base
on_answer cfg base (some j) = tighten cfg base j

-- `none` where `evaluate` raises `JevUnavailable`
unfoldable pub decide_async : Settings → Overrides → Option JevResult → String → PolicyDecision
decide_async cfg overrides jev tool =
    let base = decide overrides tool in
    if not (is_allow base.decision) || not cfg.jev_enabled
    then base
    else if not (member (codes tool) (comma_parts cfg.jev_tools))
    then base
    else on_answer cfg base jev
