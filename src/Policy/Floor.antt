-- ===== src/Policy/Floor.antt =====
-- The static map is a floor: it fails closed, and the Jev layer only tightens it.
use lumi_observatory.Base.{
  ℕ, ◌≤◌, true, false, String, [], ◌∷◌, ◌≡◌, refl, ◌⊎◌, Option, none, some, arith, if◌then◌else◌,
}
use lumi_observatory.Base.Text.{◌=ₛ◌, eq_iff, codes, comma_parts, member}
use lumi_observatory.Policy.Engine.{
  ActionClass, read_only, safe_write, Decision, allow, require_approval, deny, PolicyDecision,
  tool_to_action, Overrides, override_of, set_override, decide_class, decide_from, decide,
  JevResult, Settings, is_allow, intent_is, tighten, on_answer, decide_async,
}

-- how strict a decision is
abbrev pub strictness : Decision → ℕ
strictness allow = 0
strictness require_approval = 1
strictness deny = 2

tighten_only :
    (cfg : Settings) (base : PolicyDecision) (jev : Option JevResult)
    → is_allow base.decision ≡ true
    → strictness base.decision ≤ strictness (on_answer cfg base jev).decision
unfolding tighten
tighten_only cfg base jev h = ground arith

-- Whatever the settings, the overrides and the Jev answer, the final decision is at least as strict as
-- the static one, it is about the same action class, and without an answer, or for a tool that is not
-- watched, it is the static one.
pub decide_async_tightens :
    (cfg : Settings) (overrides : Overrides) (jev : Option JevResult) (tool : String)
    → (strictness (decide overrides tool).decision
        ≤ strictness (decide_async cfg overrides jev tool).decision)
      × ((decide_async cfg overrides jev tool).action_class ≡ (decide overrides tool).action_class)
      × (decide_async cfg overrides none tool ≡ decide overrides tool)
      × (member (codes tool) (comma_parts cfg.jev_tools) ≡ false
          → decide_async cfg overrides jev tool ≡ decide overrides tool)
unfolding decide_async tighten
decide_async_tightens cfg overrides jev tool = ground arith

-- A watched tool whose call is judged abusive with enough confidence is denied unless the static map
-- already asks for approval, and then it is not allowed either.
pub abusive_not_allowed :
    (cfg : Settings) (overrides : Overrides) (j : JevResult) (tool : String)
    → cfg.jev_enabled ≡ true
    → member (codes tool) (comma_parts cfg.jev_tools) ≡ true
    → intent_is j "abusive" ≡ true
    → cfg.review ≤ j.confidence
    → ((decide_async cfg overrides (some j) tool).decision ≡ deny)
      ⊎ (((decide overrides tool).decision ≡ require_approval)
          × ((decide_async cfg overrides (some j) tool).decision ≡ require_approval))
unfolding decide_async tighten
abusive_not_allowed cfg overrides j tool a b c d = ground arith

allowed_class :
    (c : Option ActionClass)
    → (decide_from none c).decision ≡ allow
    → (c ≡ some read_only) ⊎ (c ≡ some safe_write)
unfolding decide_class
allowed_class c h = ground arith

-- Without an override a tool is allowed exactly when it is registered as a read or as a write to the
-- agent's own database; every other tool, an unknown one included, is denied or needs an approval.
pub decide_allows_iff :
    (overrides : Overrides) (tool : String)
    → override_of tool overrides ≡ none
    → ((decide overrides tool).decision ≡ allow
        → (tool_to_action tool ≡ some read_only) ⊎ (tool_to_action tool ≡ some safe_write))
      × ((tool_to_action tool ≡ some read_only) ⊎ (tool_to_action tool ≡ some safe_write)
          → (decide overrides tool).decision ≡ allow)
      × (tool_to_action tool ≡ none → (decide overrides tool).decision ≡ deny)
unfolding decide decide_class
decide_allows_iff overrides tool h =
    (λ a. allowed_class (tool_to_action tool) (rw h at a), λ a. ground arith, λ a. rw (h, a))

-- Setting an override decides its own tool and no other.
pub decide-set_override :
    (overrides : Overrides) (tool other : String) (d : Decision)
    → override_of other (set_override tool d overrides)
      ≡ (if tool =ₛ other then some d else override_of other overrides)
unfolding override_of set_override
decide-set_override [] tool other d = refl
decide-set_override ((t, e) ∷ rest) tool other d =
    ground (
      arith,
      eq_iff t tool,
      eq_iff t other,
      eq_iff tool other,
      decide-set_override rest tool other d,
    )
