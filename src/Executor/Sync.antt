-- ===== src/Executor/Sync.antt =====
-- The tools of the planner, the registry and the policy are the same.
use lumi_observatory.Base.{true, String, is_some, ◌≡◌, arith}
use lumi_observatory.Base.Text.{◌=ₛ◌, eq_iff}
use lumi_observatory.Policy.Engine.{tool_to_action}
use lumi_observatory.Planner.Sanitize.{tool_of}
use lumi_observatory.Executor.Registry.{register, schema_of, registered, default_registry}

str_eq_sym : (s t : String) → (s =ₛ t) ≡ (t =ₛ s)
str_eq_sym s t = ground (arith, eq_iff s t, eq_iff t s)

-- The tools that the planner knows are the registered ones, and the policy has an action class for each of them.
pub known-registered :
    (t : String)
    → (is_some (tool_of t) ≡ registered t default_registry)
      × (registered t default_registry ≡ true → is_some (tool_to_action t) ≡ true)
unfolding tool_of registered schema_of default_registry register tool_to_action
known-registered t = ground (
  arith,
  str_eq_sym "http_json_read" t,
  str_eq_sym "github_repo_read" t,
  str_eq_sym "internal_health" t,
  str_eq_sym "flop_mcp_read" t,
  str_eq_sym "technocore_read" t,
  str_eq_sym "technocore_signed_write" t,
)
