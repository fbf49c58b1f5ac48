-- ===== src/Planner/Sanitize.antt =====
-- Planner._sanitize_plan_actions: proposed actions outside the task's scope are dropped.
use lumi_observatory.Base.{
  ℕ, ltb, ◌==◌, Bool, not, ◌||◌, String, List, [], ◌∷◌, ◌++◌, Option, none, some, if◌then◌else◌,
  is_nil,
}
use lumi_observatory.Base.Text.{◌=ₛ◌, comma_parts, lower_codes, member, strip}
use lumi_observatory.Planner.Scope.{Text, Net, Url, Member, scope_strings, host_of, preflight_safe}

-- a proposed action: its tool, and `str(arguments.get(name) or "")` of the arguments that the guard reads
pub record Action : Type 0 where
  pub tool : String
  pub url : Text
  pub repo : Text
  pub room : Text

pub record Scope : Type 0 where
  pub allowed_urls : Member
  pub url : Member
  pub github_repos : Member
  pub github_repo : Member
  pub allowed_rooms : Member
  pub room : Member
  pub allow_public_write : Bool

pub record Settings : Type 0 where
  pub default_github_repo : Text
  pub technocore_enabled : Bool
  pub technocore_rooms : List Text
  pub connector_allowed_hosts : String

-- the reason codes
pub data Reason : Type 0 where
  unknown_tool http_target_not_explicitly_scoped http_target_preflight_rejected
        http_host_outside_allowlist :
      Reason
  github_target_not_explicitly_scoped technocore_connector_disabled
        technocore_room_not_explicitly_scoped :
      Reason
  public_write_not_explicitly_scoped : Reason

unfoldable pub allowed_urls_of : Scope → List Text
allowed_urls_of s = scope_strings s.allowed_urls s.url

unfoldable pub allowed_repos_of : Settings → Scope → List Text
allowed_repos_of cfg s =
    let scoped = scope_strings s.github_repos s.github_repo in
    if is_nil cfg.default_github_repo then scoped else strip cfg.default_github_repo ∷ scoped

unfoldable pub allowed_rooms_of : Settings → Scope → List Text
allowed_rooms_of cfg s =
    let scoped = scope_strings s.allowed_rooms s.room in
    if cfg.technocore_enabled then cfg.technocore_rooms ++ scoped else scoped

abbrev pub lower_all : List Text → List Text
lower_all [] = []
lower_all (t ∷ ts) = lower_codes t ∷ lower_all ts

unfoldable pub configured_hosts : Settings → List Text
configured_hosts cfg = lower_all (comma_parts cfg.connector_allowed_hosts)

-- `(urlparse(target).hostname or "").rstrip(".").lower()` of a target that passed the preflight
abbrev pub target_host : Option Url → Text
target_host none = []
target_host (some u) = host_of u

unfoldable pub host_configured : Net → Settings → Text → Bool
host_configured net cfg url =
    is_nil (configured_hosts cfg) || member (target_host (net.parse url)) (configured_hosts cfg)

pub data Tool : Type 0 where
  technocore_read github_repo_read http_json_read internal_health technocore_signed_write
        flop_mcp_read :
      Tool

-- KNOWN_TOOLS: `tool in KNOWN_TOOLS`, and which
unfoldable pub tool_of : String → Option Tool
tool_of t =
    if t =ₛ "technocore_read"
    then some technocore_read
    else if t =ₛ "github_repo_read"
    then some github_repo_read
    else if t =ₛ "http_json_read"
    then some http_json_read
    else if t =ₛ "internal_health"
    then some internal_health
    else if t =ₛ "technocore_signed_write"
    then some technocore_signed_write
    else if t =ₛ "flop_mcp_read"
    then some flop_mcp_read
    else none

-- the cascade on the tool
abbrev pub refusal_at : Net → Settings → Scope → Action → Option Tool → Option Reason
refusal_at net cfg s a none = some unknown_tool
refusal_at net cfg s a (some http_json_read) =
    if not (member a.url (allowed_urls_of s))
    then some http_target_not_explicitly_scoped
    else if not (preflight_safe net a.url)
    then some http_target_preflight_rejected
    else if not (host_configured net cfg a.url)
    then some http_host_outside_allowlist
    else none
refusal_at net cfg s a (some github_repo_read) =
    if not (member a.repo (allowed_repos_of cfg s))
    then some github_target_not_explicitly_scoped
    else none
refusal_at net cfg s a (some technocore_read) =
    if not cfg.technocore_enabled
    then some technocore_connector_disabled
    else if not (member a.room (allowed_rooms_of cfg s))
    then some technocore_room_not_explicitly_scoped
    else none
refusal_at net cfg s a (some technocore_signed_write) =
    if not cfg.technocore_enabled
    then some technocore_connector_disabled
    else if not s.allow_public_write
    then some public_write_not_explicitly_scoped
    else if not (member a.room (allowed_rooms_of cfg s))
    then some technocore_room_not_explicitly_scoped
    else none
refusal_at net cfg s a (some internal_health) = none
refusal_at net cfg s a (some flop_mcp_read) = none

unfoldable pub refusal : Net → Settings → Scope → Action → Option Reason
refusal net cfg s a = refusal_at net cfg s a (tool_of a.tool)

-- an action that is no dict counts as one with no tool
abbrev pub empty_action : Action
empty_action = record { tool = ""; url = []; repo = []; room = [] }

abbrev pub action_of : Option Action → Action
action_of none = empty_action
action_of (some a) = a

-- `safe_actions` and `reasons`
abbrev pub sort_out : Option Reason → Action → List Action × List Reason → List Action × List Reason
sort_out none a (safe, reasons) = (a ∷ safe, reasons)
sort_out (some r) a (safe, reasons) = (safe, r ∷ reasons)

unfoldable pub sanitize : Net → Settings → Scope → List (Option Action) → List Action × List Reason
sanitize net cfg s [] = ([], [])
sanitize net cfg s (raw ∷ rest) =
    sort_out (refusal net cfg s (action_of raw)) (action_of raw) (sanitize net cfg s rest)

-- the place of a reason code in the order of texts
abbrev pub rank : Reason → ℕ
rank github_target_not_explicitly_scoped = 0
rank http_host_outside_allowlist = 1
rank http_target_not_explicitly_scoped = 2
rank http_target_preflight_rejected = 3
rank public_write_not_explicitly_scoped = 4
rank technocore_connector_disabled = 5
rank technocore_room_not_explicitly_scoped = 6
rank unknown_tool = 7

-- `sorted(set(reasons))`
unfoldable pub insert_reason : Reason → List Reason → List Reason
insert_reason r [] = r ∷ []
insert_reason r (x ∷ xs) =
    let rest = insert_reason r xs in
    if rank r == rank x then x ∷ xs else if ltb (rank r) (rank x) then r ∷ x ∷ xs else x ∷ rest

unfoldable pub sorted_reasons : List Reason → List Reason
sorted_reasons [] = []
sorted_reasons (r ∷ rs) = insert_reason r (sorted_reasons rs)
