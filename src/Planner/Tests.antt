-- ===== src/Planner/Tests.antt =====
-- Plans from skills and from the model, and the theorems at them.
use lumi_observatory.Base.{ℕ, true, false, List, [], ◌∷◌, ◌≡◌, refl, Option, none, some}
use lumi_observatory.Base.Int.{pos}
use lumi_observatory.Base.Text.{codes}
use lumi_observatory.Coordinator.State.{allow, Budget, Usage, absent, number}
use lumi_observatory.Coordinator.Turn.{Turn, returned}
use lumi_observatory.Planner.Scope.{
  Text, Net, port, many, one, scope_strings, rstrip_dot, host_of, is_local_name, allowed_port,
  web_scheme, preflight_safe,
}
use lumi_observatory.Planner.Sanitize.{
  Action, Scope, Settings, Reason, empty_action, tool_of, allowed_urls_of, configured_hosts,
  host_configured, refusal, sanitize, insert_reason, sorted_reasons,
}
use lumi_observatory.Planner.Make.{
  Note, dropped, Proposal, proposed, no_provider, valid_id, valid_plan, model_plan, skill_plan,
  make_plan,
}
use lumi_observatory.Planner.Kept.{AllInScope, make_plan-AllInScope}

abbrev site : Text
site = codes "https://api.test/a"

-- the site on its usual port, and no address literals
abbrev net : Net
net = record {
  parse = λ u. some (record {
    scheme = codes "https";
    hostname = codes "API.test.";
    userinfo = false;
    url_port = port 443;
  });
  address = λ h. none;
}

abbrev settings : Settings
settings = record {
  default_github_repo = [];
  technocore_enabled = false;
  technocore_rooms = [];
  connector_allowed_hosts = "api.test";
}

abbrev scope : Scope
scope = record {
  allowed_urls = many (some (codes " https://api.test/a ") ∷ none ∷ []);
  url = one none;
  github_repos = many [];
  github_repo = one none;
  allowed_rooms = many [];
  room = one none;
  allow_public_write = false;
}

abbrev no_skills : Text → Option (List (Option Action))
no_skills name = none

-- a scoped fetch, and a read of a room
abbrev proposal : List Proposal
proposal =
    record {
      action_id = codes "action_1";
      action = record empty_action { tool = "http_json_read"; url = site };
    }
    ∷ record {
      action_id = codes "action_2";
      action = record empty_action { tool = "technocore_read" };
    }
    ∷ []

abbrev usage : Usage
usage = record {
  prompt_tokens = absent;
  completion_tokens = absent;
  total_tokens = number (pos 7);
  cost = absent;
}

abbrev five : Budget
five = record {
  max_iterations = 5;
  max_tool_calls = 5;
  max_wall_seconds = 60;
  max_tokens = pos 1000;
  max_cost = pos 1000;
}

abbrev fine : ℕ → Turn
fine n = record {
  pause_check = false;
  stop_check = false;
  before = [];
  elapsed = 1;
  decision = allow;
  during = [];
  outcome = returned;
  clock = 1;
}

module _ where
  one_kept : make_plan net settings scope no_skills [] (proposed proposal usage) ≡ record {
    actions = record empty_action { tool = "http_json_read"; url = site } ∷ [];
    guard = some (1, dropped (Reason.technocore_connector_disabled ∷ []));
    usage = some usage;
  }
  unfolding make_plan model_plan valid_plan valid_id tool_of sanitize refusal allowed_urls_of
      scope_strings preflight_safe web_scheme host_of rstrip_dot is_local_name allowed_port
      host_configured configured_hosts sorted_reasons insert_reason
  one_kept = refl

  two_valid : valid_plan proposal ≡ true
  unfolding valid_plan valid_id tool_of
  two_valid = refl

  no_skill :
      (make_plan net settings scope no_skills (codes "weather") no_provider).guard
      ≡ some (1, Note.selected_skill_unavailable)
  unfolding make_plan skill_plan
  no_skill = refl

make_plan-AllInScope_example :
    AllInScope net settings scope
      (make_plan net settings scope no_skills [] (proposed proposal usage)).actions
make_plan-AllInScope_example =
    make_plan-AllInScope net settings scope no_skills [] (proposed proposal usage)
