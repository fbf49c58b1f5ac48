-- ===== src/Planner/Kept.antt =====
-- What `_sanitize_plan_actions` keeps is in scope, and what it drops is counted.
use lumi_observatory.Base.{
  ℕ, suc, ◌+◌, true, List, [], ◌∷◌, ◌≡◌, refl, ap, Option, none, some, arith, length, All, is_some,
  is_nil, Bool-cases, Option-cases, ◌≤◌, inl, inr,
}
use lumi_observatory.Base.Text.{member, strip}
use lumi_observatory.Planner.Scope.{Text, Net, preflight_safe}
use lumi_observatory.Planner.Sanitize.{
  Action, Scope, Settings, Reason, allowed_urls_of, allowed_repos_of, allowed_rooms_of,
  host_configured, Tool, http_json_read, github_repo_read, technocore_read, technocore_signed_write,
  internal_health, empty_action, tool_of, refusal_at, refusal, action_of, sanitize,
}
use lumi_observatory.Coordinator.State.{Usage}
use lumi_observatory.Planner.Make.{
  Note, Proposal, Reply, no_provider, failed, silent, proposed, valid_plan, proposed_actions,
  template_actions, skill_plan, model_plan, make_plan, guard_of,
}

-- An action is in scope: its tool is known, and the target that its tool reaches was named by the task, is
-- safe to fetch and on a configured host, or is a named repository or room of an enabled connector; a write
-- also needs the task's consent.
pub record InScope (net : Net) (cfg : Settings) (s : Scope) (a : Action) (k : Option Tool)
    : Type 0 where
  pub known : is_some k ≡ true
  pub fetched :
      k ≡ some http_json_read
      → (member a.url (allowed_urls_of s) ≡ true)
        × (preflight_safe net a.url ≡ true)
        × (host_configured net cfg a.url ≡ true)
  pub repository : k ≡ some github_repo_read → member a.repo (allowed_repos_of cfg s) ≡ true
  pub read :
      k ≡ some technocore_read
      → (cfg.technocore_enabled ≡ true) × (member a.room (allowed_rooms_of cfg s) ≡ true)
  pub written :
      k ≡ some technocore_signed_write
      → (cfg.technocore_enabled ≡ true)
        × (s.allow_public_write ≡ true)
        × (member a.room (allowed_rooms_of cfg s) ≡ true)

refusal_at-InScope :
    (net : Net) (cfg : Settings) (s : Scope) (a : Action) (k : Option Tool)
    → refusal_at net cfg s a k ≡ none
    → InScope net cfg s a k
refusal_at-InScope net cfg s a k h = record {
  known = ground arith;
  fetched = λ e. ground arith;
  repository = λ e. ground arith;
  read = λ e. ground arith;
  written = λ e. ground arith;
}

refusal-InScope :
    (net : Net) (cfg : Settings) (s : Scope) (a : Action)
    → refusal net cfg s a ≡ none
    → InScope net cfg s a (tool_of a.tool)
unfolding refusal
refusal-InScope net cfg s a h = refusal_at-InScope net cfg s a (tool_of a.tool) h

abbrev pub AllInScope : Net → Settings → Scope → List Action → Type 0
AllInScope net cfg s = All (λ a. InScope net cfg s a (tool_of a.tool))

-- kept and dropped actions are all the proposed ones
sanitize_counts :
    (net : Net) (cfg : Settings) (s : Scope) (raws : List (Option Action))
    → length (sanitize net cfg s raws).0 + length (sanitize net cfg s raws).1 ≡ length raws
unfolding sanitize
sanitize_counts net cfg s [] = refl
sanitize_counts net cfg s (raw ∷ raws) =
    let ih = sanitize_counts net cfg s raws in
    elim (Option-cases (refusal net cfg s (action_of raw))) [
      | inl e ↦ rw e (omega (arith, ih))
      | inr (r, e) ↦ rw e (omega (arith, ih))
    ]

sanitize-AllInScope :
    (net : Net) (cfg : Settings) (s : Scope) (raws : List (Option Action))
    → AllInScope net cfg s (sanitize net cfg s raws).0
unfolding sanitize
sanitize-AllInScope net cfg s [] = tt
sanitize-AllInScope net cfg s (raw ∷ raws) =
    let ih = sanitize-AllInScope net cfg s raws in
    elim (Option-cases (refusal net cfg s (action_of raw))) [
      | inl e ↦ rw e (refusal-InScope net cfg s (action_of raw) e, ih)
      | inr (r, e) ↦ rw e ih
    ]

template-AllInScope :
    (net : Net) (cfg : Settings) (s : Scope) → AllInScope net cfg s template_actions
unfolding tool_of
template-AllInScope net cfg s = (
  refusal_at-InScope net cfg s (record empty_action { tool = "internal_health" })
      (some internal_health) refl,
  tt,
)

skill_plan-AllInScope :
    (net : Net) (cfg : Settings) (s : Scope) (o : Option (List (Option Action)))
    → AllInScope net cfg s (skill_plan net cfg s o).actions
unfolding skill_plan
skill_plan-AllInScope net cfg s none = tt
skill_plan-AllInScope net cfg s (some raws) = sanitize-AllInScope net cfg s raws

model_plan-AllInScope :
    (net : Net) (cfg : Settings) (s : Scope) (r : Reply)
    → AllInScope net cfg s (model_plan net cfg s r).actions
unfolding model_plan
model_plan-AllInScope net cfg s no_provider = template-AllInScope net cfg s
model_plan-AllInScope net cfg s failed = template-AllInScope net cfg s
model_plan-AllInScope net cfg s silent = template-AllInScope net cfg s
model_plan-AllInScope net cfg s (proposed ps usage) = elim (Bool-cases (valid_plan ps)) [
  | inl e ↦ rw e (sanitize-AllInScope net cfg s (proposed_actions ps))
  | inr e ↦ rw e (template-AllInScope net cfg s)
]

-- Whatever a skill or the model proposes, every action of the plan that `make_plan` returns is in scope.
pub make_plan-AllInScope :
    (net : Net) (cfg : Settings) (s : Scope) (skills : Text → Option (List (Option Action)))
    (skill_id : Text) (reply : Reply)
    → AllInScope net cfg s (make_plan net cfg s skills skill_id reply).actions
unfolding make_plan
make_plan-AllInScope net cfg s skills skill_id reply = elim (Bool-cases (is_nil (strip skill_id))) [
  | inl e ↦ rw e (model_plan-AllInScope net cfg s reply)
  | inr e ↦ rw e (skill_plan-AllInScope net cfg s (skills (strip skill_id)))
]

unfoldable pub rejected_count : Option (ℕ × Note) → ℕ
rejected_count none = 0
rejected_count (some g) = g.0

rejected_guard : (rs : List Reason) → rejected_count (guard_of rs) ≡ length rs
unfolding rejected_count
rejected_guard [] = refl
rejected_guard (r ∷ rs) = refl

length-proposed_actions : (ps : List Proposal) → length (proposed_actions ps) ≡ length ps
length-proposed_actions [] = refl
length-proposed_actions (p ∷ ps) = ap suc (length-proposed_actions ps)

plan_size : (ps : List Proposal) → valid_plan ps ≡ true → (1 ≤ length ps) × (length ps ≤ 12)
unfolding valid_plan
plan_size ps h = ground arith

-- For a proposal of the model that is a valid plan, the actions of the returned plan and its count of
-- rejected ones add up to the proposed ones, which are one to twelve.
pub model_plan_counts :
    (net : Net) (cfg : Settings) (s : Scope) (ps : List Proposal) (usage : Usage)
    → valid_plan ps ≡ true
    → (length (model_plan net cfg s (proposed ps usage)).actions
          + rejected_count (model_plan net cfg s (proposed ps usage)).guard
        ≡ length ps)
      × (1 ≤ length ps)
      × (length ps ≤ 12)
unfolding model_plan
model_plan_counts net cfg s ps usage h =
    let kept = sanitize net cfg s (proposed_actions ps) in
    let c = sanitize_counts net cfg s (proposed_actions ps) in
    let l = length-proposed_actions ps in
    let z = plan_size ps h in rw h (omega (arith, rejected_guard kept.1, c, l), z.0, z.1)
