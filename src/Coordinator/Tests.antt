-- ===== src/Coordinator/Tests.antt =====
-- Runs of the coordinator, and its theorems at concrete inputs.
use lumi_observatory.Base.{ℕ, zero, suc, true, false, [], ◌∷◌, ◌≡◌, refl, none, some}
use lumi_observatory.Base.Int.{pos}
use lumi_observatory.Coordinator.State.{
  completed, failed, allow, deny, no_code, Budget, fresh, apply_controls, can_continue,
}
use lumi_observatory.Coordinator.Verifier.{
  default_checks, verify, all_pass, evidence_check, has_ok, has_err,
}
use lumi_observatory.Coordinator.Turn.{Turn, returned, act, turn}
use lumi_observatory.Coordinator.Run.{Plan, act_loop, settle, prepare, actions_of, run}
use lumi_observatory.Coordinator.Gate.{closed, watch_all, is_intact, run_intact}
use lumi_observatory.Coordinator.Counted.{IsLimited, IsCounted, run-IsLimited}
use lumi_observatory.Coordinator.Complete.{successes, run_completed}
use lumi_observatory.Coordinator.Verdict.{Concluded, run-Concluded}

abbrev five : Budget
five = record {
  max_iterations = 5;
  max_tool_calls = 5;
  max_wall_seconds = 60;
  max_tokens = pos 1000;
  max_cost = pos 1000;
}

abbrev fine : Turn
fine = record {
  pause_check = false;
  stop_check = false;
  before = [];
  elapsed = 1;
  decision = allow;
  during = [];
  outcome = returned;
  clock = 1;
}

abbrev two_reads : Plan
two_reads = record {
  guarded = false;
  usage = none;
  actions = some "http_json_read" ∷ none ∷ some "technocore_read" ∷ [];
  tools = [];
}

-- the second of the two reads is denied
abbrev second_denied : ℕ → Turn
second_denied zero = fine
second_denied (suc n) = record fine { decision = deny }

module _ where
  completes : (run five default_checks two_reads (λ n. fine) fresh).status ≡ completed
  unfolding run prepare act_loop turn can_continue act apply_controls settle verify all_pass
      evidence_check has_ok has_err
  completes = refl

  denied_fails : (run five default_checks two_reads second_denied fresh).status ≡ failed
  unfolding run prepare act_loop turn can_continue act apply_controls settle verify all_pass
      evidence_check has_ok has_err
  denied_fails = refl

run_intact_example :
    is_intact (watch_all closed (run five default_checks two_reads second_denied fresh).events)
    ≡ true
run_intact_example = run_intact five default_checks two_reads second_denied

run-IsLimited_example :
    IsLimited five (run five default_checks two_reads second_denied fresh)
    × IsCounted (run five default_checks two_reads second_denied fresh)
run-IsLimited_example = run-IsLimited five default_checks two_reads second_denied

run_completed_example :
    ((run five default_checks two_reads (λ n. fine) fresh).executed
      ≡ successes (actions_of two_reads))
    × (verify default_checks (successes (actions_of two_reads)) ≡ true)
    × ((run five default_checks two_reads (λ n. fine) fresh).failure_code ≡ no_code)
run_completed_example = run_completed five default_checks two_reads (λ n. fine) completes

run-Concluded_example : Concluded (run five default_checks two_reads second_denied fresh)
run-Concluded_example = run-Concluded five default_checks two_reads second_denied
