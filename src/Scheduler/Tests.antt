-- ===== src/Scheduler/Tests.antt =====
-- The scheduler of apps/scheduler/scheduler.py at concrete tables.
use lumi_observatory.Base.{
  ℕ, zero, suc, ◌+◌, ◌*◌, ◌≤◌, true, false, List, [], ◌∷◌, ◌++◌, ◌≡◌, refl, none, some,
}
use lumi_observatory.Base.Int.{ℤ, pos, ◌+ℤ◌}
use lumi_observatory.Policy.Records.{RunStatus}
use lumi_observatory.Scheduler.Outbox.{
  Taking, takes, Message, batch_limit, publish_rows, publish_outbox,
}
use lumi_observatory.Scheduler.Stuck.{Tables, is_stuck, sweep, sweep_rows, recover_stuck_runs}
use lumi_observatory.Scheduler.Published.{
  Turn, publishes, adds, rows_with, processed_with, times, turn, turns, turns_once,
}
use lumi_observatory.Scheduler.Blocked.{oldest, all_dead, publish_outbox_blocked}
use lumi_observatory.Scheduler.Retries.{
  Happening, ticks, starts, moves, move_run, happen, happen_all, starts_in, allowances,
  happen_all-allowances,
}

abbrev message : ℕ → ℕ → Message
message k attempts = record {
  id = k;
  processed = false;
  attempts = attempts;
  not_before = none;
  processed_at = none;
}

abbrev takes_all : ℕ → Taking
takes_all k = takes

-- the first tick does not commit
abbrev three_ticks : List Turn
three_ticks =
    publishes takes_all false (pos 60)
    ∷ adds (message 2 0)
    ∷ publishes takes_all true (pos 120)
    ∷ publishes takes_all true (pos 180)
    ∷ []

module _ where
  sent_twice :
      ((turns 1 three_ticks (message 1 0 ∷ [])).entries ≡ 2)
      × ((turns 1 three_ticks (message 1 0 ∷ [])).unknowns ≡ 1)
  unfolding turns turn publish_outbox publish_rows times
  sent_twice = (refl, refl)

turns_once_example :
    (turns 1 three_ticks (message 1 0 ∷ [])).entries + processed_with 1 (message 1 0 ∷ [])
    ≤ rows_with 1 (turns 1 three_ticks (message 1 0 ∷ [])).table
      + (turns 1 three_ticks (message 1 0 ∷ [])).unknowns
turns_once_example = turns_once 1 three_ticks (message 1 0 ∷ [])

abbrev given_up : ℕ → List Message
given_up zero = []
given_up (suc n) = message n 11 ∷ given_up n

-- a processed row, twenty that are given up, and a new one
abbrev full_table : List Message
full_table = record (message 40 1) { processed = true } ∷ (given_up 20 ++ message 30 0 ∷ [])

twenty_dead : all_dead (oldest batch_limit full_table) ≡ true
unfolding all_dead oldest
twenty_dead = refl

publish_outbox_blocked_example :
    publish_outbox takes_all true (pos 60) full_table ≡ (full_table, [])
publish_outbox_blocked_example =
    publish_outbox_blocked takes_all true (pos 60) full_table twenty_dead

abbrev no_runs : Tables
no_runs = record { runs = []; retries = []; dead = []; next_id = 1 }

-- a run that is taken and lost five times: three retries, then the dead letters
abbrev lost : ℕ → ℤ → List Happening
lost k now = moves k RunStatus.executing (some (pos 0)) (some (pos 30)) ∷ ticks now ∷ []

abbrev history : List Happening
history =
    starts 7 (pos 0)
    ∷ (lost 1 (pos 100)
        ++ lost 2 (pos 200)
        ++ lost 3 (pos 300)
        ++ lost 4 (pos 400)
        ++ ticks (pos 9000) ∷ [])

module _ where
  four_recovered :
      ((happen_all history no_runs).1 ≡ 4) × ((happen_all history no_runs).0.dead ≡ 4 ∷ [])
  unfolding happen_all happen move_run recover_stuck_runs sweep_rows sweep is_stuck ◌+ℤ◌
  four_recovered = (refl, refl)

happen_all-allowances_example :
    (happen_all history no_runs).1 + allowances (happen_all history no_runs).0.runs
    ≤ allowances no_runs.runs + 4 * starts_in history
happen_all-allowances_example = happen_all-allowances history no_runs
