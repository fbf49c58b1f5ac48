-- ===== src/Scheduler/Outbox.antt =====
-- SchedulerLoop.publish_outbox of apps/scheduler/scheduler.py. The table is in the order of created_at. What the
-- stream does with a message is a parameter, by the message's id; times are in seconds.
use lumi_observatory.Base.{
  ℕ, zero, suc, ltb, Bool, true, false, not, ◌&&◌, ◌||◌, List, [], ◌∷◌, Option, none, some,
  if◌then◌else◌,
}
use lumi_observatory.Base.Int.{ℤ, ltb_ℤ}

pub record Message : Type 0 where
  pub id : ℕ
  pub processed : Bool
  pub attempts : ℕ
  pub not_before : Option ℤ
  pub processed_at : Option ℤ

-- `.limit(20)`
abbrev pub batch_limit : ℕ
batch_limit = 20

abbrev pub is_early : Option ℤ → ℤ → Bool
is_early none now = false
is_early (some t) now = ltb_ℤ now t

-- the two guards that skip a selected message
abbrev pub is_skipped : ℤ → Message → Bool
is_skipped now m = ltb 10 m.attempts || is_early m.not_before now

-- what XADD does with a message: it takes it, it takes it and the call raises, or it only raises
pub data Taking : Type 0 where
  takes raises_late raises : Taking

abbrev pub reaches : Taking → Bool
reaches raises = false
reaches _ = true

abbrev pub publish_taken : Taking → ℤ → Message → Message
publish_taken takes now m = record m {
  processed = true;
  processed_at = some now;
  attempts = suc m.attempts;
}
publish_taken _ now m = record m { attempts = suc m.attempts }

-- a selected message after its turn
abbrev pub publish_one : (ℕ → Taking) → ℤ → Message → Message
publish_one stream now m = if is_skipped now m then m else publish_taken (stream m.id) now m

-- whether the turn brings it to the stream
abbrev pub is_sent : (ℕ → Taking) → ℤ → Message → Bool
is_sent stream now m = not (is_skipped now m) && reaches (stream m.id)

abbrev pub add_sent : Bool → ℕ → List ℕ → List ℕ
add_sent true k sent = k ∷ sent
add_sent false k sent = sent

-- the first `limit` unprocessed messages in their order, and the ids that reached the stream
unfoldable pub publish_rows : (ℕ → Taking) → ℤ → ℕ → List Message → List Message × List ℕ
publish_rows stream now limit [] = ([], [])
publish_rows stream now zero (m ∷ rest) = (m ∷ rest, [])
publish_rows stream now (suc limit) (m ∷ rest) =
    let kept = publish_rows stream now (suc limit) rest in
    let next = publish_rows stream now limit rest in
    if m.processed
    then (m ∷ kept.0, kept.1)
    else (publish_one stream now m ∷ next.0, add_sent (is_sent stream now m) m.id next.1)

-- the tick; without the commit, or where the process ends before it, the table stays and the entries do too
unfoldable pub publish_outbox : (ℕ → Taking) → Bool → ℤ → List Message → List Message × List ℕ
publish_outbox stream commits now rows =
    let batch = publish_rows stream now batch_limit rows in
    (if commits then batch.0 else rows, batch.1)
