-- ===== src/Scheduler/Blocked.antt =====
-- The batch of publish_outbox of apps/scheduler/scheduler.py, when its rows are given up.
use lumi_observatory.Base.{
  ℕ, zero, suc, ltb, Bool, true, false, ◌&&◌, List, [], ◌∷◌, ◌≡◌, refl, if◌then◌else◌, arith, inl,
  inr, Bool-cases,
}
use lumi_observatory.Base.Int.{ℤ}
use lumi_observatory.Scheduler.Outbox.{
  Taking, Message, publish_one, is_sent, publish_rows, batch_limit, publish_outbox,
}
use lumi_observatory.Scheduler.Published.{turn_kept, turn_taken, publish_none, publish_empty}

-- the oldest unprocessed rows, up to a number of them
unfoldable pub oldest : ℕ → List Message → List Message
oldest limit [] = []
oldest zero (m ∷ rest) = []
oldest (suc limit) (m ∷ rest) =
    let kept = oldest (suc limit) rest in
    let next = oldest limit rest in if m.processed then kept else m ∷ next

-- tried more than ten times
unfoldable pub all_dead : List Message → Bool
all_dead [] = true
all_dead (m ∷ rest) = let more = all_dead rest in ltb 10 m.attempts && more

dead_turn :
    (stream : ℕ → Taking) (now : ℤ) (m : Message)
    → ltb 10 m.attempts ≡ true
    → (publish_one stream now m ≡ m) × (is_sent stream now m ≡ false)
dead_turn stream now m h = ground (arith, h)

oldest_kept :
    (limit : ℕ) (m : Message) (rest : List Message)
    → m.processed ≡ true
    → oldest (suc limit) (m ∷ rest) ≡ oldest (suc limit) rest
unfolding oldest
oldest_kept limit m rest e = rw e refl

oldest_taken :
    (limit : ℕ) (m : Message) (rest : List Message)
    → m.processed ≡ false
    → oldest (suc limit) (m ∷ rest) ≡ m ∷ oldest limit rest
unfolding oldest
oldest_taken limit m rest e = ground (arith, e)

all_dead_parts :
    (m : Message) (rest : List Message)
    → all_dead (m ∷ rest) ≡ true
    → (ltb 10 m.attempts ≡ true) × (all_dead rest ≡ true)
unfolding all_dead
all_dead_parts m rest h = ground (arith, h)

blocked_rows :
    (stream : ℕ → Taking) (now : ℤ) (limit : ℕ) (rows : List Message)
    → all_dead (oldest limit rows) ≡ true
    → publish_rows stream now limit rows ≡ (rows, [])
blocked_rows stream now limit [] h = publish_empty stream now limit
blocked_rows stream now zero (m ∷ rest) h = publish_none stream now (m ∷ rest)
blocked_rows stream now (suc limit) (m ∷ rest) h = elim (Bool-cases m.processed) [
  | inl e ↦
      let i = blocked_rows stream now (suc limit) rest (rw (oldest_kept limit m rest e) at h) in
      rw (turn_kept stream now limit m rest e, i) refl
  | inr e ↦
      let (d, g) = all_dead_parts m (oldest limit rest) (rw (oldest_taken limit m rest e) at h) in
      let t = dead_turn stream now m d in
      let i = blocked_rows stream now limit rest g in
      rw (turn_taken stream now limit m rest e, i, t.0, t.1) refl
]

-- While each of the twenty oldest unprocessed rows, or of all where there are fewer, was tried more than ten times,
-- a tick brings nothing to the stream and changes nothing, whatever other rows the table has and whatever the stream
-- would do.
pub publish_outbox_blocked :
    (stream : ℕ → Taking) (commits : Bool) (now : ℤ) (rows : List Message)
    → all_dead (oldest batch_limit rows) ≡ true
    → publish_outbox stream commits now rows ≡ (rows, [])
unfolding publish_outbox
publish_outbox_blocked stream commits now rows h =
    rw (blocked_rows stream now batch_limit rows h) (ground arith)
