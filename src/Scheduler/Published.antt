-- ===== src/Scheduler/Published.antt =====
-- What reaches the stream through publish_outbox of apps/scheduler/scheduler.py.
use lumi_observatory.Base.{
  ℕ, zero, suc, ◌+◌, ◌≤◌, ◌==◌, Bool, true, false, ◌&&◌, List, [], ◌∷◌, ◌++◌, ◌≡◌, refl,
  if◌then◌else◌, arith, inl, inr, Bool-cases,
}
use lumi_observatory.Base.Int.{ℤ}
use lumi_observatory.Scheduler.Outbox.{
  Taking, raises_late, Message, publish_one, is_sent, add_sent, publish_rows, batch_limit,
  publish_outbox,
}

abbrev one_if : Bool → ℕ
one_if b = if b then 1 else 0

-- how often an id occurs
unfoldable pub times : ℕ → List ℕ → ℕ
times k [] = 0
times k (a ∷ rest) = let n = times k rest in one_if (a == k) + n

-- the rows with the id, and those of them that are processed
unfoldable pub rows_with : ℕ → List Message → ℕ
rows_with k [] = 0
rows_with k (m ∷ rest) = let n = rows_with k rest in one_if (m.id == k) + n

unfoldable pub processed_with : ℕ → List Message → ℕ
processed_with k [] = 0
processed_with k (m ∷ rest) = let n = processed_with k rest in one_if (m.processed && m.id == k) + n

times-add_sent :
    (k : ℕ) (b : Bool) (a : ℕ) (sent : List ℕ)
    → times k (add_sent b a sent) ≡ one_if (b && a == k) + times k sent
unfolding times
times-add_sent k true a sent = omega arith
times-add_sent k false a sent = omega arith

-- 1 for a send whose row is not marked with it
abbrev pub is_late : Taking → Bool
is_late raises_late = true
is_late _ = false

abbrev pub late_of : Taking → ℕ → ℕ
late_of t n = if is_late t then n else 0

publish_one-processed :
    (k : ℕ) (stream : ℕ → Taking) (now : ℤ) (m : Message)
    → m.processed ≡ false
    → one_if (is_sent stream now m && m.id == k)
      ≤ one_if ((publish_one stream now m).processed && (publish_one stream now m).id == k)
        + late_of (stream k) (one_if (is_sent stream now m && m.id == k))
publish_one-processed k stream now m h = elim (Bool-cases (m.id == k)) [
  | inl e ↦ let q : m.id ≡ k = ground (arith, e) in rw q (ground (arith, h))
  | inr e ↦ ground (arith, h, e)
]

late_add : (t : Taking) (a b : ℕ) → late_of t (a + b) ≡ late_of t a + late_of t b
late_add t a b = ground arith

publish_one-id :
    (stream : ℕ → Taking) (now : ℤ) (m : Message) → (publish_one stream now m).id ≡ m.id
publish_one-id stream now m = ground arith

module _ (stream : ℕ → Taking) (now : ℤ) (limit : ℕ) (m : Message) (rest : List Message) where
  pub turn_kept :
      m.processed ≡ true
      → publish_rows stream now (suc limit) (m ∷ rest) ≡ (
        m ∷ (publish_rows stream now (suc limit) rest).0,
        (publish_rows stream now (suc limit) rest).1,
      )
  unfolding publish_rows
  turn_kept e = rw e refl

  pub turn_taken :
      m.processed ≡ false
      → publish_rows stream now (suc limit) (m ∷ rest) ≡ (
        publish_one stream now m ∷ (publish_rows stream now limit rest).0,
        add_sent (is_sent stream now m) m.id (publish_rows stream now limit rest).1,
      )
  unfolding publish_rows
  turn_taken e = ground (arith, e)

pub publish_none :
    (stream : ℕ → Taking) (now : ℤ) (rows : List Message)
    → publish_rows stream now 0 rows ≡ (rows, [])
unfolding publish_rows
publish_none stream now [] = refl
publish_none stream now (m ∷ rest) = refl

pub publish_empty :
    (stream : ℕ → Taking) (now : ℤ) (limit : ℕ) → publish_rows stream now limit [] ≡ ([], [])
unfolding publish_rows
publish_empty stream now zero = refl
publish_empty stream now (suc limit) = refl

publish_rows-rows_with :
    (k : ℕ) (stream : ℕ → Taking) (now : ℤ) (limit : ℕ) (rows : List Message)
    → rows_with k (publish_rows stream now limit rows).0 ≡ rows_with k rows
unfolding rows_with
publish_rows-rows_with k stream now limit [] = rw (publish_empty stream now limit) refl
publish_rows-rows_with k stream now zero (m ∷ rest) = rw (publish_none stream now (m ∷ rest)) refl
publish_rows-rows_with k stream now (suc limit) (m ∷ rest) = elim (Bool-cases m.processed) [
  | inl e ↦
      let h = publish_rows-rows_with k stream now (suc limit) rest in
      rw (turn_kept stream now limit m rest e) (omega (arith, h))
  | inr e ↦
      let h = publish_rows-rows_with k stream now limit rest in
      let i = publish_one-id stream now m in
      rw (turn_taken stream now limit m rest e, i) (omega (arith, h))
]

publish_rows-processed_with :
    (k : ℕ) (stream : ℕ → Taking) (now : ℤ) (limit : ℕ) (rows : List Message)
    → times k (publish_rows stream now limit rows).1 + processed_with k rows
      ≤ processed_with k (publish_rows stream now limit rows).0
        + late_of (stream k) (times k (publish_rows stream now limit rows).1)
unfolding processed_with times
publish_rows-processed_with k stream now limit [] =
    rw (publish_empty stream now limit) (omega arith)
publish_rows-processed_with k stream now zero (m ∷ rest) =
    rw (publish_none stream now (m ∷ rest)) (omega arith)
publish_rows-processed_with k stream now (suc limit) (m ∷ rest) = elim (Bool-cases m.processed) [
  | inl e ↦
      let h = publish_rows-processed_with k stream now (suc limit) rest in
      rw (turn_kept stream now limit m rest e) (omega (arith, h))
  | inr e ↦
      let h = publish_rows-processed_with k stream now limit rest in
      let t = times-add_sent k (is_sent stream now m) m.id (publish_rows stream now limit rest).1 in
      let p = publish_one-processed k stream now m e in
      let a =
        late_add (stream k) (one_if (is_sent stream now m && m.id == k))
          (times k (publish_rows stream now limit rest).1) in
      let z : one_if (m.processed && m.id == k) ≡ 0 = rw e refl in
      rw (turn_taken stream now limit m rest e, t, a) (omega (arith, h, p, z))
]

rows_with-append :
    (k : ℕ) (rows : List Message) (m : Message)
    → rows_with k (rows ++ m ∷ []) ≡ rows_with k rows + one_if (m.id == k)
unfolding rows_with
rows_with-append k [] m = omega arith
rows_with-append k (r ∷ rows) m = let h = rows_with-append k rows m in omega (arith, h)

processed_with-append :
    (k : ℕ) (rows : List Message) (m : Message)
    → processed_with k rows ≤ processed_with k (rows ++ m ∷ [])
unfolding processed_with
processed_with-append k [] m = omega arith
processed_with-append k (r ∷ rows) m = let h = processed_with-append k rows m in omega (arith, h)

processed_with-rows_with : (k : ℕ) (rows : List Message) → processed_with k rows ≤ rows_with k rows
unfolding processed_with rows_with
processed_with-rows_with k [] = omega arith
processed_with-rows_with k (m ∷ rest) = let h = processed_with-rows_with k rest in ground (arith, h)

-- a tick, with what the stream does then and whether it commits, or a new row of another part of the program
pub data Turn : Type 0 where
  publishes : (stream : ℕ → Taking) (commits : Bool) (now : ℤ) → Turn
  adds : (m : Message) → Turn

unfoldable pub turn : Turn → List Message → List Message × List ℕ
turn (publishes stream commits now) rows = publish_outbox stream commits now rows
turn (adds m) rows = (rows ++ m ∷ [], [])

-- of the entries of a turn, those that no committed row knows of: all of a tick that does not commit, and those of
-- a message for which XADD raises after it took it
abbrev pub unknown : ℕ → Turn → ℕ → ℕ
unknown k (publishes stream commits now) n = if commits then late_of (stream k) n else n
unknown k (adds m) n = 0

pub record Sums : Type 0 where
  pub table : List Message
  pub entries : ℕ
  pub unknowns : ℕ

-- the table after the turns, how many entries of the stream have the id, and how many of them are unknown
unfoldable pub turns : ℕ → List Turn → List Message → Sums
turns k [] rows = record { table = rows; entries = 0; unknowns = 0 }
turns k (a ∷ more) rows =
    let first = turn a rows in
    let next = turns k more first.0 in
    let n = times k first.1 in
    record {
      table = next.table;
      entries = n + next.entries;
      unknowns = unknown k a n + next.unknowns;
    }

turn-processed_with :
    (k : ℕ) (a : Turn) (rows : List Message)
    → times k (turn a rows).1 + processed_with k rows
      ≤ processed_with k (turn a rows).0 + unknown k a (times k (turn a rows).1)
unfolding turn times publish_outbox
turn-processed_with k (publishes stream true now) rows =
    publish_rows-processed_with k stream now batch_limit rows
turn-processed_with k (publishes stream false now) rows = omega arith
turn-processed_with k (adds m) rows = let h = processed_with-append k rows m in omega (arith, h)

turns-processed_with :
    (k : ℕ) (more : List Turn) (rows : List Message)
    → (turns k more rows).entries + processed_with k rows
      ≤ processed_with k (turns k more rows).table + (turns k more rows).unknowns
unfolding turns
turns-processed_with k [] rows = omega arith
turns-processed_with k (a ∷ more) rows =
    let h = turn-processed_with k a rows in
    let i = turns-processed_with k more (turn a rows).0 in omega (arith, h, i)

-- Over any ticks, whatever the stream does and whether or not they commit, and any new rows in between, the entries
-- with an id that reach the stream and the processed rows with it at the start are together at most the rows with it
-- at the end and the entries of ticks that did not commit or for which XADD raised after it took the message.
pub turns_once :
    (k : ℕ) (more : List Turn) (rows : List Message)
    → (turns k more rows).entries + processed_with k rows
      ≤ rows_with k (turns k more rows).table + (turns k more rows).unknowns
turns_once k more rows =
    let h = turns-processed_with k more rows in
    let i = processed_with-rows_with k (turns k more rows).table in omega (arith, h, i)
