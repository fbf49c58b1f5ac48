-- ===== src/Worker/Paid.antt =====
-- What one transaction of `_try_continuation` may do to an approval: it hands out its tool only by consuming it.
use lumi_observatory.Base.{
  ℕ, zero, suc, ◌+◌, ◌≤◌, ◌==◌, Bool, true, false, ◌&&◌, String, List, [], ◌∷◌, ◌≡◌, Option, some,
  arith, inl, inr, Option-cases, Bool-cases,
}
use lumi_observatory.Base.Int.{ℤ}
use lumi_observatory.Policy.Records.{Approval, Db}
use lumi_observatory.Policy.Service.{is_approved, is_consumed, Recorded, consume_and_record}
use lumi_observatory.Policy.Once.{used, one_if}
use lumi_observatory.Policy.Trace.{is_id, record_ids-Careful}
use lumi_observatory.Worker.Store.{Store}
use lumi_observatory.Worker.Continue.{
  Next, execute, latest, recover, after_consume, try_continuation, fail_executing,
  complete_executing,
}
use lumi_observatory.Worker.System.{Place, holding, World, place_of, set_place}

-- how often the tool of the approval was called
unfoldable pub times : ℕ → List ℕ → ℕ
times k [] = 0
times k (a ∷ rest) = let n = times k rest in one_if (a == k) + n

abbrev pub holds : ℕ → Place → ℕ
holds k (holding run a tool) = one_if (a == k)
holds k _ = 0

-- how many workers are about to call it
unfoldable pub holders : ℕ → List Place → ℕ
holders k [] = 0
holders k (p ∷ rest) = let n = holders k rest in holds k p + n

pub holders-set_place :
    (k i : ℕ) (q : Place) (places : List Place)
    → holders k (set_place i q places) + holds k (place_of i places) ≤ holders k places + holds k q
unfolding holders set_place place_of
holders-set_place k i q [] = omega arith
holders-set_place k zero q (p ∷ rest) = omega arith
holders-set_place k (suc i) q (p ∷ rest) = let h = holders-set_place k i q rest in omega (arith, h)

-- the new calls and the new holders are paid for by the consumed state
abbrev pub Paid : ℕ → World → World → Type 0
Paid k w next =
    times k next.calls + holders k next.places + used k w.store.db
    ≤ times k w.calls + holders k w.places + used k next.store.db

abbrev pub Kept : Store → Store → Type 0
Kept s next = next.db.approvals ≡ s.db.approvals

abbrev pub asks : ℕ → Next → ℕ
asks k (execute a tool) = one_if (a == k)
asks k _ = 0

abbrev pub Sound : ℕ → Store → Store × Next → Type 0
Sound k s r = asks k r.1 + used k s.db ≤ used k r.0.db

pub Kept-Sound : (k : ℕ) (s : Store) (r : Store × Next) → asks k r.1 ≡ 0 → Kept s r.0 → Sound k s r
Kept-Sound k s r n e = rw (n, e) (omega arith)

pub recover-Quiet :
    (show : ℕ → String) (k j : ℕ) (now : ℤ) (event_ok : Bool) (o : Option Approval) (s : Store)
    → (asks j (recover show k now event_ok o s).1 ≡ 0) × Kept s (recover show k now event_ok o s).0
unfolding fail_executing complete_executing
recover-Quiet show k j now event_ok o s = ground arith

granted_id :
    (parse : String → Option ℕ) (show : ℕ → String) (j i : ℕ)
    → parse (show j) ≡ some j
    → (b : Bool) → one_if (b && i == j) ≤ one_if (b && is_id j (parse (show i)))
granted_id parse show j i trip b = elim (Bool-cases (i == j)) [
  | inl e ↦ let q : i ≡ j = ground (arith, e) in rw (q, trip) (ground arith)
  | inr e ↦ ground (arith, e)
]

after_consume-Sound :
    (parse : String → Option ℕ) (show : ℕ → String) (j : ℕ)
    → parse (show j) ≡ some j
    → (event_ok : Bool) (a : Approval) (s : Store) (r : Db × Recorded)
    → one_if (r.1.0 && is_id j (parse (show a.id))) + used j s.db ≤ used j r.0
    → Sound j s (after_consume event_ok a s r)
after_consume-Sound parse show j trip event_ok a s (db, (true, b, x)) h =
    let g = granted_id parse show j a.id trip true in omega (arith, g, h)
after_consume-Sound parse show j trip true a s (db, (false, b, x)) h = h
after_consume-Sound parse show j trip false a s (db, (false, b, x)) h = h

pub try_continuation-Sound :
    (parse : String → Option ℕ) (show : ℕ → String) (j : ℕ)
    → parse (show j) ≡ some j
    → (k : ℕ) (now : ℤ) (event_ok : Bool) (s : Store)
    → Sound j s (try_continuation parse show k now event_ok s)
unfolding try_continuation consume_and_record
try_continuation-Sound parse show j trip k now event_ok s =
    elim (Option-cases (latest k is_approved s.db.approvals)) [
      | inl e ↦
          let q = recover-Quiet show k j now event_ok (latest k is_consumed s.db.approvals) s in
          rw e (
            Kept-Sound j s (recover show k now event_ok (latest k is_consumed s.db.approvals) s) q.0
              q.1)
      | inr (a, e) ↦ rw e (
          after_consume-Sound parse show j trip event_ok a s _
            (record_ids-Careful show j (parse (show a.id)) (parse (show k)) now s.db).0)
    ]
