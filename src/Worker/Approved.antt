-- ===== src/Worker/Approved.antt =====
-- The calls that workers of apps/worker/worker.py make, against the approvals that the service was asked for.
use lumi_observatory.Base.{
  ℕ, ◌+◌, ◌≤◌, Bool, true, false, ◌||◌, String, List, [], ◌∷◌, ◌≡◌, refl, Option, some, arith, inl,
  inr, Option-cases,
}
use lumi_observatory.Base.Int.{ℤ}
use lumi_observatory.Policy.Records.{RunStatus, Approval, Db}
use lumi_observatory.Policy.Service.{is_approved, is_consumed, Recorded, consume_and_record}
use lumi_observatory.Policy.Once.{used}
use lumi_observatory.Worker.Store.{Store, claim, take_run}
use lumi_observatory.Worker.Continue.{
  Next, latest, after_consume, try_continuation, finish_succeeded, finish_ambiguous,
}
use lumi_observatory.Worker.System.{
  Place, began, World, place_of, Act, claims, continues, calling, records, fails, heartbeats,
  finishes, crashes, serves, changes, claim_at, call_at, record_at, fail_at, heartbeat_at,
  finish_at, continue_at, after_transaction, act, run_acts,
}
use lumi_observatory.Worker.Paid.{times, holders, Kept, recover-Quiet}
use lumi_observatory.Worker.Once.{run_acts-Paid}
use lumi_observatory.Worker.Consent.{ready, approves, record_ids-Unready, step-Unready}

claim_at-Kept :
    (name : ℕ → String) (i k : ℕ) (task_found : Bool) (now : ℤ) (p : Place) (w : World)
    → Kept w.store (claim_at name i k task_found now p w).store
unfolding claim take_run
claim_at-Kept name i k task_found now p w = ground arith

record_at-Kept :
    (i : ℕ) (now : ℤ) (event_ok commit_ok : Bool) (e : String) (p : Place) (w : World)
    → Kept w.store (record_at i now event_ok commit_ok e p w).store
unfolding finish_succeeded
record_at-Kept i now event_ok commit_ok e p w = ground arith

fail_at-Kept :
    (i : ℕ) (now : ℤ) (event_ok : Bool) (p : Place) (w : World)
    → Kept w.store (fail_at i now event_ok p w).store
unfolding finish_ambiguous
fail_at-Kept i now event_ok p w = ground arith

finish_at-Kept :
    (i : ℕ) (status : RunStatus) (failure : String) (now : ℤ) (p : Place) (w : World)
    → Kept w.store (finish_at i status failure now p w).store
finish_at-Kept i status failure now p w = ground arith

call_at-Kept :
    (i : ℕ) (returns : Bool) (text : String) (p : Place) (w : World)
    → Kept w.store (call_at i returns text p w).store
call_at-Kept i returns text p w = ground arith

heartbeat_at-Kept :
    (name : ℕ → String) (i : ℕ) (now : ℤ) (p : Place) (w : World)
    → Kept w.store (heartbeat_at name i now p w).store
heartbeat_at-Kept name i now p w = ground arith

after_consume_db :
    (event_ok : Bool) (a : Approval) (s : Store) (r : Db × Recorded)
    → (after_consume event_ok a s r).0.db.approvals ≡ r.0.approvals
after_consume_db event_ok a s (db, (true, b, x)) = refl
after_consume_db true a s (db, (false, b, x)) = refl
after_consume_db false a s (db, (false, b, x)) = refl

module _ (parse : String → Option ℕ) (show : ℕ → String) (j : ℕ) where
  try_continuation-Unready :
      (k : ℕ) (now : ℤ) (event_ok : Bool) (s : Store)
      → ready j s.db ≡ false
      → ready j (try_continuation parse show k now event_ok s).0.db ≡ false
  unfolding try_continuation consume_and_record
  try_continuation-Unready k now event_ok s h =
      elim (Option-cases (latest k is_approved s.db.approvals)) [
        | inl e ↦
            rw (e, (recover-Quiet show k j now event_ok (latest k is_consumed s.db.approvals) s).1)
              h
        | inr (a, e) ↦
            rw
              (
                e,
                after_consume_db event_ok a s
                    (consume_and_record parse show (show a.id) (show k) now s.db),
              )
              (record_ids-Unready show j (parse (show a.id)) (parse (show k)) now s.db h)
      ]

  after_transaction_db :
      (i k : ℕ) (r : Store × Next) (w : World) → (after_transaction i k r w).store ≡ r.0
  after_transaction_db i k (s, n) w = ground arith

  continue_at-Unready :
      (i : ℕ) (now : ℤ) (event_ok : Bool) (p : Place) (w : World)
      → ready j w.store.db ≡ false
      → ready j (continue_at parse show i now event_ok p w).store.db ≡ false
  continue_at-Unready i now event_ok (began k) w h =
      rw (after_transaction_db i k (try_continuation parse show k now event_ok w.store) w)
        (try_continuation-Unready k now event_ok w.store h)
  continue_at-Unready i now event_ok _ w h = h

-- whether one of the acts approves the id
unfoldable pub approved_in : (String → Option ℕ) → (ℕ → String) → ℕ → List Act → Bool
approved_in parse show k [] = false
approved_in parse show k (serves op ∷ acts) =
    let rest = approved_in parse show k acts in approves parse show k op || rest
approved_in parse show k (_ ∷ acts) = approved_in parse show k acts

module _ (parse : String → Option ℕ) (show name : ℕ → String) (j : ℕ) where
  act-Unready :
      (a : Act) (w : World)
      → approved_in parse show j (a ∷ []) ≡ false
      → ready j w.store.db ≡ false
      → ready j (act parse show name a w).store.db ≡ false
  unfolding act approved_in
  act-Unready (claims i k task_found now) w c h =
      rw (claim_at-Kept name i k task_found now (place_of i w.places) w) h
  act-Unready (continues i now event_ok) w c h =
      continue_at-Unready parse show j i now event_ok (place_of i w.places) w h
  act-Unready (calling i returns text) w c h =
      rw (call_at-Kept i returns text (place_of i w.places) w) h
  act-Unready (records i now event_ok commit_ok e) w c h =
      rw (record_at-Kept i now event_ok commit_ok e (place_of i w.places) w) h
  act-Unready (fails i now event_ok) w c h =
      rw (fail_at-Kept i now event_ok (place_of i w.places) w) h
  act-Unready (heartbeats i now) w c h = rw (heartbeat_at-Kept name i now (place_of i w.places) w) h
  act-Unready (finishes i status failure now) w c h =
      rw (finish_at-Kept i status failure now (place_of i w.places) w) h
  act-Unready (crashes i) w c h = h
  act-Unready (serves op) w c h = step-Unready parse show j op w.store.db (ground (arith, c)) h
  act-Unready (changes runs leases) w c h = h

  first_approved :
      (a : Act) (acts : List Act)
      → approved_in parse show j (a ∷ acts) ≡ false
      → (approved_in parse show j (a ∷ []) ≡ false) × (approved_in parse show j acts ≡ false)
  unfolding approved_in
  first_approved a acts c = ground arith

  run_acts-Unready :
      (acts : List Act) (w : World)
      → approved_in parse show j acts ≡ false
      → ready j w.store.db ≡ false
      → ready j (run_acts parse show name acts w).store.db ≡ false
  unfolding run_acts
  run_acts-Unready [] w c h = h
  run_acts-Unready (a ∷ acts) w c h =
      let (c1, c2) = first_approved a acts c in
      run_acts-Unready acts (act parse show name a w) c2 (act-Unready a w c1 h)

used_unready : (k : ℕ) (db : Db) → ready k db ≡ false → used k db ≡ 0
used_unready k db h = ground (arith, h)

-- Let an id be read back as it is shown, and an approval be neither approved nor consumed yet. Over any acts of any
-- number of workers and of the approval service, and any changes of the runs, in which nobody approves it, its tool
-- is called at most as often as it was before, with one call for each worker that was about to call it.
pub unapproved-run_acts :
    (parse : String → Option ℕ) (show name : ℕ → String) (k : ℕ)
    → parse (show k) ≡ some k
    → (acts : List Act) (w : World) → ready k w.store.db ≡ false
    → approved_in parse show k acts ≡ false
    → times k (run_acts parse show name acts w).calls ≤ times k w.calls + holders k w.places
unapproved-run_acts parse show name k trip acts w h c =
    let p = run_acts-Paid parse show name k trip acts w in
    let u =
      used_unready k (run_acts parse show name acts w).store.db
        (run_acts-Unready parse show name k acts w c h) in
    omega (arith, p, u)
