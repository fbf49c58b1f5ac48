-- ===== src/Worker/Once.antt =====
-- However the workers of apps/worker/worker.py interleave, an approval pays for one call of its tool.
use lumi_observatory.Base.{
  ℕ, ◌+◌, ◌≤◌, ◌==◌, Bool, true, false, String, List, [], ◌∷◌, ◌≡◌, refl, Option, none, some, arith,
}
use lumi_observatory.Base.Int.{ℤ}
use lumi_observatory.Policy.Records.{RunRow, RunStatus, find_run}
use lumi_observatory.Policy.Once.{used, one_if}
use lumi_observatory.Policy.Trace.{step-Careful, used_at_most_one}
use lumi_observatory.Worker.Store.{Store, Claim, claimed, claim, called, tool_failed, take_run}
use lumi_observatory.Worker.Continue.{
  Next, proceed, handled, raised, execute, append_event, finish_succeeded, finish_ambiguous,
}
use lumi_observatory.Worker.System.{
  Place, idle, began, planning, holding, returned, errored, World, place_of, Act, claims, continues,
  calling, records, fails, heartbeats, finishes, crashes, serves, changes, finish_run, goes,
  after_claim, claim_at, call_at, record_at, fail_at, heartbeat_at, finish_at, continue_at,
  after_transaction, act, run_acts,
}
use lumi_observatory.Worker.Paid.{
  times, holds, holders, holders-set_place, Paid, Kept, Sound, try_continuation-Sound,
}

pub claim-Kept :
    (worker : String) (now : ℤ) (task_found : Bool) (k : ℕ) (s : Store)
    → Kept s (claim worker now task_found k s).0
unfolding claim take_run
claim-Kept worker now task_found k s = ground arith

pub finish_succeeded-Kept :
    (k a : ℕ) (r : String) (now : ℤ) (s : Store) → Kept s (finish_succeeded k a r now s)
unfolding finish_succeeded
finish_succeeded-Kept k a r now s = ground arith

pub finish_ambiguous-Kept :
    (k a : ℕ) (e : String) (now : ℤ) (s : Store) → Kept s (finish_ambiguous k a e now s)
unfolding finish_ambiguous
finish_ambiguous-Kept k a e now s = ground arith

pub finish_run-Kept :
    (status : RunStatus) (failure : String) (now : ℤ) (o : Option RunRow) (s : Store)
    → Kept s (finish_run status failure now o s)
finish_run-Kept status failure now none s = refl
finish_run-Kept status failure now (some r) s = refl

goes-Paid :
    (k i : ℕ) (p : Place) (s : Store) (w : World)
    → holds k p + used k w.store.db ≤ used k s.db
    → Paid k w (goes i p s w)
goes-Paid k i p s w h = let g = holders-set_place k i p w.places in omega (arith, g, h)

Kept-Paid :
    (k i : ℕ) (p : Place) (s : Store) (w : World)
    → holds k p ≡ 0
    → Kept w.store s
    → Paid k w (goes i p s w)
Kept-Paid k i p s w n e = goes-Paid k i p s w (rw (n, e) (omega arith))

call-Paid :
    (j i a : ℕ) (p : Place) (w : World)
    → holds j p ≡ 0
    → holds j (place_of i w.places) ≡ one_if (a == j)
    → Paid j w (record (goes i p w.store w) { calls = a ∷ w.calls })
unfolding times
call-Paid j i a p w n h = let g = holders-set_place j i p w.places in omega (arith, g, h, n)

after_claim-Paid :
    (j i k : ℕ) (w : World) (r : Store × Claim) → Kept w.store r.0 → Paid j w (after_claim i k r w)
after_claim-Paid j i k w (s, claimed) e = Kept-Paid j i (began k) s w refl e
after_claim-Paid j i k w (s, _) e = Kept-Paid j i idle s w refl e

claim_at-Paid :
    (name : ℕ → String) (j i k : ℕ) (task_found : Bool) (now : ℤ) (p : Place) (w : World)
    → Paid j w (claim_at name i k task_found now p w)
claim_at-Paid name j i k task_found now idle w =
    after_claim-Paid j i k w _ (claim-Kept (name i) now task_found k w.store)
claim_at-Paid name j i k task_found now _ w = omega arith

after_transaction-Paid :
    (j i k : ℕ) (w : World) (r : Store × Next)
    → Sound j w.store r
    → Paid j w (after_transaction i k r w)
after_transaction-Paid j i k w (s, proceed) h = goes-Paid j i (planning k) s w h
after_transaction-Paid j i k w (s, handled) h = goes-Paid j i idle s w h
after_transaction-Paid j i k w (s, raised) h = goes-Paid j i idle s w h
after_transaction-Paid j i k w (s, execute a tool) h = goes-Paid j i (holding k a tool) s w h

call_at-Paid :
    (j i : ℕ) (returns : Bool) (text : String) (p : Place) (w : World)
    → place_of i w.places ≡ p
    → Paid j w (call_at i returns text p w)
call_at-Paid j i returns text idle w e = ground arith
call_at-Paid j i true text (holding r a tool) w e =
    call-Paid j i a (returned r a tool text) w refl (rw e refl)
call_at-Paid j i false text (holding r a tool) w e =
    call-Paid j i a (errored r a tool text) w refl (rw e refl)
call_at-Paid j i returns text _ w e = ground arith

record_at-Paid :
    (j i : ℕ) (now : ℤ) (event_ok commit_ok : Bool) (err : String) (p : Place) (w : World)
    → Paid j w (record_at i now event_ok commit_ok err p w)
record_at-Paid j i now true true err (returned k a tool r) w =
    let s = append_event (called a) w.store in
    Kept-Paid j i idle (finish_succeeded k a r now s) w refl (finish_succeeded-Kept k a r now s)
record_at-Paid j i now true false err (returned k a tool r) w =
    Kept-Paid j i (errored k a tool err) (append_event (called a) w.store) w refl refl
record_at-Paid j i now false commit_ok err (returned k a tool r) w =
    Kept-Paid j i (errored k a tool err) w.store w refl refl
record_at-Paid j i now event_ok commit_ok err _ w = omega arith

fail_at-Paid :
    (j i : ℕ) (now : ℤ) (event_ok : Bool) (p : Place) (w : World)
    → Paid j w (fail_at i now event_ok p w)
fail_at-Paid j i now true (errored k a tool e) w =
    let s = append_event (tool_failed a) w.store in
    Kept-Paid j i idle (finish_ambiguous k a e now s) w refl (finish_ambiguous-Kept k a e now s)
fail_at-Paid j i now false (errored k a tool e) w = Kept-Paid j i idle w.store w refl refl
fail_at-Paid j i now event_ok _ w = omega arith

heartbeat_at-Paid :
    (name : ℕ → String) (j i : ℕ) (now : ℤ) (p : Place) (w : World)
    → Paid j w (heartbeat_at name i now p w)
heartbeat_at-Paid name j i now p w = ground arith

finish_at-Paid :
    (j i : ℕ) (status : RunStatus) (failure : String) (now : ℤ) (p : Place) (w : World)
    → Paid j w (finish_at i status failure now p w)
finish_at-Paid j i status failure now (planning k) w =
    Kept-Paid j i idle (finish_run status failure now (find_run k w.store.db.runs) w.store) w refl
      (finish_run-Kept status failure now (find_run k w.store.db.runs) w.store)
finish_at-Paid j i status failure now _ w = omega arith

module _ (parse : String → Option ℕ) (show name : ℕ → String) (j : ℕ)
    (trip : parse (show j) ≡ some j) where
  continue_at-Paid :
      (i : ℕ) (now : ℤ) (event_ok : Bool) (p : Place) (w : World)
      → Paid j w (continue_at parse show i now event_ok p w)
  continue_at-Paid i now event_ok (began k) w =
      after_transaction-Paid j i k w _
        (try_continuation-Sound parse show j trip k now event_ok w.store)
  continue_at-Paid i now event_ok _ w = omega arith

  act-Paid : (a : Act) (w : World) → Paid j w (act parse show name a w)
  unfolding act
  act-Paid (claims i k task_found now) w =
      claim_at-Paid name j i k task_found now (place_of i w.places) w
  act-Paid (continues i now event_ok) w = continue_at-Paid i now event_ok (place_of i w.places) w
  act-Paid (calling i returns text) w = call_at-Paid j i returns text (place_of i w.places) w refl
  act-Paid (records i now event_ok commit_ok e) w =
      record_at-Paid j i now event_ok commit_ok e (place_of i w.places) w
  act-Paid (fails i now event_ok) w = fail_at-Paid j i now event_ok (place_of i w.places) w
  act-Paid (heartbeats i now) w = heartbeat_at-Paid name j i now (place_of i w.places) w
  act-Paid (finishes i status failure now) w =
      finish_at-Paid j i status failure now (place_of i w.places) w
  act-Paid (crashes i) w = Kept-Paid j i idle w.store w refl refl
  act-Paid (serves op) w = let h = (step-Careful parse show j op w.store.db).0 in omega (arith, h)
  act-Paid (changes runs leases) w = omega arith

  pub run_acts-Paid : (acts : List Act) (w : World) → Paid j w (run_acts parse show name acts w)
  unfolding run_acts
  run_acts-Paid [] w = omega arith
  run_acts-Paid (a ∷ acts) w =
      let h = act-Paid a w in
      let i = run_acts-Paid acts (act parse show name a w) in omega (arith, h, i)

-- Let an id be read back as it is shown. Over any acts of any number of workers and of the approval service, and any
-- changes of the runs in between, crashes, failing calls and failing commits included, the calls of the tool of one
-- approval, the workers that are about to call it, and its consumption before the acts are together at most one more
-- than the calls and the workers that were about to call it before.
pub times-run_acts :
    (parse : String → Option ℕ) (show name : ℕ → String) (k : ℕ)
    → parse (show k) ≡ some k
    → (acts : List Act) (w : World)
    → (times k (run_acts parse show name acts w).calls
          + holders k (run_acts parse show name acts w).places
          + used k w.store.db
        ≤ times k w.calls + holders k w.places + 1)
times-run_acts parse show name k trip acts w =
    let h = run_acts-Paid parse show name k trip acts w in
    let u = used_at_most_one k (run_acts parse show name acts w).store.db in omega (arith, h, u)
