-- ===== src/Scheduler/Retries.antt =====
-- How often apps/scheduler/scheduler.py recovers a run and its retries.
use lumi_observatory.Base.{
  ℕ, suc, ◌+◌, ◌-◌, ◌*◌, ◌≤◌, ◌==◌, ltb, true, List, [], ◌∷◌, ◌++◌, ◌≡◌, Option, none,
  if◌then◌else◌, arith, inl, inr, Bool-cases,
}
use lumi_observatory.Base.Int.{ℤ}
use lumi_observatory.Policy.Records.{RunStatus}
use lumi_observatory.Worker.Store.{is_terminal}
use lumi_observatory.Scheduler.Stuck.{
  Run, Tables, is_stuck, max_retries, failed_run, new_run, Swept, give_up, queue_retry, sweep,
  sweep_rows, swept_nothing, recover_stuck_runs,
}

-- how many recoveries a run and the retries it may get can still take
abbrev pub allowance : Run → ℕ
allowance r = if is_terminal r.status then 0 else suc (max_retries - r.retry_count)

unfoldable pub allowances : List Run → ℕ
allowances [] = 0
allowances (r ∷ rest) = let n = allowances rest in allowance r + n

allowances-append : (xs ys : List Run) → allowances (xs ++ ys) ≡ allowances xs + allowances ys
unfolding allowances
allowances-append [] ys = omega arith
allowances-append (r ∷ xs) ys = let h = allowances-append xs ys in omega (arith, h)

abbrev total : Swept → ℕ
total s = allowances s.passed + allowances s.made + s.recovered

allowances-snoc :
    (xs : List Run) (r : Run) → allowances (xs ++ r ∷ []) ≡ allowances xs + allowance r
unfolding allowances
allowances-snoc xs r = let h = allowances-append xs (r ∷ []) in omega (arith, h)

stuck_allowance :
    (now : ℤ) (r : Run) → is_stuck now r ≡ true → allowance r ≡ suc (max_retries - r.retry_count)
unfolding is_stuck
stuck_allowance now r h = ground (arith, h)

give_up-total :
    (now : ℤ) (r : Run) (s : Swept)
    → 1 ≤ allowance r
    → total (give_up now r s) ≤ total s + allowance r
give_up-total now r s h = let e = allowances-snoc s.passed (failed_run now r) in omega (arith, e, h)

queue_retry-total :
    (now : ℤ) (r : Run) (s : Swept)
    → suc r.retry_count ≤ max_retries
    → allowance r ≡ suc (max_retries - r.retry_count)
    → total (queue_retry now r s) ≤ total s + allowance r
queue_retry-total now r s few h =
    let e = allowances-snoc s.passed (failed_run now r) in
    let f = allowances-snoc s.made (new_run now r s.next_id) in omega (arith, e, f, h, few)

sweep-total : (now : ℤ) (r : Run) (s : Swept) → total (sweep now r s) ≤ total s + allowance r
unfolding sweep
sweep-total now r s = elim (Bool-cases (is_stuck now r)) [
  | inr e ↦ let f = allowances-snoc s.passed r in rw e (omega (arith, f))
  | inl e ↦
      let a = stuck_allowance now r e in
      elim (Bool-cases (ltb max_retries (suc r.retry_count))) [
        | inl m ↦ rw (e, m) (give_up-total now r s (omega (arith, a)))
        | inr m ↦ rw (e, m) (queue_retry-total now r s (ground (arith, m)) a)
      ]
]

sweep_rows-total :
    (now : ℤ) (rows : List Run) (s : Swept)
    → total (sweep_rows now rows s) ≤ total s + allowances rows
unfolding sweep_rows allowances
sweep_rows-total now [] s = omega arith
sweep_rows-total now (r ∷ rest) s =
    let h = sweep-total now r s in
    let i = sweep_rows-total now rest (sweep now r s) in omega (arith, h, i)

recover-allowances :
    (now : ℤ) (t : Tables)
    → (recover_stuck_runs now t).1 + allowances (recover_stuck_runs now t).0.runs
      ≤ allowances t.runs
unfolding recover_stuck_runs allowances
recover-allowances now t =
    let s = sweep_rows now t.runs (swept_nothing t) in
    let h = sweep_rows-total now t.runs (swept_nothing t) in
    let e = allowances-append s.passed s.made in omega (arith, h, e)

-- what happens to the runs: a tick of the scheduler, a new run of a task, and a new status of a run that is not over
pub data Happening : Type 0 where
  ticks : (now : ℤ) → Happening
  starts : (task_id : ℕ) (now : ℤ) → Happening
  moves : (run_id : ℕ) (status : RunStatus) (heartbeat lease : Option ℤ) → Happening

abbrev pub move_row : RunStatus → Option ℤ → Option ℤ → Run → Run
move_row status heartbeat lease r =
    if is_terminal r.status
    then r
    else record r { status = status; heartbeat_at = heartbeat; lease_expires_at = lease }

unfoldable pub move_run : ℕ → RunStatus → Option ℤ → Option ℤ → List Run → List Run
move_run k status heartbeat lease [] = []
move_run k status heartbeat lease (r ∷ rest) =
    let more = move_run k status heartbeat lease rest in
    if r.id == k then move_row status heartbeat lease r ∷ rest else r ∷ more

abbrev pub started_run : ℕ → ℤ → ℕ → Run
started_run task now k = record {
  id = k;
  task_id = task;
  status = RunStatus.queued;
  retry_count = 0;
  heartbeat_at = none;
  updated_at = now;
  lease_expires_at = none;
  error = none;
  finished_at = none;
}

unfoldable pub happen : Happening → Tables → Tables × ℕ
happen (ticks now) t = recover_stuck_runs now t
happen (starts task now) t =
    (record t { runs = t.runs ++ started_run task now t.next_id ∷ []; next_id = suc t.next_id }, 0)
happen (moves k status heartbeat lease) t =
    (record t { runs = move_run k status heartbeat lease t.runs }, 0)

abbrev pub started : Happening → ℕ
started (starts task now) = 1
started _ = 0

unfoldable pub starts_in : List Happening → ℕ
starts_in [] = 0
starts_in (h ∷ rest) = let n = starts_in rest in started h + n

-- the tables after all of it, and how many runs were recovered
unfoldable pub happen_all : List Happening → Tables → Tables × ℕ
happen_all [] t = (t, 0)
happen_all (h ∷ rest) t =
    let first = happen h t in let more = happen_all rest first.0 in (more.0, first.1 + more.1)

move_run-allowances :
    (k : ℕ) (status : RunStatus) (heartbeat lease : Option ℤ) (rows : List Run)
    → allowances (move_run k status heartbeat lease rows) ≤ allowances rows
unfolding move_run allowances
move_run-allowances k status heartbeat lease [] = omega arith
move_run-allowances k status heartbeat lease (r ∷ rest) =
    let h = move_run-allowances k status heartbeat lease rest in ground (arith, h)

happen-allowances :
    (h : Happening) (t : Tables)
    → (happen h t).1 + allowances (happen h t).0.runs ≤ allowances t.runs + 4 * started h
unfolding happen
happen-allowances (ticks now) t = let r = recover-allowances now t in omega (arith, r)
happen-allowances (starts task now) t =
    let e = allowances-snoc t.runs (started_run task now t.next_id) in omega (arith, e)
happen-allowances (moves k status heartbeat lease) t =
    let m = move_run-allowances k status heartbeat lease t.runs in omega (arith, m)

-- Over any sequence of ticks of the scheduler, new runs, and new statuses of runs that are not over, the runs that are
-- recovered as stuck are at most four for each run that is started, and the allowance of the runs that were there: four
-- less its retries, but at least one, for each run that is not over.
pub happen_all-allowances :
    (hs : List Happening) (t : Tables)
    → (happen_all hs t).1 + allowances (happen_all hs t).0.runs
      ≤ allowances t.runs + 4 * starts_in hs
unfolding happen_all starts_in
happen_all-allowances [] t = omega arith
happen_all-allowances (h ∷ rest) t =
    let f = happen-allowances h t in
    let m = happen_all-allowances rest (happen h t).0 in omega (arith, f, m)
