-- ===== src/Worker/Lease.antt =====
-- The lease that `_process_run` of apps/worker/worker.py takes on a run, and the heartbeats that renew it.
use lumi_observatory.Base.{
  ℕ, ◌==◌, Bool, true, false, ◌&&◌, String, List, [], ◌∷◌, ◌≡◌, refl, Option, none, some, arith,
  if◌then◌else◌, is_some, Bool-cases, inl, inr,
}
use lumi_observatory.Base.Int.{ℤ, pos, ltb_ℤ, ◌+ℤ◌}
use lumi_observatory.Base.Text.{◌=ₛ◌}
use lumi_observatory.Policy.Records.{RunStatus, RunRow, find_run, write_run}
use lumi_observatory.Worker.Store.{
  Store, lease_seconds, is_claimable, take_run, Claim, claimed, skipped, claim_row, claim,
}
use lumi_observatory.Worker.System.{renew}

pub find-write_run :
    (k : ℕ) (b : RunRow) (rows : List RunRow)
    → find_run k (write_run b rows)
      ≡ (if b.id == k then if is_some (find_run k rows) then some b else none else find_run k rows)
unfolding find_run write_run
find-write_run k b [] = ground arith
find-write_run k b (a ∷ rest) = ground (arith, find-write_run k b rest)

pub find_run_id : (k : ℕ) (rows : List RunRow) (r : RunRow) → find_run k rows ≡ some r → r.id ≡ k
unfolding find_run
find_run_id k [] r e = absurd (cc)
find_run_id k (x ∷ rest) r e = ground (arith, find_run_id k rest r)

-- a run's row is executing, under the lease that a worker holds until a time
abbrev pub IsHeld : String → ℕ → ℤ → Store → Type 0
IsHeld holder k lease s =
    (r : RunRow) × ((find_run k s.db.runs ≡ some r)
      × ((r.status ≡ RunStatus.executing)
          × ((s.lease_expires_at k ≡ some lease) × (s.worker_id k ≡ some holder))))

-- what workers do about one run whose task exists: a worker tries to claim it, or its heartbeat comes
pub data Attempt : Type 0 where
  takes beats : (worker : String) (now : ℤ) → Attempt

abbrev pub run_attempts : ℕ → List Attempt → Store → Store
run_attempts k [] s = s
run_attempts k (takes w now ∷ rest) s = run_attempts k rest (claim w now true k s).0
run_attempts k (beats w now ∷ rest) s = run_attempts k rest (renew w k now s)

abbrev pub was_skipped : Claim → Bool
was_skipped skipped = true
was_skipped _ = false

-- every claim among the attempts is skipped
abbrev pub all_skipped : ℕ → List Attempt → Store → Bool
all_skipped k [] s = true
all_skipped k (takes w now ∷ rest) s =
    was_skipped (claim w now true k s).1 && all_skipped k rest (claim w now true k s).0
all_skipped k (beats w now ∷ rest) s = all_skipped k rest (renew w k now s)

-- the end of the lease after a heartbeat: only the holder's heartbeat moves it
abbrev pub renewed : String → String → ℤ → ℤ → ℤ
renewed holder w now lease = if holder =ₛ w then now +ℤ pos lease_seconds else lease

-- the end of the lease after attempts that claim nothing
abbrev pub lease_after : String → ℤ → List Attempt → ℤ
lease_after holder lease [] = lease
lease_after holder lease (takes w now ∷ rest) = lease_after holder lease rest
lease_after holder lease (beats w now ∷ rest) = lease_after holder (renewed holder w now lease) rest

-- no claim among the attempts comes after the end of the lease as the heartbeats before it have left it
abbrev pub AreTimely : String → ℤ → List Attempt → Type 0
AreTimely holder lease [] = Unit
AreTimely holder lease (takes w now ∷ rest) =
    (ltb_ℤ lease now ≡ false) × AreTimely holder lease rest
AreTimely holder lease (beats w now ∷ rest) = AreTimely holder (renewed holder w now lease) rest

module _ (holder : String) (k : ℕ) (lease : ℤ) (s : Store) (held : IsHeld holder k lease s) where
  claim_held :
      (w : String) (now : ℤ)
      → (claim w now true k s).1 ≡ (if ltb_ℤ lease now then claimed else skipped)
  unfolding claim is_claimable
  claim_held w now =
      let (r, (found, (on, (until, by)))) = held in
      let i = find_run_id k s.db.runs r found in rw found (rw on (rw i (rw until (ground arith))))

  claim_timely :
      (w : String) (now : ℤ) → ltb_ℤ lease now ≡ false → claim w now true k s ≡ (s, skipped)
  unfolding claim is_claimable
  claim_timely w now timely =
      let (r, (found, (on, (until, by)))) = held in
      let i = find_run_id k s.db.runs r found in rw found (rw on (rw i (rw until (rw timely refl))))

  renew-IsHeld :
      (w : String) (now : ℤ) → IsHeld holder k (renewed holder w now lease) (renew w k now s)
  renew-IsHeld w now =
      let (r, (found, (on, (until, by)))) = held in
      elim (Bool-cases (holder =ₛ w)) [
        | inl e ↦ rw (by, e) (r, (found, (on, (ground arith, by))))
        | inr e ↦ rw (by, e) (r, (found, (on, (until, by))))
      ]

row_claimed :
    (worker : String) (now : ℤ) (task_found : Bool) (o : Option RunRow) (s : Store)
    → (claim_row worker now task_found o s).1 ≡ claimed
    → (r : RunRow) × ((o ≡ some r)
        × ((claim_row worker now task_found o s).0 ≡ take_run worker now r s))
row_claimed worker now task_found none s h = ground (arith, h)
row_claimed worker now task_found (some r) s h = (r, (refl, ground (arith, h)))

take_run-IsHeld :
    (worker : String) (now : ℤ) (k : ℕ) (r : RunRow) (s : Store)
    → find_run k s.db.runs ≡ some r
    → IsHeld worker k (now +ℤ pos lease_seconds) (take_run worker now r s)
unfolding take_run
take_run-IsHeld worker now k r s found =
    let i = find_run_id k s.db.runs r found in
    (
      record r { status = RunStatus.executing },
      (
        ground (
          arith,
          find-write_run k (record r { status = RunStatus.executing }) s.db.runs,
          i,
          found,
        ),
        (refl, (ground (arith, i), ground (arith, i))),
      ),
    )

claim-IsHeld :
    (worker : String) (now : ℤ) (task_found : Bool) (k : ℕ) (s : Store)
    → (claim worker now task_found k s).1 ≡ claimed
    → IsHeld worker k (now +ℤ pos lease_seconds) (claim worker now task_found k s).0
unfolding claim
claim-IsHeld worker now task_found k s h =
    let (r, (found, taken)) = row_claimed worker now task_found (find_run k s.db.runs) s h in
    rw taken (take_run-IsHeld worker now k r s found)

run_attempts-IsHeld :
    (holder : String) (k : ℕ) (attempts : List Attempt) (lease : ℤ) (s : Store)
    → IsHeld holder k lease s
    → AreTimely holder lease attempts
    → (all_skipped k attempts s ≡ true)
      × IsHeld holder k (lease_after holder lease attempts) (run_attempts k attempts s)
run_attempts-IsHeld holder k [] lease s held timely = (refl, held)
run_attempts-IsHeld holder k (takes w now ∷ rest) lease s held timely =
    let e = claim_timely holder k lease s held w now timely.0 in
    let after : IsHeld holder k lease (claim w now true k s).0 = rw e held in
    let (skips, then_held) =
      run_attempts-IsHeld holder k rest lease (claim w now true k s).0 after timely.1 in
    (ground (arith, e, skips), then_held)
run_attempts-IsHeld holder k (beats w now ∷ rest) lease s held timely =
    run_attempts-IsHeld holder k rest (renewed holder w now lease) (renew w k now s)
      (renew-IsHeld holder k lease s held w now) timely

-- Let a worker have claimed a run whose task exists, and let any workers, the same one included, then only try to
-- claim the run and send heartbeats for it, no claim coming after the end of the lease. Every such claim is skipped.
-- The lease ends 30 seconds after the holder's last heartbeat, or after the claim where there was none; the
-- heartbeats of other workers do not move it. A claim that comes then is granted exactly when the lease is over, and
-- skipped before.
pub claim-run_attempts :
    (first second : String) (start now : ℤ) (task_found : Bool) (k : ℕ) (s : Store)
    (attempts : List Attempt)
    → (claim first start task_found k s).1 ≡ claimed
    → AreTimely first (start +ℤ pos lease_seconds) attempts
    → (all_skipped k attempts (claim first start task_found k s).0 ≡ true)
      × ((claim second now true k (run_attempts k attempts (claim first start task_found k s).0)).1
          ≡ (if ltb_ℤ (lease_after first (start +ℤ pos lease_seconds) attempts) now
              then claimed
              else skipped))
claim-run_attempts first second start now task_found k s attempts granted timely =
    let lease = start +ℤ pos lease_seconds in
    let after = (claim first start task_found k s).0 in
    let (skips, held) =
      run_attempts-IsHeld first k attempts lease after
        (claim-IsHeld first start task_found k s granted) timely in
    (
      skips,
      claim_held first k (lease_after first lease attempts) (run_attempts k attempts after) held
          second now,
    )
