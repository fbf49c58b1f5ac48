-- ===== src/Policy/Once.antt =====
-- An approval authorises at most one action, whatever calls of the service are made in whatever order.
use lumi_observatory.Base.{
  ℕ, ◌+◌, ◌≤◌, ◌==◌, Bool, true, ◌&&◌, String, List, [], ◌∷◌, ◌++◌, ◌≡◌, refl, Option, none, some,
  if◌then◌else◌, arith,
}
use lumi_observatory.Base.Int.{ℤ}
use lumi_observatory.Policy.Records.{
  expired, consumed, Choice, approve, reject, other, Approval, Execution, Db, find_approval,
  write_execution, find-write_approval, find_approval_id,
}
use lumi_observatory.Policy.Service.{
  save, is_pending, is_consumed, set_decision, decide_row, consume_row, new_execution, record_row,
}

-- 1 where the approval is consumed, 0 elsewhere
abbrev pub used_by : Option Approval → ℕ
used_by none = 0
used_by (some a) = if is_consumed a.status then 1 else 0

abbrev pub used : ℕ → Db → ℕ
used k db = used_by (find_approval k db.approvals)

-- how many executions the tables hold for the approval
unfoldable pub executions_for : ℕ → List Execution → ℕ
executions_for k [] = 0
executions_for k (x ∷ rest) =
    let n = executions_for k rest in if x.approval_id == k then n + 1 else n

pub executions_for-append :
    (k : ℕ) (xs : List Execution) (x : Execution)
    → executions_for k (xs ++ x ∷ []) ≡ executions_for k xs + (if x.approval_id == k then 1 else 0)
unfolding executions_for
executions_for-append k [] x = ground arith
executions_for-append k (y ∷ xs) x = ground (arith, executions_for-append k xs x)

pub executions_for-write :
    (k : ℕ) (b : Execution) (xs : List Execution)
    → executions_for k (write_execution b xs) ≡ executions_for k xs
unfolding executions_for write_execution
executions_for-write k b [] = refl
executions_for-write k b (x ∷ xs) = ground (arith, executions_for-write k b xs)

-- 1 where a call says that it consumed the approval
abbrev pub one_if : Bool → ℕ
one_if b = if b then 1 else 0

module _ (k j : ℕ) (db : Db) (a : Approval) (found : find_approval j db.approvals ≡ some a) where
  save_keeps :
      (b : Approval)
      → b.id ≡ a.id
      → is_consumed b.status ≡ is_consumed a.status
      → used k (save db b) ≡ used k db
  save_keeps b i c =
      ground (arith, find-write_approval k b db.approvals, find_approval_id j db.approvals a found)

  pub consume_row-used :
      one_if ((consume_row a db).1 && j == k) + used k db ≤ used k (consume_row a db).0
  unfolding consume_row
  consume_row-used = ground (
    arith,
    find-write_approval k (record a { status = consumed }) db.approvals,
    find_approval_id j db.approvals a found,
  )

  pub record_row-used :
      (show : ℕ → String) (run_id : ℕ) (now : ℤ)
      → one_if ((record_row show a run_id now db).1.0 && j == k) + used k db
        ≤ used k (record_row show a run_id now db).0
  unfolding record_row
  record_row-used show run_id now = ground (
    arith,
    find-write_approval k (record a { status = consumed }) db.approvals,
    find-write_approval k (record a { status = expired }) db.approvals,
    find_approval_id j db.approvals a found,
  )

  used-set_decision :
      (decision : Choice) (user : Option (Option ℕ))
      → is_pending a.status ≡ true
      → used k (set_decision db a decision user).0 ≡ used k db
  used-set_decision approve none p = refl
  used-set_decision approve (some u) p = save_keeps _ refl (ground arith)
  used-set_decision reject none p = refl
  used-set_decision reject (some u) p = save_keeps _ refl (ground arith)
  used-set_decision other none p = refl
  used-set_decision other (some u) p = save_keeps _ refl (ground arith)

  expire_used :
      is_pending a.status ≡ true → used k (save db (record a { status = expired })) ≡ used k db
  expire_used p = save_keeps (record a { status = expired }) refl (ground arith)

  pub used-decide_row :
      (decision : Choice) (user : Option (Option ℕ)) (now : ℤ)
      → used k (decide_row a decision user now db).0 ≡ used k db
  unfolding decide_row
  used-decide_row decision user now = ground (arith, expire_used, used-set_decision decision user)

  pub record_row_executions :
      (show : ℕ → String) (run_id : ℕ) (now : ℤ)
      → executions_for k (record_row show a run_id now db).0.executions
        ≡ executions_for k db.executions + one_if ((record_row show a run_id now db).1.0 && j == k)
  unfolding record_row
  record_row_executions show run_id now = ground (
    arith,
    executions_for-append k db.executions (new_execution show a run_id),
    find_approval_id j db.approvals a found,
  )
