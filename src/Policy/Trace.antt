-- ===== src/Policy/Trace.antt =====
-- Any sequence of calls of the approval service: each approval is granted at most once, and has at most
-- one execution.
use lumi_observatory.Base.{
  ℕ, ◌+◌, ◌≤◌, ◌==◌, Bool, false, ◌&&◌, String, List, [], ◌∷◌, ◌≡◌, refl, Option, none, some, arith,
  inl, inr, Option-cases,
}
use lumi_observatory.Base.Int.{ℤ}
use lumi_observatory.Policy.Records.{
  Choice, Approval, Execution, Db, find_approval, find_execution, find-append_approval,
}
use lumi_observatory.Policy.Service.{
  Result, ok, raise, create, decide_row, consume_row, record_row, decide_id, user_of, decide,
  continue_run, continue_id, continue_decided, decide_with_continuation, consume_id, consume,
  record_ids, consume_and_record, mark_found, mark_id, mark_execution_result,
}
use lumi_observatory.Policy.Once.{
  used, one_if, executions_for, executions_for-write, consume_row-used, record_row-used,
  used-decide_row, record_row_executions,
}

pub data Op : Type 0 where
  creating : (new_id : ℕ) (run_id : Option ℕ) (action_id tool : String) (ttl : ℕ) (now : ℤ) → Op
  deciding : (approval_id : String) (decision : Choice) (user_id : String) (now : ℤ) → Op
  consuming : (approval_id : String) → Op
  recording : (approval_id run_id : String) (now : ℤ) → Op
  marking : (approval_id status : String) (result : Option String) → Op

abbrev pub is_id : ℕ → Option ℕ → Bool
is_id k none = false
is_id k (some j) = j == k

module _ (parse : String → Option ℕ) (show : ℕ → String) where
  unfoldable pub step : Op → Db → Db
  step (creating i r a t ttl now) db = (create i r a t ttl now db).0
  step (deciding i d u now) db = (decide_with_continuation parse i d u now db).0
  step (consuming i) db = (consume parse i db).0
  step (recording i r now) db = (consume_and_record parse show i r now db).0
  step (marking i s r) db = mark_execution_result parse i s r db

  -- 1 where the call hands the caller the approval with id `k`
  unfoldable pub granted : ℕ → Op → Db → ℕ
  granted k (consuming i) db = one_if ((consume parse i db).1 && is_id k (parse i))
  granted k (recording i r now) db =
      one_if ((consume_and_record parse show i r now db).1.0 && is_id k (parse i))
  granted k _ db = 0

  unfoldable pub run_ops : List Op → Db → Db
  run_ops [] db = db
  run_ops (op ∷ ops) db = run_ops ops (step op db)

  -- how often a sequence of calls grants the approval
  unfoldable pub grants : ℕ → List Op → Db → ℕ
  grants k [] db = 0
  grants k (op ∷ ops) db = granted k op db + grants k ops (step op db)

-- what one call may do: it grants only by making the approval consumed, and adds an execution only so
abbrev pub Careful : ℕ → ℕ → Db → Db → Type 0
Careful k g db next =
    (g + used k db ≤ used k next)
    × (executions_for k next.executions + used k db ≤ executions_for k db.executions + used k next)

same-Careful :
    (k : ℕ) (db next : Db)
    → used k next ≡ used k db
    → next.executions ≡ db.executions
    → Careful k 0 db next
same-Careful k db next u e = (ground arith, rw e (ground arith))

create-Careful :
    (k i : ℕ) (r : Option ℕ) (a t : String) (ttl : ℕ) (now : ℤ) (db : Db)
    → Careful k 0 db (create i r a t ttl now db).0
unfolding create
create-Careful k i r a t ttl now db =
    ground (arith, find-append_approval k db.approvals (create i r a t ttl now db).1)

decide_row_executions :
    (a : Approval) (d : Choice) (u : Option (Option ℕ)) (now : ℤ) (db : Db)
    → (decide_row a d u now db).0.executions ≡ db.executions
unfolding decide_row
decide_row_executions a d u now db = ground arith

decide_id-Careful :
    (k : ℕ) (i : Option ℕ) (d : Choice) (u : Option (Option ℕ)) (now : ℤ) (db : Db)
    → Careful k 0 db (decide_id i d u now db).0
decide_id-Careful k none d u now db = same-Careful k db db refl refl
decide_id-Careful k (some j) d u now db = elim (Option-cases (find_approval j db.approvals)) [
  | inl e ↦ rw e (same-Careful k db db refl refl)
  | inr (a, e) ↦ rw e (
      same-Careful k db (decide_row a d u now db).0 (used-decide_row k j db a e d u now)
        (decide_row_executions a d u now db))
]

pub continue_approvals :
    (a : Approval) (d : Choice) (now : ℤ) (db : Db)
    → ((continue_id a d now db a.run_id).approvals ≡ db.approvals)
      × ((continue_id a d now db a.run_id).executions ≡ db.executions)
unfolding continue_run
continue_approvals a d now db = ground arith

continue-Careful :
    (k : ℕ) (d : Choice) (now : ℤ) (db : Db) (r : Db × Result Approval)
    → Careful k 0 db r.0
    → Careful k 0 db (continue_decided d now r).0
continue-Careful k d now db (next, raise e) h = h
continue-Careful k d now db (next, ok a) h =
    let c = continue_approvals a d now next in rw (c.0, c.1) h

consume_row_executions : (a : Approval) (db : Db) → (consume_row a db).0.executions ≡ db.executions
unfolding consume_row
consume_row_executions a db = ground arith

raises-Careful :
    (k g : ℕ) (db next : Db)
    → g + used k db ≤ used k next
    → executions_for k next.executions ≤ executions_for k db.executions + g
    → Careful k g db next
raises-Careful k g db next a b = (a, omega arith)

consume_id-Careful :
    (k : ℕ) (i : Option ℕ) (db : Db)
    → Careful k (one_if ((consume_id i db).1 && is_id k i)) db (consume_id i db).0
consume_id-Careful k none db = same-Careful k db db refl refl
consume_id-Careful k (some j) db = elim (Option-cases (find_approval j db.approvals)) [
  | inl e ↦ rw e (same-Careful k db db refl refl)
  | inr (a, e) ↦ rw e (
      raises-Careful k _ db (consume_row a db).0 (consume_row-used k j db a e)
        (rw (consume_row_executions a db) (omega arith)))
]

pub record_ids-Careful :
    (show : ℕ → String) (k : ℕ) (i run : Option ℕ) (now : ℤ) (db : Db)
    → Careful k
        (one_if ((record_ids show i run now db).1.0 && is_id k i))
        db
        (record_ids show i run now db).0
record_ids-Careful show k none none now db = same-Careful k db db refl refl
record_ids-Careful show k none (some r) now db = same-Careful k db db refl refl
record_ids-Careful show k (some j) none now db = same-Careful k db db refl refl
record_ids-Careful show k (some j) (some r) now db =
    elim (Option-cases (find_approval j db.approvals)) [
      | inl e ↦ rw e (same-Careful k db db refl refl)
      | inr (a, e) ↦ rw e (
          raises-Careful k _ db (record_row show a r now db).0
            (record_row-used k j db a e show r now)
            (rw (record_row_executions k j db a e show r now) (omega arith)))
    ]

mark_id-Careful :
    (k : ℕ) (i : Option ℕ) (s : String) (r : Option String) (db : Db)
    → Careful k 0 db (mark_id i s r db)
mark_id-Careful k none s r db = same-Careful k db db refl refl
mark_id-Careful k (some j) s r db = elim (Option-cases (find_execution j db.executions)) [
  | inl e ↦ rw e (same-Careful k db db refl refl)
  | inr (x, e) ↦ rw e (mark_found_careful k x s r db)
]
  where
    mark_found_careful :
        (k : ℕ) (x : Execution) (s : String) (r : Option String) (db : Db)
        → Careful k 0 db (mark_found (some x) s r db)
    mark_found_careful k x s none db = (
      omega arith,
      rw (executions_for-write k (record x { status = s }) db.executions) (omega arith),
    )
    mark_found_careful k x s (some t) db = (
      omega arith,
      rw (executions_for-write k (record x { status = s; result = t }) db.executions) (omega arith),
    )

module _ (parse : String → Option ℕ) (show : ℕ → String) where
  pub step-Careful :
      (k : ℕ) (op : Op) (db : Db)
      → Careful k (granted parse show k op db) db (step parse show op db)
  unfolding granted step decide_with_continuation decide consume consume_and_record
      mark_execution_result
  step-Careful k (creating i r a t ttl now) db = create-Careful k i r a t ttl now db
  step-Careful k (deciding i d u now) db =
      continue-Careful k d now db _ (decide_id-Careful k (parse i) d (user_of parse u) now db)
  step-Careful k (consuming i) db = consume_id-Careful k (parse i) db
  step-Careful k (recording i r now) db = record_ids-Careful show k (parse i) (parse r) now db
  step-Careful k (marking i s r) db = mark_id-Careful k (parse i) s r db

  -- over a sequence of calls, the grants and the new executions are paid for by the consumed state
  run-Careful :
      (k : ℕ) (ops : List Op) (db : Db)
      → Careful k (grants parse show k ops db) db (run_ops parse show ops db)
  unfolding grants run_ops
  run-Careful k [] db = same-Careful k db db refl refl
  run-Careful k (op ∷ ops) db =
      let h = step-Careful k op db in
      let i = run-Careful k ops (step parse show op db) in
      (omega (arith, h.0, i.0), omega (arith, h.0, h.1, i.0, i.1))

pub used_at_most_one : (k : ℕ) (db : Db) → used k db ≤ 1
used_at_most_one k db = ground arith

-- Whatever the database holds and whatever the order of calls of the service (create, decide, consume,
-- consume_and_record, mark_execution_result), one approval id is granted to callers at most once, and
-- not at all where the approval was already consumed; afterwards it is consumed if it was granted.
pub grants-run_ops :
    (parse : String → Option ℕ) (show : ℕ → String) (k : ℕ) (ops : List Op) (db : Db)
    → grants parse show k ops db + used k db ≤ used k (run_ops parse show ops db)
      × (used k (run_ops parse show ops db) ≤ 1)
grants-run_ops parse show k ops db =
    ((run-Careful parse show k ops db).0, used_at_most_one k (run_ops parse show ops db))

-- From a database where an approval has at most the executions its consumption accounts for, any sequence of calls of
-- the approval service keeps it so, and after it the approval has no two executions.
pub executions-run_ops :
    (parse : String → Option ℕ) (show : ℕ → String) (k : ℕ) (ops : List Op) (db : Db)
    → executions_for k db.executions ≤ used k db
    → (executions_for k (run_ops parse show ops db).executions ≤ used k (run_ops parse show ops db))
      × (executions_for k (run_ops parse show ops db).executions ≤ 1)
executions-run_ops parse show k ops db h =
    let i = (run-Careful parse show k ops db).1 in
    let j = used_at_most_one k (run_ops parse show ops db) in (omega arith, omega arith)
