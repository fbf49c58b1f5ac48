-- ===== src/Worker/Consent.antt =====
-- Workers of apps/worker/worker.py call the tool of an approval only after somebody approved it.
use lumi_observatory.Base.{
  ℕ, ◌==◌, Bool, true, false, ◌&&◌, String, ◌≡◌, refl, Option, none, some, arith, inl, inr,
  Option-cases,
}
use lumi_observatory.Base.Int.{ℤ}
use lumi_observatory.Policy.Records.{
  Status, Choice, approve, reject, other, Approval, Db, find_approval, find-append_approval,
  find-write_approval, find_approval_id,
}
use lumi_observatory.Policy.Records
use lumi_observatory.Policy.Service.{
  create, decide_row, consume_row, record_row, decide_id, user_of, decide, set_decision, save,
  decide_with_continuation, consume_id, consume, record_ids, consume_and_record,
  mark_execution_result, continue_decided, Result, ok, raise,
}
use lumi_observatory.Policy.Trace.{
  Op, creating, deciding, consuming, recording, marking, is_id, step, continue_approvals,
}

abbrev pub is_ready : Status → Bool
is_ready Records.approved = true
is_ready Records.consumed = true
is_ready _ = false

abbrev pub ready_row : Option Approval → Bool
ready_row none = false
ready_row (some a) = is_ready a.status

abbrev pub is_approve : Choice → Bool
is_approve approve = true
is_approve _ = false

-- whether the approval is approved or was consumed
abbrev pub ready : ℕ → Db → Bool
ready k db = ready_row (find_approval k db.approvals)

create-Unready :
    (k i : ℕ) (r : Option ℕ) (a t : String) (ttl : ℕ) (now : ℤ) (db : Db)
    → ready k db ≡ false
    → ready k (create i r a t ttl now db).0 ≡ false
unfolding create
create-Unready k i r a t ttl now db h =
    ground (arith, find-append_approval k db.approvals (create i r a t ttl now db).1)

module _ (k j : ℕ) (db : Db) (a : Approval) (found : find_approval j db.approvals ≡ some a)
    (h : ready k db ≡ false) where
  save-Unready :
      (b : Approval)
      → b.id ≡ a.id
      → (is_ready b.status && j == k) ≡ false
      → ready k (save db b) ≡ false
  save-Unready b i c =
      ground (arith, find-write_approval k b db.approvals, find_approval_id j db.approvals a found)

  consume_row-Unready : ready k (consume_row a db).0 ≡ false
  unfolding consume_row
  consume_row-Unready = ground (
    arith,
    find-write_approval k (record a { status = Records.consumed }) db.approvals,
    find_approval_id j db.approvals a found,
  )

  record_row-Unready :
      (show : ℕ → String) (run_id : ℕ) (now : ℤ)
      → ready k (record_row show a run_id now db).0 ≡ false
  unfolding record_row
  record_row-Unready show run_id now = ground (
    arith,
    find-write_approval k (record a { status = Records.consumed }) db.approvals,
    find-write_approval k (record a { status = Records.expired }) db.approvals,
    find_approval_id j db.approvals a found,
  )

  set_decision-Unready :
      (d : Choice) (u : Option (Option ℕ))
      → (is_approve d && j == k) ≡ false
      → ready k (set_decision db a d u).0 ≡ false
  set_decision-Unready approve none c = h
  set_decision-Unready approve (some u) c = save-Unready _ refl c
  set_decision-Unready reject none c = h
  set_decision-Unready reject (some u) c = save-Unready _ refl refl
  set_decision-Unready other none c = h
  set_decision-Unready other (some u) c = save-Unready _ refl refl

  decide_row-Unready :
      (d : Choice) (u : Option (Option ℕ)) (now : ℤ)
      → (is_approve d && j == k) ≡ false
      → ready k (decide_row a d u now db).0 ≡ false
  unfolding decide_row
  decide_row-Unready d u now c =
      let e = save-Unready (record a { status = Records.expired }) refl refl in
      let s = set_decision-Unready d u c in ground (arith, e, s, h)

decide_id-Unready :
    (k : ℕ) (i : Option ℕ) (d : Choice) (u : Option (Option ℕ)) (now : ℤ) (db : Db)
    → (is_approve d && is_id k i) ≡ false
    → ready k db ≡ false
    → ready k (decide_id i d u now db).0 ≡ false
decide_id-Unready k none d u now db c h = h
decide_id-Unready k (some j) d u now db c h = elim (Option-cases (find_approval j db.approvals)) [
  | inl e ↦ rw e h
  | inr (a, e) ↦ rw e (decide_row-Unready k j db a e h d u now c)
]

continue-Unready :
    (k : ℕ) (d : Choice) (now : ℤ) (r : Db × Result Approval)
    → ready k r.0 ≡ false
    → ready k (continue_decided d now r).0 ≡ false
continue-Unready k d now (next, raise e) h = h
continue-Unready k d now (next, ok a) h = let c = continue_approvals a d now next in rw c.0 h

consume_id-Unready :
    (k : ℕ) (i : Option ℕ) (db : Db) → ready k db ≡ false → ready k (consume_id i db).0 ≡ false
consume_id-Unready k none db h = h
consume_id-Unready k (some j) db h = elim (Option-cases (find_approval j db.approvals)) [
  | inl e ↦ rw e h
  | inr (a, e) ↦ rw e (consume_row-Unready k j db a e h)
]

pub record_ids-Unready :
    (show : ℕ → String) (k : ℕ) (i run : Option ℕ) (now : ℤ) (db : Db)
    → ready k db ≡ false
    → ready k (record_ids show i run now db).0 ≡ false
record_ids-Unready show k none none now db h = h
record_ids-Unready show k none (some r) now db h = h
record_ids-Unready show k (some j) none now db h = h
record_ids-Unready show k (some j) (some r) now db h =
    elim (Option-cases (find_approval j db.approvals)) [
      | inl e ↦ rw e h
      | inr (a, e) ↦ rw e (record_row-Unready k j db a e h show r now)
    ]

module _ (parse : String → Option ℕ) (show : ℕ → String) where
  -- whether the call is an approval of the id
  abbrev pub approves : ℕ → Op → Bool
  approves k (deciding i d u now) = is_approve d && is_id k (parse i)
  approves k _ = false

  pub step-Unready :
      (k : ℕ) (op : Op) (db : Db)
      → approves k op ≡ false
      → ready k db ≡ false
      → ready k (step parse show op db) ≡ false
  unfolding step decide_with_continuation decide consume consume_and_record mark_execution_result
  step-Unready k (creating i r a t ttl now) db c h = create-Unready k i r a t ttl now db h
  step-Unready k (deciding i d u now) db c h =
      continue-Unready k d now _ (decide_id-Unready k (parse i) d (user_of parse u) now db c h)
  step-Unready k (consuming i) db c h = consume_id-Unready k (parse i) db h
  step-Unready k (recording i r now) db c h = record_ids-Unready show k (parse i) (parse r) now db h
  step-Unready k (marking i s r) db c h = ground (arith, h)
