-- ===== src/Policy/Decided.antt =====
-- What a decision leads to: it is final, and an approved row is consumed by the next caller and by no other.
use lumi_observatory.Base.{
  ℕ, true, false, String, ◌≡◌, Option, none, some, arith, inl, inr, Option-cases,
}
use lumi_observatory.Base.Int.{ℤ}
use lumi_observatory.Policy.Records.{
  Choice, Approval, Db, find_approval, find-write_approval, find_approval_id,
}
use lumi_observatory.Policy.Service.{
  ok, raise, already_decided, save, is_pending, is_past, is_approved, status_for, decide_row,
  decide_id, user_of, decide, consume_row, consume_id, consume,
}

-- the row with its decision
abbrev pub with_decision : Approval → Choice → Option ℕ → Approval
with_decision a d user = record a { status = status_for d; decision = some d; decided_by = user }

row_decided :
    (a b : Approval) (d : Choice) (u : Option (Option ℕ)) (now : ℤ) (db : Db)
    → (decide_row a d u now db).1 ≡ ok b
    → (is_pending a.status ≡ true)
      × (is_past a.expires_at now ≡ false)
      × (b.status ≡ status_for d)
      × (b.id ≡ a.id)
      × (decide_row a d u now db).0 ≡ save db b
unfolding decide_row
row_decided a b d u now db h = ground arith

module _ (j : ℕ) (db : Db) (a b : Approval) (found : find_approval j db.approvals ≡ some a)
    (same : b.id ≡ a.id) where
  find_saved : find_approval j (save db b).approvals ≡ some b
  find_saved =
      ground (arith, find-write_approval j b db.approvals, find_approval_id j db.approvals a found)

  redecide_row :
      (d : Choice)
      → b.status ≡ status_for d
      → (e : Choice) (u : Option (Option ℕ)) (now : ℤ) (next : Db)
      → decide_row b e u now next ≡ (next, raise (already_decided b.status))
  unfolding decide_row
  redecide_row d s e u now next = ground arith

  consume_row_of :
      (d : Choice)
      → b.status ≡ status_for d
      → (next : Db) → (consume_row b next).1 ≡ is_approved b.status
  unfolding consume_row
  consume_row_of d s next = ground arith

abbrev pub Final : (String → Option ℕ) → String → Choice → Db × Approval → Type 0
Final parse i d (next, b) =
    (b.status ≡ status_for d)
    × ((e : Choice) (v : String) (later : ℤ)
        → decide parse i e v later next ≡ (next, raise (already_decided b.status)))
    × ((consume parse i next).1 ≡ is_approved b.status)

id_final :
    (k : Option ℕ) (b : Approval) (d : Choice) (u : Option (Option ℕ)) (now : ℤ) (db : Db)
    → (decide_id k d u now db).1 ≡ ok b
    → (b.status ≡ status_for d)
      × ((e : Choice) (v : Option (Option ℕ)) (later : ℤ)
          → decide_id k e v later (decide_id k d u now db).0
            ≡ ((decide_id k d u now db).0, raise (already_decided b.status)))
      × ((consume_id k (decide_id k d u now db).0).1 ≡ is_approved b.status)
id_final none b d u now db = λ h. absurd (cc)
id_final (some k) b d u now db = elim (Option-cases (find_approval k db.approvals)) [
  | inl e ↦ rw e (λ h. absurd (cc))
  | inr (a, e) ↦ rw e (λ h.
      let r = row_decided a b d u now db h in
      let f = find_saved k db a b e r.3 in
      rw (r.4, f)
        (
          r.2,
          λ c v later. redecide_row k db a b e r.3 d r.2 c v later (save db b),
          consume_row_of k db a b e r.3 d r.2 (save db b),
        ))
]

-- When a decision on an approval is accepted, the row was given the status of that choice; every later
-- decision on it is refused with that status and changes nothing; and the next `consume` succeeds exactly
-- when the choice was to approve.
pub decide-Final :
    (parse : String → Option ℕ) (i : String) (b : Approval) (d : Choice) (u : String) (now : ℤ)
    (db : Db)
    → (decide parse i d u now db).1 ≡ ok b
    → Final parse i d ((decide parse i d u now db).0, b)
unfolding decide consume
decide-Final parse i b d u now db h =
    let f = id_final (parse i) b d (user_of parse u) now db h in
    (f.0, λ e v later. f.1 e (user_of parse v) later, f.2)
