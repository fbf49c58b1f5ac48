-- ===== src/Compute/Ledger.antt =====
-- `summarize` of apps/earn/flop_compute.py: the roll-up of the ledger's rows.
use lumi_observatory.Base.{
  ℕ, ◌+◌, Bool, true, ◌&&◌, String, List, [], ◌∷◌, Option, none, some, if◌then◌else◌,
}
use lumi_observatory.Base.Int.{ℤ, pos, ◌+ℤ◌, leb_ℤ}
use lumi_observatory.Base.Text.{◌=ₛ◌}
use lumi_observatory.Compute.Budget.{Result, ok, raise, ◌>>=◌, credit_for_payable}

-- A row as `summarize` reads it: `none` for an absent key.
pub data Row : Type 0 where
  spend : (call : Option String) → (amount : Option ℤ) → Row
  blocked : (reason : Option String) → Row
  dry_run : Row
  settlement : (is_final closed : Bool) → (upheld k_locked : Option ℤ) → Row
  other : Row

abbrev pub Tally : Type 0 → Type 0
Tally A = List (String × A)

pub record Summary : Type 0 where
  pub rows : ℕ
  pub spent_flop : ℤ
  pub spent_by_call : Tally ℤ
  pub blocked_by_reason : Tally ℕ
  pub dry_runs : ℕ
  pub credited_k_locked_flop : ℤ
  pub unlocked_flop : ℕ
  pub pending_settlements : ℕ

abbrev pub empty : Summary
empty = record {
  rows = 0;
  spent_flop = pos 0;
  spent_by_call = [];
  blocked_by_reason = [];
  dry_runs = 0;
  credited_k_locked_flop = pos 0;
  unlocked_flop = 0;
  pending_settlements = 0;
}

-- `d[k] = d.get(k, 0) + x`
unfoldable pub add_amount : String → ℤ → Tally ℤ → Tally ℤ
add_amount k x [] = (k, pos 0 +ℤ x) ∷ []
add_amount k x ((j, n) ∷ rest) = if j =ₛ k then (j, n +ℤ x) ∷ rest else (j, n) ∷ add_amount k x rest

unfoldable pub add_one : String → Tally ℕ → Tally ℕ
add_one k [] = (k, 1) ∷ []
add_one k ((j, n) ∷ rest) = if j =ₛ k then (j, n + 1) ∷ rest else (j, n) ∷ add_one k rest

abbrev pub or_zero : Option ℤ → ℤ
or_zero none = pos 0
or_zero (some n) = n

abbrev pub text_or : String → Option String → String
text_or d none = d
text_or d (some s) = s

-- `not row.get("upheld_disputes")`
abbrev pub no_disputes : Option ℤ → Bool
no_disputes none = true
no_disputes (some n) = leb_ℤ n (pos 0) && leb_ℤ (pos 0) n

-- a settled row: the locked part is credited, and a third of it unlocked
abbrev pub credited : Summary → Option ℤ → ℕ → Result Summary
credited s k_locked unlocked = ok (record s {
  rows = s.rows + 1;
  credited_k_locked_flop = s.credited_k_locked_flop +ℤ or_zero k_locked;
  unlocked_flop = s.unlocked_flop + unlocked;
})

-- one turn of the loop
unfoldable pub tally : Summary → Row → Result Summary
unfolding add_amount add_one
tally s (spend call amount) =
    let a = or_zero amount in
    ok (record s {
      rows = s.rows + 1;
      spent_flop = s.spent_flop +ℤ a;
      spent_by_call = add_amount (text_or "?" call) a s.spent_by_call;
    })
tally s (blocked reason) = ok (record s {
  rows = s.rows + 1;
  blocked_by_reason = add_one (text_or "unknown" reason) s.blocked_by_reason;
})
tally s dry_run = ok (record s { rows = s.rows + 1; dry_runs = s.dry_runs + 1 })
tally s (settlement is_final closed upheld k_locked) =
    if is_final && (closed && no_disputes upheld)
    then credit_for_payable (or_zero k_locked) >>= credited s k_locked
    else ok (record s { rows = s.rows + 1; pending_settlements = s.pending_settlements + 1 })
tally s other = ok (record s { rows = s.rows + 1 })

unfoldable pub summarize_from : Summary → List Row → Result Summary
summarize_from s [] = ok s
summarize_from s (row ∷ rest) = elim (tally s row) [
  | ok t ↦ summarize_from t rest
  | raise e ↦ raise e
]

unfoldable pub summarize : List Row → Result Summary
unfolding summarize_from
summarize = summarize_from empty

-- `sum(blocked_by_reason.values())`
unfoldable pub blocked_total : Tally ℕ → ℕ
blocked_total [] = 0
blocked_total ((k, n) ∷ rest) = n + blocked_total rest
