-- ===== src/Compute/Counts.antt =====
-- The counts of `summarize` against those of the ledger's rows.
use mathlib.Core.Path.{subst}
use lumi_observatory.Base.{
  ℕ, ◌+◌, Bool, false, ◌&&◌, List, [], ◌∷◌, ◌≡◌, refl, arith, length, if◌then◌else◌, Bool-cases,
  inl, inr, ◌∙◌, sym,
}
use lumi_observatory.Base.Int.{ℤ, pos, ◌+ℤ◌, int_laws}
use lumi_observatory.Compute.Budget.{ok, ok_inj, chain_returned, credit_for_payable}
use lumi_observatory.Compute.Ledger.{
  credited, Row, spend, blocked, dry_run, settlement, other, Summary, empty, or_zero, text_or,
  no_disputes, tally, summarize_from, summarize, blocked_total,
}
use lumi_observatory.Compute.Report.{
  IsConsistent, summarize_step, summarize_from-IsConsistent, total-add_one, +ℤ-zero, spent_in,
  summarize_from_counts,
}

-- what one row adds to each count of the report
abbrev pub blocked_row : Row → ℕ
blocked_row (blocked reason) = 1
blocked_row _ = 0

abbrev pub dry_row : Row → ℕ
dry_row dry_run = 1
dry_row _ = 0

-- final, after the dispute window, without upheld disputes
abbrev pub is_settled : Row → Bool
is_settled (settlement f c u k) = f && (c && no_disputes u)
is_settled _ = false

abbrev pub pending_row : Row → ℕ
pending_row (settlement f c u k) = if is_settled (settlement f c u k) then 0 else 1
pending_row _ = 0

abbrev pub credited_row : Row → ℤ
credited_row (settlement f c u k) = if is_settled (settlement f c u k) then or_zero k else pos 0
credited_row _ = pos 0

abbrev pub total : (Row → ℕ) → List Row → ℕ
total count [] = 0
total count (row ∷ rows) = let n = total count rows in count row + n

abbrev pub total_ℤ : (Row → ℤ) → List Row → ℤ
total_ℤ amount [] = pos 0
total_ℤ amount (row ∷ rows) = let n = total_ℤ amount rows in amount row +ℤ n

-- one summary after another, with what rows add in between
record Adds (s t : Summary) (blocks dries pendings : ℕ) (credit : ℤ) : Type 0 where
  blocked_rows : blocked_total t.blocked_by_reason ≡ blocked_total s.blocked_by_reason + blocks
  dry_rows : t.dry_runs ≡ s.dry_runs + dries
  pending_rows : t.pending_settlements ≡ s.pending_settlements + pendings
  credited_rows : t.credited_k_locked_flop ≡ s.credited_k_locked_flop +ℤ credit

tally-Adds :
    (s : Summary) (row : Row) (t : Summary)
    → tally s row ≡ ok t
    → Adds s t (blocked_row row) (dry_row row) (pending_row row) (credited_row row)
unfolding tally
tally-Adds s (spend call amount) t e =
    subst (λ (x : Summary). Adds s x 0 0 0 (pos 0)) (ok_inj e)
      (record {
        blocked_rows = omega arith;
        dry_rows = omega arith;
        pending_rows = omega arith;
        credited_rows = sym (+ℤ-zero s.credited_k_locked_flop);
      })
tally-Adds s (blocked reason) t e =
    subst (λ (x : Summary). Adds s x 1 0 0 (pos 0)) (ok_inj e)
      (record {
        blocked_rows = total-add_one (text_or "unknown" reason) s.blocked_by_reason;
        dry_rows = omega arith;
        pending_rows = omega arith;
        credited_rows = sym (+ℤ-zero s.credited_k_locked_flop);
      })
tally-Adds s dry_run t e =
    subst (λ (x : Summary). Adds s x 0 1 0 (pos 0)) (ok_inj e)
      (record {
        blocked_rows = omega arith;
        dry_rows = refl;
        pending_rows = omega arith;
        credited_rows = sym (+ℤ-zero s.credited_k_locked_flop);
      })
tally-Adds s (settlement f c u k) t e = elim (Bool-cases (f && (c && no_disputes u))) [
  | inr b ↦ rw b (
      subst (λ (x : Summary). Adds s x 0 0 1 (pos 0)) (ok_inj (rw b at e))
        (record {
          blocked_rows = omega arith;
          dry_rows = omega arith;
          pending_rows = refl;
          credited_rows = sym (+ℤ-zero s.credited_k_locked_flop);
        }))
  | inl b ↦
      let (v, p, q) = chain_returned (credit_for_payable (or_zero k)) (credited s k) (rw b at e) in
      rw b (
        subst (λ (x : Summary). Adds s x 0 0 0 (or_zero k)) (ok_inj q)
          (record {
            blocked_rows = omega arith;
            dry_rows = omega arith;
            pending_rows = omega arith;
            credited_rows = refl;
          }))
]
tally-Adds s other t e =
    subst (λ (x : Summary). Adds s x 0 0 0 (pos 0)) (ok_inj e)
      (record {
        blocked_rows = omega arith;
        dry_rows = omega arith;
        pending_rows = omega arith;
        credited_rows = sym (+ℤ-zero s.credited_k_locked_flop);
      })

add_credits : (a b c x y : ℤ) → b ≡ a +ℤ x → c ≡ b +ℤ y → c ≡ a +ℤ (x +ℤ y)
add_credits a b c x y h k = k ∙ rw h (omega int_laws)

summarize_from-Adds :
    (s : Summary) (rows : List Row) (t : Summary)
    → summarize_from s rows ≡ ok t
    → Adds s t
        (total blocked_row rows)
        (total dry_row rows)
        (total pending_row rows)
        (total_ℤ credited_row rows)
unfolding summarize_from
summarize_from-Adds s [] t e =
    subst (λ (x : Summary). Adds s x 0 0 0 (pos 0)) (ok_inj e)
      (record {
        blocked_rows = omega arith;
        dry_rows = omega arith;
        pending_rows = omega arith;
        credited_rows = sym (+ℤ-zero s.credited_k_locked_flop);
      })
summarize_from-Adds s (row ∷ rows) t e =
    let (u, p, q) = summarize_step s row rows t e in
    let a = tally-Adds s row u p in
    let b = summarize_from-Adds u rows t q in
    record {
      blocked_rows = omega (arith, a.blocked_rows, b.blocked_rows);
      dry_rows = omega (arith, a.dry_rows, b.dry_rows);
      pending_rows = omega (arith, a.pending_rows, b.pending_rows);
      credited_rows =
          add_credits s.credited_k_locked_flop u.credited_k_locked_flop t.credited_k_locked_flop
            (credited_row row) (total_ℤ credited_row rows) a.credited_rows b.credited_rows;
    }

-- the counts and sums of a report, each against its rows
pub record AddsUp (rows : List Row) (t : Summary) : Type 0 where
  pub all_rows : t.rows ≡ length rows
  pub spent : t.spent_flop ≡ spent_in rows
  pub refused : blocked_total t.blocked_by_reason ≡ total blocked_row rows
  pub dry : t.dry_runs ≡ total dry_row rows
  pub pending : t.pending_settlements ≡ total pending_row rows
  pub locked : t.credited_k_locked_flop ≡ total_ℤ credited_row rows

zero-+ℤ : (a : ℤ) → pos 0 +ℤ a ≡ a
zero-+ℤ a = omega int_laws

-- The report of any ledger adds up: it counts every row, the refusals, the dry runs and the pending settlements, and
-- sums what was spent and what settled rows credit, as the rows have them; the amounts by call make up the amount
-- spent, and three times what is unlocked never passes what was credited.
pub summarize-AddsUp :
    (rows : List Row) (t : Summary) → summarize rows ≡ ok t → AddsUp rows t × IsConsistent t
unfolding summarize blocked_total
summarize-AddsUp rows t e =
    let a = summarize_from-Adds empty rows t e in
    let (n, s) = summarize_from_counts empty rows t e in
    (
      record {
        all_rows = omega (arith, n);
        spent = s ∙ zero-+ℤ (spent_in rows);
        refused = omega (arith, a.blocked_rows);
        dry = omega (arith, a.dry_rows);
        pending = omega (arith, a.pending_rows);
        locked = a.credited_rows ∙ zero-+ℤ (total_ℤ credited_row rows);
      },
      summarize_from-IsConsistent empty rows t
          (record { by_call = refl; every_row = omega arith; unlocks_a_third = omega arith }) e,
    )
