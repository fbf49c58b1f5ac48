-- ===== src/Compute/Report.antt =====
-- What `summarize` reports of any ledger.
use mathlib.Core.Path.{subst}
use lumi_observatory.Base.{
  ℕ, ◌+◌, ◌*◌, ◌≤◌, ◌&&◌, String, List, [], ◌∷◌, ◌++◌, ◌≡◌, refl, ap, ◌∙◌, arith, length,
  Bool-cases, inl, inr,
}
use lumi_observatory.Base.Int.{ℤ, pos, negsuc, ◌+ℤ◌, int_laws, ◌≤ℤ◌}
use lumi_observatory.Base.Text.{◌=ₛ◌}
use lumi_observatory.Compute.Budget.{Result, ok, raise, ok_inj, chain_returned, credit_for_payable}
use lumi_observatory.Compute.Ledger.{
  credited, Row, spend, blocked, dry_run, settlement, other, Tally, Summary, add_amount, add_one,
  or_zero, text_or, no_disputes, tally, summarize_from, blocked_total,
}

-- `sum(d.values())` of the amounts by call
abbrev pub sum_amounts : Tally ℤ → ℤ
sum_amounts [] = pos 0
sum_amounts ((k, x) ∷ rest) = x +ℤ sum_amounts rest

-- the amounts that the ledger's spend rows carry
abbrev pub row_amount : Row → ℤ
row_amount (spend call amount) = or_zero amount
row_amount _ = pos 0

abbrev pub spent_in : List Row → ℤ
spent_in [] = pos 0
spent_in (row ∷ rows) = row_amount row +ℤ spent_in rows

sum-add_amount :
    (k : String) (x : ℤ) (t : Tally ℤ) → sum_amounts (add_amount k x t) ≡ sum_amounts t +ℤ x
unfolding add_amount
sum-add_amount k x [] = omega int_laws
sum-add_amount k x ((j, n) ∷ rest) = elim (Bool-cases (j =ₛ k)) [
  | inl e ↦ rw e (omega int_laws)
  | inr e ↦ rw e (rw (sum-add_amount k x rest) (omega int_laws))
]

pub total-add_one : (k : String) (t : Tally ℕ) → blocked_total (add_one k t) ≡ blocked_total t + 1
unfolding add_one blocked_total
total-add_one k [] = omega arith
total-add_one k ((j, n) ∷ rest) = ground (arith, total-add_one k rest)

-- What the parts of a report have to do with one another.
pub record IsConsistent (s : Summary) : Type 0 where
  pub by_call : sum_amounts s.spent_by_call ≡ s.spent_flop
  pub every_row : blocked_total s.blocked_by_reason + s.dry_runs + s.pending_settlements ≤ s.rows
  pub unlocks_a_third : pos (3 * s.unlocked_flop) ≤ℤ s.credited_k_locked_flop

settled_third :
    (k : ℤ) (u : ℕ) (c : ℤ) (v : ℕ)
    → pos (3 * u) ≤ℤ c
    → credit_for_payable k ≡ ok v
    → pos (3 * (u + v)) ≤ℤ c +ℤ k
unfolding credit_for_payable ◌+ℤ◌
settled_third (pos n) u c v h e = ground arith
settled_third (negsuc n) u c v h e = ground arith

pub summarize_step :
    (s : Summary) (row : Row) (rows : List Row) (t : Summary)
    → summarize_from s (row ∷ rows) ≡ ok t
    → (u : Summary) × (tally s row ≡ ok u) × (summarize_from u rows ≡ ok t)
unfolding summarize_from
summarize_step s row rows t e = go (tally s row) refl e
  where
    go :
        (v : Result Summary)
        → tally s row ≡ v
        → (elim v as (λ _. Result Summary) [ ok u ↦ summarize_from u rows | raise x ↦ raise x ])
          ≡ ok t
        → (u : Summary) × (tally s row ≡ ok u) × (summarize_from u rows ≡ ok t)
    go (ok u) p q = (u, p, q)
    go (raise x) p q = cc

tally-IsConsistent :
    (s : Summary) (row : Row) (t : Summary) → IsConsistent s → tally s row ≡ ok t → IsConsistent t
unfolding tally
tally-IsConsistent s (spend call amount) t h e = subst IsConsistent (ok_inj e) (record {
  by_call = rw (sum-add_amount (text_or "?" call) (or_zero amount) s.spent_by_call, h.by_call);
  every_row = omega (arith, h.every_row);
  unlocks_a_third = h.unlocks_a_third;
})
tally-IsConsistent s (blocked reason) t h e = subst IsConsistent (ok_inj e) (record {
  by_call = h.by_call;
  every_row =
      rw (total-add_one (text_or "unknown" reason) s.blocked_by_reason)
        (omega (arith, h.every_row));
  unlocks_a_third = h.unlocks_a_third;
})
tally-IsConsistent s dry_run t h e = subst IsConsistent (ok_inj e) (record {
  by_call = h.by_call;
  every_row = omega (arith, h.every_row);
  unlocks_a_third = h.unlocks_a_third;
})
tally-IsConsistent s (settlement f c u k) t h e = elim (Bool-cases (f && (c && no_disputes u))) [
  | inr b ↦ subst IsConsistent (ok_inj (rw b at e)) (record {
    by_call = h.by_call;
    every_row = omega (arith, h.every_row);
    unlocks_a_third = h.unlocks_a_third;
  })
  | inl b ↦
      let (v, p, q) = chain_returned (credit_for_payable (or_zero k)) (credited s k) (rw b at e) in
      subst IsConsistent (ok_inj q) (record {
        by_call = h.by_call;
        every_row = omega (arith, h.every_row);
        unlocks_a_third =
            settled_third (or_zero k) s.unlocked_flop s.credited_k_locked_flop v h.unlocks_a_third
              p;
      })
]
tally-IsConsistent s other t h e = subst IsConsistent (ok_inj e) (record {
  by_call = h.by_call;
  every_row = omega (arith, h.every_row);
  unlocks_a_third = h.unlocks_a_third;
})

pub summarize_from-IsConsistent :
    (s : Summary) (rows : List Row) (t : Summary)
    → IsConsistent s
    → summarize_from s rows ≡ ok t
    → IsConsistent t
unfolding summarize_from
summarize_from-IsConsistent s [] t h e = subst IsConsistent (ok_inj e) h
summarize_from-IsConsistent s (row ∷ rows) t h e =
    let (u, p, q) = summarize_step s row rows t e in
    summarize_from-IsConsistent u rows t (tally-IsConsistent s row u h p) q

pub +ℤ-zero : (a : ℤ) → a +ℤ pos 0 ≡ a
+ℤ-zero a = omega int_laws

tally_counts :
    (s : Summary) (row : Row) (t : Summary)
    → tally s row ≡ ok t
    → (t.rows ≡ s.rows + 1) × (t.spent_flop ≡ s.spent_flop +ℤ row_amount row)
unfolding tally credit_for_payable
tally_counts s (spend call amount) t e = ground arith
tally_counts s (settlement f c u k) t e = ground (arith, +ℤ-zero s.spent_flop)
tally_counts s _ t e = ground (arith, +ℤ-zero s.spent_flop)

pub summarize_from_counts :
    (s : Summary) (rows : List Row) (t : Summary)
    → summarize_from s rows ≡ ok t
    → (t.rows ≡ s.rows + length rows) × (t.spent_flop ≡ s.spent_flop +ℤ spent_in rows)
unfolding summarize_from
summarize_from_counts s [] t e =
    let q = ok_inj e in (ground (arith, q), ground (arith, +ℤ-zero s.spent_flop, q))
summarize_from_counts s (row ∷ rows) t e =
    let (u, p, q) = summarize_step s row rows t e in
    let (a, b) = tally_counts s row u p in
    let (c, d) = summarize_from_counts u rows t q in
    (omega (arith, a, c), d ∙ (rw b (omega int_laws)))

pub summarize_from-append :
    (z : Summary) (old new : List Row) (s : Summary)
    → summarize_from z old ≡ ok s
    → summarize_from z (old ++ new) ≡ summarize_from s new
unfolding summarize_from
summarize_from-append z [] new s e = ap (λ (x : Summary). summarize_from x new) (ok_inj e)
summarize_from-append z (row ∷ old) new s e =
    let (u, p, q) = summarize_step z row old s e in
    rw (p, summarize_from) (summarize_from-append u old new s q)
