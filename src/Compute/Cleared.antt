-- ===== src/Compute/Cleared.antt =====
-- What an attempt that buys, or that reports a spend, has passed; and the two calls whose reply the
-- attempt cannot read.
use lumi_observatory.Base.{
  ℕ, ◌+◌, ◌≤◌, Bool, true, false, not, ◌||◌, String, [], ◌∷◌, ◌≡◌, refl, arith, ◌⊎◌, inl, inr,
  is_nil, Bool-cases,
}
use lumi_observatory.Base.Int.{ℤ, pos, pos_part, leb_ℤ, max_zero, ◌<ℤ◌}
use lumi_observatory.Base.Text.{◌=ₛ◌, one_of}
use lumi_observatory.Compute.Budget.{
  key_error, type_error, attribute_error, Result, ok, raise, spendable_calls, spend_cap,
}
use lumi_observatory.Compute.Client.{World, receipt, client_available, client_call}
use lumi_observatory.Compute.Spend.{
  spend, Attempt, Request, given_or, Attempted, capped, attempt_live, attempt_within, attempt_spend,
}

-- the attempt bought something, or its row says that it spent
abbrev pub is_spend : Result Attempt → Bool
is_spend (raise e) = false
is_spend (ok row) = elim row.outcome [ spend tx ↦ true | _ ↦ false ]

abbrev pub acts : Attempted → Bool
acts a = not (is_nil a.0) || is_spend a.1

-- Every test that stands before the client, with the ceiling that was computed.
pub record IsCleared (w : World) (r : Request) (cap : ℕ) : Type 0 where
  pub known : one_of r.call spendable_calls ≡ true
  pub positive : pos 0 <ℤ r.amount_flop
  pub ceiling : spend_cap r.principal r.ratio ≡ ok cap
  pub fits : max_zero r.spent_flop + pos_part r.amount_flop ≤ cap
  pub live : r.dry_run ≡ false
  pub allowed : given_or r.enabled w.enabled ≡ true

within_cleared :
    (w : World) (r : Request) (cap : ℕ)
    → pos 0 <ℤ r.amount_flop
    → acts (attempt_within w r cap) ≡ true
    → (max_zero r.spent_flop + pos_part r.amount_flop ≤ cap)
      × (r.dry_run ≡ false)
      × (given_or r.enabled w.enabled ≡ true)
unfolding attempt_within
within_cleared w r cap p h = ground arith

capped-IsCleared :
    (w : World) (r : Request) (v : Result ℕ)
    → spend_cap r.principal r.ratio ≡ v
    → one_of r.call spendable_calls ≡ true
    → pos 0 <ℤ r.amount_flop
    → acts (capped w r v) ≡ true
    → (cap : ℕ) × IsCleared w r cap
capped-IsCleared w r (raise e) q k p h = cc
capped-IsCleared w r (ok cap) q k p h =
    let (f, l, a) = within_cleared w r cap p h in
    (cap, record { known = k; positive = p; ceiling = q; fits = f; live = l; allowed = a })

not_positive : (n : ℤ) → leb_ℤ n (pos 0) ≡ false → pos 0 <ℤ n
not_positive n h = ground arith

-- Whatever the world answers: an attempt that makes a purchase, or whose row says that it spent, was
-- for a spendable call, a positive amount that fits under the ceiling beside what is already spent,
-- was no dry run, and was enabled.
pub attempt_spend-IsCleared :
    (w : World) (r : Request) → acts (attempt_spend w r) ≡ true → (cap : ℕ) × IsCleared w r cap
unfolding attempt_spend
attempt_spend-IsCleared w r h = elim (Bool-cases (one_of r.call spendable_calls)) [
  | inr k ↦ cc (rw k at h)
  | inl k ↦ elim (Bool-cases (leb_ℤ r.amount_flop (pos 0))) [
    | inl p ↦ cc (rw (k, p) at h)
    | inr p ↦
        capped-IsCleared w r (spend_cap r.principal r.ratio) refl k (not_positive r.amount_flop p)
          (rw (k, p) at h)
  ]
]

-- the attempt of a cleared request is the live one
cleared_live :
    (w : World) (r : Request) (cap : ℕ) → IsCleared w r cap → attempt_spend w r ≡ attempt_live w r
unfolding attempt_spend attempt_within
cleared_live w r cap h = ground (arith, h.ceiling)

-- The row of a cleared attempt quotes the client's detail when the client is not available, and it
-- calls the client for that: where only the chain client is configured, the call buys, its receipt has
-- no detail, and the attempt raises a `KeyError`, so that the purchase is never recorded.
pub unrecorded_purchase :
    (w : World) (r : Request) (cap : ℕ) (tx : String)
    → IsCleared w r cap
    → (r.call =ₛ "agent_transfer") ≡ false
    → (r.call =ₛ "compute_completion") ≡ true
    → given_or r.client_ok (client_available w) ≡ false
    → w.chain_present ≡ true
    → w.chain_ready ≡ true
    → w.chain_buy r.amount_flop ≡ receipt tx
    → attempt_spend w r ≡ (record { call = r.call; amount = r.amount_flop } ∷ [], raise key_error)
unfolding attempt_live client_call
unrecorded_purchase w r cap tx h a b c d e g =
    rw (cleared_live w r cap h, attempt_live, client_call, a, b, c, d, e, g)

-- A cleared `agent_transfer` with the sdk importable and a destination set never comes to a row: its
-- reply is a coroutine that nothing awaits, and reading it raises.
pub agent_transfer_raises :
    (w : World) (r : Request) (cap : ℕ)
    → IsCleared w r cap
    → (r.call =ₛ "agent_transfer") ≡ true
    → w.chain_present ≡ true
    → w.destination_set ≡ true
    → (attempt_spend w r ≡ ([], raise attribute_error))
      ⊎ (attempt_spend w r ≡ ([], raise type_error))
unfolding attempt_live client_call
agent_transfer_raises w r cap h a b c = ground (arith, cleared_live w r cap h)
