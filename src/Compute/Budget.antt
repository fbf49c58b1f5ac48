-- ===== src/Compute/Budget.antt =====
-- The budget arithmetic of apps/earn/flop_compute.py: the local ceiling, the credit of a payable, and
-- `plan`. A Python `float` ratio is the fraction of integers that it stands for; `principal * ratio` is
-- taken exactly, as it is while the product fits 53 bits.
use Prim.Native.Nat.{max}
use lumi_observatory.Base.{
  ℕ, ◌+◌, ◌-◌, ◌*◌, ◌/◌, ◌≤◌, Bool, false, not, ◌&&◌, ◌||◌, String, List, [], ◌∷◌, ◌≡◌, refl,
  if◌then◌else◌, arith,
}
use lumi_observatory.Base.Int.{ℤ, pos, pos_part, leb_ℤ, ltb_ℤ, max_zero}
use lumi_observatory.Base.Text.{one_of}

pub data Fault : Type 0 where
  value_error key_error type_error attribute_error : Fault

pub data Result (A : Type 0) : Type 0 where
  ok : A → Result A
  raise : Fault → Result A

infixl 5 ◌>>=◌
-- an exception skips what comes after it
abbrev pub ◌>>=◌ : {X Y : Type 0} → Result X → (X → Result Y) → Result Y
raise fault >>= next = raise fault
ok x >>= next = next x

pub ok_inj : {A : Type 0} {a b : A} → ok a ≡ ok b → a ≡ b
ok_inj e = cc

-- a chain that returned went through its first part
pub chain_returned :
    {X Y : Type 0} {y : Y} (first : Result X) (next : X → Result Y)
    → first >>= next ≡ ok y
    → (x : X) × (first ≡ ok x) × (next x ≡ ok y)
chain_returned (raise fault) next r = absurd (cc)
chain_returned (ok x) next r = (x, refl, r)

-- the float `num / den`
pub record Ratio : Type 0 where
  pub num : ℤ
  pub den : ℕ

-- DEFAULT_CAP_RATIO, 0.75
abbrev pub default_cap_ratio : Ratio
default_cap_ratio = record { num = pos 3; den = 4 }

-- SPENDABLE_CALLS and COMPUTE_CREDIT_CALLS
abbrev pub spendable_calls : List String
spendable_calls =
    "agent_transfer" ∷ "open_channel" ∷ "top_up_escrow" ∷ "force_open" ∷ "compute_completion" ∷ []

abbrev pub compute_credit_calls : List String
compute_credit_calls = "open_channel" ∷ "top_up_escrow" ∷ "force_open" ∷ "compute_completion" ∷ []

-- `0.0 <= ratio <= 1.0`
abbrev pub in_unit : Ratio → Bool
in_unit r = leb_ℤ (pos 0) r.num && leb_ℤ r.num (pos r.den)

unfoldable pub spend_cap : ℤ → Ratio → Result ℕ
spend_cap principal ratio =
    if ltb_ℤ principal (pos 0)
    then raise value_error
    else if not (in_unit ratio)
    then raise value_error
    else ok (pos_part principal * pos_part ratio.num / ratio.den)

-- `floor(K / 3)`
unfoldable pub credit_for_payable : ℤ → Result ℕ
credit_for_payable k_locked =
    if ltb_ℤ k_locked (pos 0) then raise value_error else ok (pos_part k_locked / 3)

unfoldable pub is_creditable : String → Bool → Bool → ℤ → Bool
is_creditable call settlement_final window_closed upheld =
    if not (one_of call compute_credit_calls)
    then false
    else if not settlement_final || not window_closed
    then false
    else leb_ℤ upheld (pos 0) && leb_ℤ (pos 0) upheld

pub record Plan : Type 0 where
  pub principal_flop : ℤ
  pub cap_ratio : Ratio
  pub cap_flop : ℕ
  pub spent_flop : ℕ
  pub remaining_flop : ℕ
  pub projected_unlock_flop : ℕ
  pub dispute_window_days : ℕ

unfoldable pub plan : ℤ → ℤ → Ratio → Result Plan
unfolding spend_cap credit_for_payable
plan principal spent_flop ratio = do
  cap ← spend_cap principal ratio
  let spent = max_zero spent_flop
  let remaining = cap - spent
  unlock ← credit_for_payable (pos cap)
  ok (record {
    principal_flop = principal;
    cap_ratio = ratio;
    cap_flop = cap;
    spent_flop = spent;
    remaining_flop = remaining;
    projected_unlock_flop = unlock;
    dispute_window_days = 7;
  })

-- At the default ratio a plan for `p` projects exactly a quarter of the principal as liquid, and what
-- is spent and what remains make up the ceiling unless more than the ceiling is spent.
pub plan_quarter :
    (p : ℕ) (spent : ℤ) (q : Plan)
    → plan (pos p) spent default_cap_ratio ≡ ok q
    → (q.projected_unlock_flop ≡ p / 4)
      × (q.cap_flop * 4 ≤ 3 * p)
      × (q.remaining_flop + q.spent_flop ≡ max q.cap_flop q.spent_flop)
unfolding plan
plan_quarter p spent q h = ground arith
