-- ===== src/Fold/Reason.antt =====
-- The reasons of apps/scheduler/br_fold.py: one constructor for each message, its arguments the
-- values that the message prints. A `ValueError` carries one; a `TypeError` is not caught there.
use lumi_observatory.Base.{String, List, ◌≡◌, refl, ◌⊎◌, inl, inr}
use lumi_observatory.Fold.Json.{Json}

pub data Kind : Type 0 where
  offer accept lock reveal refund cancel receipt heartbeat : Kind

pub data Status : Type 0 where
  proposed accepted locked claimed refunded cancelled : Status

pub data Reason : Type 0 where
  not_decoded : Reason
  unknown_type : Json → Reason
  missing unexpected : Kind → List String → Reason
  not_a_string malformed not_a_time : String → Reason
  bad_role bad_lock empty_rails deadlines_order point_without_key : Reason
  offer_id_mismatch : String → Reason
  bad_outcome already_open : Reason
  in_status : Kind → Status → Reason
  different_offer own_offer offer_expired contract_mismatch acceptor_without_key : Reason
  different_contract different_rail_ref non_party : Kind → Reason
  not_the_payer not_the_payee : Kind → Reason
  refund_window_open refund_window_closed : Kind → Reason
  rail_not_offered : String → Reason
  secret_mismatch : Reason
  not_terminal : Reason
  outcome_mismatch : String → Status → Reason
  rail_mismatch : String → Reason
  ref_mismatch rail_on_cancelled : Reason
  sender_mismatch wrong_offer_room wrong_room no_contract : Reason

pub data Fault : Type 0 where
  value_error : Reason → Fault
  type_error : Fault

pub data Result (A : Type 0) : Type 0 where
  ok : A → Result A
  raise : Fault → Result A

infixl 5 ◌>>=◌
-- an exception skips what comes after it
abbrev pub ◌>>=◌ : {X Y : Type 0} → Result X → (X → Result Y) → Result Y
raise fault >>= next = raise fault
ok x >>= next = next x

-- a check, and then what it guards
infixl 5 ◌>>◌
abbrev pub ◌>>◌ : {Y : Type 0} → Result (Unit {0}) → Result Y → Result Y
check >> next = check >>= λ done. next

pub ok_inj : {A : Type 0} {a b : A} → ok a ≡ ok b → a ≡ b
ok_inj e = cc

-- A value is split with its equation.
pub Result-cases :
    {A : Type 0} (v : Result A) → ((a : A) × (v ≡ ok a)) ⊎ ((e : Fault) × (v ≡ raise e))
Result-cases (ok a) = inl (a, refl)
Result-cases (raise e) = inr (e, refl)

-- a chain that returned went through its first part
pub chain_returned :
    {X Y : Type 0} {y : Y} (first : Result X) (next : X → Result Y)
    → first >>= next ≡ ok y
    → (x : X) × (first ≡ ok x) × (next x ≡ ok y)
chain_returned (raise fault) next r = absurd (cc)
chain_returned (ok x) next r = (x, refl, r)

pub raise-ne-ok : {A : Type 0} {e : Fault} {a : A} → raise e ≡ ok a → ⊥
raise-ne-ok h = cc
