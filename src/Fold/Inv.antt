-- ===== src/Fold/Inv.antt =====
-- What holds of a contract between two records, and that every frame keeps it.
use mathlib.Core.Path.{subst}
use lumi_observatory.Base.{Bool, true, false, String, ◌≡◌, Option, none, some, arith, ◌⊎◌, inl, inr}
use lumi_observatory.Base.Int.{ℤ}
use lumi_observatory.Base.Text.{◌=ₛ◌, eq_iff}
use lumi_observatory.Fold.Json.{Fields, get, is_text, texts_of}
use lumi_observatory.Fold.Reason.{
  Kind, Status, proposed, locked, claimed, refunded, cancelled, value_error, type_error, Result, ok,
  raise, ok_inj,
}
use lumi_observatory.Fold.Frame.{Env, validate_frame}
use lumi_observatory.Fold.Machine.{
  State, committed, is_proposed, from_of, rail_offered, verify_hash_preimage, accepted_state,
  Applied, applied, apply_accept, apply_lock, apply_reveal, apply_refund, apply_cancel,
  apply_receipt, apply_heartbeat, apply_kind, apply_frame,
}

-- the statuses in which both sides are bound
abbrev pub is_bound : Status → Bool
is_bound proposed = false
is_bound cancelled = false
is_bound _ = true

-- the statuses in which a rail holds or has settled the money
abbrev pub is_funded : Status → Bool
is_funded locked = true
is_funded claimed = true
is_funded refunded = true
is_funded _ = false

abbrev pub is_claimed : Status → Bool
is_claimed claimed = true
is_claimed _ = false

-- both are named, and they are two
abbrev pub Distinct : Option String → Option String → Type 0
Distinct (some p) (some q) = ◌≡◌ {A = Bool} (p =ₛ q) false × ◌≡◌ {A = Bool} (q =ₛ p) false
Distinct _ _ = ⊥

abbrev pub IsNamed : Option String → Type 0
IsNamed (some c) = Unit
IsNamed none = ⊥

-- the recorded secret opens the statement
abbrev pub Opens : Env → String → Option String → Type 0
Opens env statement (some x) = verify_hash_preimage env statement x ≡ true
Opens env statement none = ⊥

abbrev pub IsOffered : Fields → Option String → Type 0
IsOffered offer (some r) = rail_offered (texts_of (get "rails" offer)) r ≡ true
IsOffered offer none = ⊥

pub record Inv (env : Env) (s : State) : Type 0 where
  pub payee_offers :
      is_proposed s.status ≡ true
      → is_text (get "role" s.offer) "payee" ≡ true
      → s.payee ≡ some s.offer_from
  pub payer_offers :
      is_proposed s.status ≡ true
      → is_text (get "role" s.offer) "payee" ≡ false
      → s.payer ≡ some s.offer_from
  pub parties : is_bound s.status ≡ true → Distinct s.payer s.payee
  pub agreed : is_bound s.status ≡ true → IsNamed s.contract × IsNamed s.statement
  pub railed : is_funded s.status ≡ true → IsOffered s.offer s.rail
  pub paid : is_claimed s.status ≡ true → Opens env (committed s) s.secret

eq_sym : (a b : String) → (a =ₛ b) ≡ false → (b =ₛ a) ≡ false
eq_sym a b h = ground (arith, eq_iff a b, eq_iff b a)

module _ (env : Env) (s : State) (f : Fields) (now : ℤ) where
  accepted_state-Inv :
      is_proposed s.status ≡ true
      → (from_of f =ₛ s.offer_from) ≡ false
      → Inv env s
      → Inv env (accepted_state s f)
  unfolding accepted_state
  accepted_state-Inv p d h = ground (arith, eq_sym (from_of f) s.offer_from)

  -- An acceptance changes nothing, or it binds a sender that is not the offerer.
  accept_cases :
      ((apply_accept env s f now).0 ≡ s)
      ⊎ ((is_proposed s.status ≡ true)
          × ((from_of f =ₛ s.offer_from) ≡ false)
          × ((apply_accept env s f now).0 ≡ accepted_state s f))
  unfolding apply_accept
  accept_cases = ground arith

  accept-Inv : Inv env s → Inv env (apply_accept env s f now).0
  accept-Inv h = elim accept_cases [
    | inl e ↦ rw e h
    | inr (p, d, e) ↦ rw e (accepted_state-Inv p d h)
  ]

  lock-Inv : Inv env s → Inv env (apply_lock s f now).0
  unfolding apply_lock
  lock-Inv h = ground arith

  reveal-Inv : Inv env s → Inv env (apply_reveal env s f now).0
  unfolding apply_reveal
  reveal-Inv h = ground arith

  refund-Inv : Inv env s → Inv env (apply_refund s f now).0
  unfolding apply_refund
  refund-Inv h = ground arith

  cancel-Inv : Inv env s → Inv env (apply_cancel s f).0
  unfolding apply_cancel
  cancel-Inv h = ground arith

  pub receipt_keeps : (apply_receipt s f).0 ≡ s
  unfolding apply_receipt
  receipt_keeps = ground arith

  pub heartbeat_keeps : (apply_heartbeat s f).0 ≡ s
  unfolding apply_heartbeat
  heartbeat_keeps = ground arith

apply_kind-Inv :
    (env : Env) (k : Kind) (s : State) (f : Fields) (now : ℤ)
    → Inv env s
    → Inv env (apply_kind env k s f now).0
unfolding apply_kind
apply_kind-Inv env Kind.offer s f now h = h
apply_kind-Inv env Kind.accept s f now h = accept-Inv env s f now h
apply_kind-Inv env Kind.lock s f now h = lock-Inv env s f now h
apply_kind-Inv env Kind.reveal s f now h = reveal-Inv env s f now h
apply_kind-Inv env Kind.refund s f now h = refund-Inv env s f now h
apply_kind-Inv env Kind.cancel s f now h = cancel-Inv env s f now h
apply_kind-Inv env Kind.receipt s f now h = rw (receipt_keeps env s f now) h
apply_kind-Inv env Kind.heartbeat s f now h = rw (heartbeat_keeps env s f now) h

applied-Inv :
    (env : Env) (v : Result Kind) (s : State) (f : Fields) (now : ℤ) (a : Applied)
    → Inv env s
    → applied env v s f now ≡ ok a
    → Inv env a.0
applied-Inv env (ok k) s f now a h e =
    subst (λ (r : Applied). Inv env r.0) (ok_inj e) (apply_kind-Inv env k s f now h)
applied-Inv env (raise (value_error r)) s f now a h e =
    subst (λ (x : Applied). Inv env x.0) (ok_inj e) h
applied-Inv env (raise type_error) s f now a h e = cc

-- Every frame, refused or not, keeps the invariant.
pub apply_frame-Inv :
    (env : Env) (s : State) (f : Fields) (now : ℤ) (a : Applied)
    → Inv env s
    → apply_frame env s f now ≡ ok a
    → Inv env a.0
unfolding apply_frame
apply_frame-Inv env s f now a h e = applied-Inv env (validate_frame env f) s f now a h e
