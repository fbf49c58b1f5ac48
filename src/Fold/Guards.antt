-- ===== src/Fold/Guards.antt =====
-- What a frame that changed the status must have satisfied, and what no frame does.
use lumi_observatory.Base.{true, false, ◌&&◌, ◌≡◌, refl, arith, ◌⊎◌, inl, inr, ap, sym}
use mathlib.Core.Path.{subst}
use lumi_observatory.Base.Int.{ℤ, ◌≤ℤ◌, ◌<ℤ◌}
use lumi_observatory.Base.Text.{◌=ₛ◌}
use lumi_observatory.Fold.Json.{Fields, get, text_of, texts_of, is_text, is_null}
use lumi_observatory.Fold.Reason.{
  Kind, Status, proposed, accepted, locked, claimed, refunded, cancelled, value_error, type_error,
  Result, ok, raise, ok_inj,
}
use lumi_observatory.Fold.Frame.{Env, validate_frame, contract_id}
use lumi_observatory.Fold.Machine.{
  State, same, committed, from_of, contract_of, time_of, verify_hash_preimage, rail_offered,
  differs, Applied, applied, accepted_state, apply_accept, apply_lock, apply_reveal, apply_refund,
  apply_cancel, apply_kind, apply_frame, is_party,
}
use lumi_observatory.Fold.Inv.{receipt_keeps, heartbeat_keeps}

-- The conditions under which a frame moves a contract from one status to another.
pub data Move (env : Env) (s : State) (f : Fields) (now : ℤ) (a b : Status) : Type 0 where
  accepting :
      a ≡ proposed
      → b ≡ accepted
      → (from_of f =ₛ s.offer_from) ≡ false
      → now <ℤ time_of "expiresMs" s
      → (text_of (get "ref" f) =ₛ text_of (get "id" s.offer)) ≡ true
      → (contract_of f =ₛ contract_id env s.offer f) ≡ true
      → (is_text (get "lock" s.offer) "point" && is_null (get "paymentKey" f)) ≡ false
      → Move env s f now a b
  locking :
      a ≡ accepted
      → b ≡ locked
      → same s.contract (contract_of f) ≡ true
      → same s.payer (from_of f) ≡ true
      → now <ℤ time_of "refundAfterMs" s
      → rail_offered (texts_of (get "rails" s.offer)) (text_of (get "rail" f)) ≡ true
      → Move env s f now a b
  claiming :
      a ≡ locked
      → b ≡ claimed
      → same s.contract (contract_of f) ≡ true
      → differs (get "ref" f) s.rail_ref ≡ false
      → same s.payee (from_of f) ≡ true
      → now <ℤ time_of "refundAfterMs" s
      → verify_hash_preimage env (committed s) (text_of (get "secret" f)) ≡ true
      → Move env s f now a b
  refunding :
      a ≡ locked
      → b ≡ refunded
      → same s.contract (contract_of f) ≡ true
      → differs (get "ref" f) s.rail_ref ≡ false
      → same s.payer (from_of f) ≡ true
      → time_of "refundAfterMs" s ≤ℤ now
      → Move env s f now a b
  withdrawing : a ≡ proposed → b ≡ cancelled → is_party s (from_of f) ≡ true → Move env s f now a b
  cancelling :
      a ≡ accepted
      → b ≡ cancelled
      → same s.contract (contract_of f) ≡ true
      → is_party s (from_of f) ≡ true
      → Move env s f now a b
  staying : a ≡ b → Move env s f now a b

module _ (env : Env) (s : State) (f : Fields) (now : ℤ) where
  accept_facts :
      (s.status ≡ (apply_accept env s f now).0.status)
      ⊎ ((s.status ≡ proposed)
          × ((apply_accept env s f now).0.status ≡ accepted)
          × ((from_of f =ₛ s.offer_from) ≡ false)
          × (now <ℤ time_of "expiresMs" s)
          × ((text_of (get "ref" f) =ₛ text_of (get "id" s.offer)) ≡ true)
          × ((contract_of f =ₛ contract_id env s.offer f) ≡ true)
          × ((is_text (get "lock" s.offer) "point" && is_null (get "paymentKey" f)) ≡ false))
  unfolding apply_accept accepted_state
  accept_facts = ground arith

  accept-Move : Move env s f now s.status (apply_accept env s f now).0.status
  accept-Move = elim accept_facts [
    | inl e ↦ staying e
    | inr (a, b, c, d, r, e, g) ↦ accepting a b c d r e g
  ]

  lock_facts :
      (s.status ≡ (apply_lock s f now).0.status)
      ⊎ ((s.status ≡ accepted)
          × ((apply_lock s f now).0.status ≡ locked)
          × (same s.contract (contract_of f) ≡ true)
          × (same s.payer (from_of f) ≡ true)
          × (now <ℤ time_of "refundAfterMs" s)
          × (rail_offered (texts_of (get "rails" s.offer)) (text_of (get "rail" f)) ≡ true))
  unfolding apply_lock
  lock_facts = ground arith

  lock-Move : Move env s f now s.status (apply_lock s f now).0.status
  lock-Move = elim lock_facts [ inl e ↦ staying e | inr (a, b, c, d, e, g) ↦ locking a b c d e g ]

  reveal_facts :
      (s.status ≡ (apply_reveal env s f now).0.status)
      ⊎ ((s.status ≡ locked)
          × ((apply_reveal env s f now).0.status ≡ claimed)
          × (same s.contract (contract_of f) ≡ true)
          × (differs (get "ref" f) s.rail_ref ≡ false)
          × (same s.payee (from_of f) ≡ true)
          × (now <ℤ time_of "refundAfterMs" s)
          × (verify_hash_preimage env (committed s) (text_of (get "secret" f)) ≡ true))
  unfolding apply_reveal
  reveal_facts = ground arith

  reveal-Move : Move env s f now s.status (apply_reveal env s f now).0.status
  reveal-Move = elim reveal_facts [
    | inl e ↦ staying e
    | inr (a, b, c, r, d, e, g) ↦ claiming a b c r d e g
  ]

  refund_facts :
      (s.status ≡ (apply_refund s f now).0.status)
      ⊎ ((s.status ≡ locked)
          × ((apply_refund s f now).0.status ≡ refunded)
          × (same s.contract (contract_of f) ≡ true)
          × (differs (get "ref" f) s.rail_ref ≡ false)
          × (same s.payer (from_of f) ≡ true)
          × (time_of "refundAfterMs" s ≤ℤ now))
  unfolding apply_refund
  refund_facts = ground arith

  refund-Move : Move env s f now s.status (apply_refund s f now).0.status
  refund-Move = elim refund_facts [
    | inl e ↦ staying e
    | inr (a, b, c, r, d, e) ↦ refunding a b c r d e
  ]

  cancel_facts :
      (s.status ≡ (apply_cancel s f).0.status)
      ⊎ ((s.status ≡ proposed)
          × ((apply_cancel s f).0.status ≡ cancelled)
          × (is_party s (from_of f) ≡ true))
      ⊎ ((s.status ≡ accepted)
          × ((apply_cancel s f).0.status ≡ cancelled)
          × (same s.contract (contract_of f) ≡ true)
          × (is_party s (from_of f) ≡ true))
  unfolding apply_cancel
  cancel_facts = ground arith

  cancel-Move : Move env s f now s.status (apply_cancel s f).0.status
  cancel-Move = elim cancel_facts [
    | inl e ↦ staying e
    | inr (inl (a, b, c)) ↦ withdrawing a b c
    | inr (inr (a, b, c, d)) ↦ cancelling a b c d
  ]

apply_kind-Move :
    (env : Env) (k : Kind) (s : State) (f : Fields) (now : ℤ)
    → Move env s f now s.status (apply_kind env k s f now).0.status
unfolding apply_kind
apply_kind-Move env Kind.offer s f now = staying refl
apply_kind-Move env Kind.accept s f now = accept-Move env s f now
apply_kind-Move env Kind.lock s f now = lock-Move env s f now
apply_kind-Move env Kind.reveal s f now = reveal-Move env s f now
apply_kind-Move env Kind.refund s f now = refund-Move env s f now
apply_kind-Move env Kind.cancel s f now = cancel-Move env s f now
apply_kind-Move env Kind.receipt s f now =
    staying (ap (λ (t : State). t.status) (sym (receipt_keeps env s f now)))
apply_kind-Move env Kind.heartbeat s f now =
    staying (ap (λ (t : State). t.status) (sym (heartbeat_keeps env s f now)))

applied-Move :
    (env : Env) (v : Result Kind) (s : State) (f : Fields) (now : ℤ) (a : Applied)
    → applied env v s f now ≡ ok a
    → Move env s f now s.status a.0.status
applied-Move env (ok k) s f now a e =
    subst (λ (x : Applied). Move env s f now s.status x.0.status) (ok_inj e)
      (apply_kind-Move env k s f now)
applied-Move env (raise (value_error r)) s f now a e =
    staying (ap (λ (x : Applied). x.0.status) (ok_inj e))
applied-Move env (raise type_error) s f now a e = cc

-- A frame moves the status only along an edge of the contract's graph, under the conditions of that edge.
pub apply_frame-Move :
    (env : Env) (s : State) (f : Fields) (now : ℤ) (a : Applied)
    → apply_frame env s f now ≡ ok a
    → Move env s f now s.status a.0.status
unfolding apply_frame
apply_frame-Move env s f now a e = applied-Move env (validate_frame env f) s f now a e
