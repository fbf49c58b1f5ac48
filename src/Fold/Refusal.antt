-- ===== src/Fold/Refusal.antt =====
-- A refused frame changes nothing, and a contract is never both claimable and refundable.
use lumi_observatory.Base.{◌≡◌, refl, some, arith, ap, sym, ◌∙◌, ◌≢◌}
use lumi_observatory.Base.Int.{ℤ, ◌≤ℤ◌, ◌<ℤ◌}
use lumi_observatory.Fold.Json.{Fields}
use lumi_observatory.Fold.Reason.{
  Kind, locked, claimed, refunded, Reason, value_error, type_error, Result, ok, raise, ok_inj,
}
use lumi_observatory.Fold.Frame.{Env, validate_frame}
use lumi_observatory.Fold.Machine.{
  State, time_of, Applied, applied, apply_accept, apply_lock, apply_reveal, apply_refund,
  apply_cancel, apply_kind, apply_frame,
}
use lumi_observatory.Fold.Inv.{receipt_keeps, heartbeat_keeps}
use lumi_observatory.Fold.Guards.{
  Move, accepting, locking, claiming, refunding, withdrawing, cancelling, staying, apply_frame-Move,
}

apply_kind_refused :
    (env : Env) (k : Kind) (s : State) (f : Fields) (now : ℤ) (r : Reason)
    → (apply_kind env k s f now).1 ≡ some r
    → (apply_kind env k s f now).0 ≡ s
unfolding apply_kind
apply_kind_refused env Kind.offer s f now r e = refl
apply_kind_refused env Kind.accept s f now r e = unfold apply_accept in ground arith
apply_kind_refused env Kind.lock s f now r e = unfold apply_lock in ground arith
apply_kind_refused env Kind.reveal s f now r e = unfold apply_reveal in ground arith
apply_kind_refused env Kind.refund s f now r e = unfold apply_refund in ground arith
apply_kind_refused env Kind.cancel s f now r e = unfold apply_cancel in ground arith
apply_kind_refused env Kind.receipt s f now r e = receipt_keeps env s f now
apply_kind_refused env Kind.heartbeat s f now r e = heartbeat_keeps env s f now

applied_refused :
    (env : Env) (v : Result Kind) (s : State) (f : Fields) (now : ℤ) (a : Applied) (r : Reason)
    → applied env v s f now ≡ ok a
    → a.1 ≡ some r
    → a.0 ≡ s
applied_refused env (ok k) s f now a r e h =
    let p : apply_kind env k s f now ≡ a = ok_inj e in
    ap (λ (x : Applied). x.0) (sym p)
    ∙ apply_kind_refused env k s f now r (ap (λ (x : Applied). x.1) p ∙ h)
applied_refused env (raise (value_error q)) s f now a r e h =
    ap (λ (x : Applied). x.0) (sym (ok_inj e))
applied_refused env (raise type_error) s f now a r e h = cc

-- A frame refused with a reason leaves the whole contract as it was.
pub apply_frame_refused :
    (env : Env) (s : State) (f : Fields) (now : ℤ) (a : Applied) (r : Reason)
    → apply_frame env s f now ≡ ok a
    → a.1 ≡ some r
    → a.0 ≡ s
unfolding apply_frame
apply_frame_refused env s f now a r = applied_refused env (validate_frame env f) s f now a r

opened_window : {P : Type 0} (t now : ℤ) → now <ℤ t → t ≤ℤ now → P
opened_window t now h k = absurd (omega arith)

-- Of a locked contract: where one frame claims it, no frame that is applied at the same time to the
-- same contract refunds it, whoever sends it and whatever it says.
pub claim_or_refund :
    (env : Env) (s : State) (f g : Fields) (now : ℤ) (a b : Applied)
    → s.status ≡ locked
    → apply_frame env s f now ≡ ok a
    → apply_frame env s g now ≡ ok b
    → a.0.status ≡ claimed
    → b.0.status ≢ refunded
claim_or_refund env s f g now a b l ea eb ca rb =
    exclusive (apply_frame-Move env s f now a ea) (apply_frame-Move env s g now b eb)
  where
    late : Move env s g now s.status b.0.status → time_of "refundAfterMs" s ≤ℤ now
    late (accepting x y _ _ _ _ _) = absurd (cc x)
    late (locking x y _ _ _ _) = absurd (cc x)
    late (claiming x y _ _ _ _ _) = absurd (cc y)
    late (refunding x y _ _ _ t) = t
    late (withdrawing x y _) = absurd (cc x)
    late (cancelling x y _ _) = absurd (cc x)
    late (staying x) = absurd (cc x)

    exclusive : Move env s f now s.status a.0.status → Move env s g now s.status b.0.status → ⊥
    exclusive (accepting x y _ _ _ _ _) m = cc x
    exclusive (locking x y _ _ _ _) m = cc x
    exclusive (claiming x y _ _ _ t _) m = opened_window (time_of "refundAfterMs" s) now t (late m)
    exclusive (refunding x y _ _ _ _) m = cc y
    exclusive (withdrawing x y _) m = cc x
    exclusive (cancelling x y _ _) m = cc x
    exclusive (staying x) m = cc x
