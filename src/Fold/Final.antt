-- ===== src/Fold/Final.antt =====
-- A settled contract is settled for good.
use mathlib.Core.Path.{subst}
use lumi_observatory.Base.{
  ℕ, ◌+◌, true, List, [], ◌∷◌, ◌≡◌, refl, ap, some, arith, inl, inr, Bool-cases,
}
use lumi_observatory.Base.Int.{ℤ}
use lumi_observatory.Base.Text.{◌=ₛ◌}
use lumi_observatory.Fold.Json.{Fields, get, is_text}
use lumi_observatory.Fold.Reason.{Kind, value_error, type_error, Result, ok, raise, ok_inj}
use lumi_observatory.Fold.Frame.{Env, validate_frame, decode_frame}
use lumi_observatory.Fold.Machine.{
  State, applied, is_terminal, apply_accept, apply_lock, apply_reveal, apply_refund, apply_cancel,
  apply_kind, apply_frame,
}
use lumi_observatory.Fold.Run.{
  Row, Turn, expected_room, turned, turn_at, turn_on, turn, Folded, fold_from,
}
use lumi_observatory.Fold.Inv.{receipt_keeps, heartbeat_keeps}
use lumi_observatory.Fold.Replay.{fold_from_inv}

apply_kind_final :
    (env : Env) (k : Kind) (s : State) (f : Fields) (now : ℤ)
    → is_terminal s.status ≡ true
    → (apply_kind env k s f now).0 ≡ s
unfolding apply_kind
apply_kind_final env Kind.offer s f now h = refl
apply_kind_final env Kind.accept s f now h = unfold apply_accept in ground arith
apply_kind_final env Kind.lock s f now h = unfold apply_lock in ground arith
apply_kind_final env Kind.reveal s f now h = unfold apply_reveal in ground arith
apply_kind_final env Kind.refund s f now h = unfold apply_refund in ground arith
apply_kind_final env Kind.cancel s f now h = unfold apply_cancel in ground arith
apply_kind_final env Kind.receipt s f now h = receipt_keeps env s f now
apply_kind_final env Kind.heartbeat s f now h = heartbeat_keeps env s f now

abbrev Keeps : State → Turn → Type 0
Keeps s t = t.0 ≡ some s

turned_final :
    (env : Env) (s : State) (f : Fields) (now : ℤ) (v : Result Kind) (t : Turn)
    → is_terminal s.status ≡ true
    → turned (applied env v s f now) ≡ ok t
    → Keeps s t
turned_final env s f now (ok k) t h e =
    subst (Keeps s) (ok_inj e) (ap some (apply_kind_final env k s f now h))
turned_final env s f now (raise (value_error r)) t h e = subst (Keeps s) (ok_inj e) refl
turned_final env s f now (raise type_error) t h e = cc

turn_on_final :
    (env : Env) (s : State) (row : Row) (d : Result Fields) (t : Turn)
    → is_terminal s.status ≡ true
    → turn_on env (some s) row d ≡ ok t
    → Keeps s t
unfolding turn_at apply_frame
turn_on_final env s row (raise (value_error r)) t h e = subst (Keeps s) (ok_inj e) refl
turn_on_final env s row (raise type_error) t h e = cc
turn_on_final env s row (ok f) t h e = elim (Bool-cases (is_text (get "from" f) row.sender)) [
  | inr a ↦ subst (Keeps s) (ok_inj (rw a at e)) refl
  | inl a ↦ elim (Bool-cases (row.room =ₛ expected_room s f)) [
    | inr b ↦ subst (Keeps s) (ok_inj (rw (a, b) at e)) refl
    | inl b ↦ turned_final env s f row.time_ms (validate_frame env f) t h (rw (a, b) at e)
  ]
]

turn_final :
    (env : Env) (s : State) (row : Row) (t : Turn)
    → is_terminal s.status ≡ true
    → turn env (some s) row ≡ ok t
    → Keeps s t
unfolding turn
turn_final env s row t = turn_on_final env s row (decode_frame env row.line) t

-- Once a contract is claimed, refunded or cancelled, no later records change anything of it.
pub fold_from_final :
    (env : Env) (i : ℕ) (s : State) (rows : List Row) (out : Folded)
    → is_terminal s.status ≡ true
    → fold_from env i (some s) rows ≡ ok out
    → out.0 ≡ some s
unfolding fold_from
fold_from_final env i s [] out h e = subst (λ (x : Folded). x.0 ≡ some s) (ok_inj e) refl
fold_from_final env i s (row ∷ rows) out h e =
    let (t, rest, q, a, b) = fold_from_inv env i (some s) row rows out e in
    subst (λ (x : Folded). x.0 ≡ some s) b
      (fold_from_final env (i + 1) s rows rest h
        (subst (λ st. fold_from env (i + 1) st rows ≡ ok rest) (turn_final env s row t h q) a))
