-- ===== src/Fold/Deal.antt =====
-- What the contract that `fold` returns satisfies, whatever the transcript.
use mathlib.Core.Path.{subst}
use lumi_observatory.Base.{
  ℕ, ◌+◌, true, List, [], ◌∷◌, ◌≡◌, refl, Option, none, some, arith, inl, inr, Bool-cases,
}
use lumi_observatory.Base.Text.{◌=ₛ◌}
use lumi_observatory.Fold.Json.{Json, Fields, text, get, is_text, is_one_of}
use lumi_observatory.Fold.Reason.{
  Kind, value_error, type_error, Result, ok, raise, ok_inj, ◌>>◌, chain_returned,
}
use lumi_observatory.Fold.Frame.{
  Env, kind_of_text, req_type, validate_offer, validate_kind, validate_keys, validate_as, req_match,
  validate_frame, decode_frame,
}
use lumi_observatory.Fold.Pattern.{did_re}
use lumi_observatory.Fold.Machine.{State, Applied, apply_frame, open_contract}
use lumi_observatory.Fold.Run.{
  Row, Turn, offer_room, expected_room, opened, turned, turn_at, turn_on, turn, Folded, fold_from,
}
use lumi_observatory.Fold.Inv.{Inv, apply_frame-Inv}
use lumi_observatory.Fold.Replay.{fold_from_inv}

req_type_offer :
    (v : Json) (k : Kind) → is_text v "offer" ≡ true → req_type v ≡ ok k → k ≡ Kind.offer
unfolding req_type kind_of_text
req_type_offer (text s) k h e = ground arith
req_type_offer _ k h e = cc

three_ok : (m n p : Result (Unit {0})) (k k' : Kind) → (m >> (n >> (p >> ok k))) ≡ ok k' → p ≡ ok tt
three_ok (ok a) (ok b) (ok c) k k' h = refl
three_ok (ok a) (ok b) (raise e) k k' h = cc
three_ok (ok a) (raise e) p k k' h = cc
three_ok (raise e) n p k k' h = cc

validate_as_ok :
    (env : Env) (f : Fields) (k k' : Kind)
    → validate_as env f k ≡ ok k'
    → validate_kind env k f ≡ ok tt
unfolding validate_as
validate_as_ok env f k k' h =
    three_ok (validate_keys k f) (req_match did_re "from" (get "from" f)) (validate_kind env k f) k
      k' h

validate_offer_ok :
    (env : Env) (f : Fields)
    → validate_kind env Kind.offer f ≡ ok tt
    → is_one_of (get "role" f) ("payer" ∷ "payee" ∷ []) ≡ true
unfolding validate_kind
validate_offer_ok env f h = elim (Bool-cases (is_one_of (get "role" f) ("payer" ∷ "payee" ∷ []))) [
  | inl e ↦ e
  | inr e ↦ cc (rw (validate_offer, e) at h)
]

-- A validated offer names the side that its sender takes.
offer_role :
    (env : Env) (f : Fields) (k : Kind)
    → is_text (get "type" f) "offer" ≡ true
    → validate_frame env f ≡ ok k
    → is_one_of (get "role" f) ("payer" ∷ "payee" ∷ []) ≡ true
unfolding validate_frame
offer_role env f k o h =
    let (k', a, b) = chain_returned (req_type (get "type" f)) (validate_as env f) h in
    validate_offer_ok env f (
      subst (λ x. validate_kind env x f ≡ ok tt) (req_type_offer (get "type" f) k' o a)
        (validate_as_ok env f k' k b))

open_contract-Inv :
    (env : Env) (f : Fields) (s : State)
    → is_text (get "type" f) "offer" ≡ true
    → open_contract env f ≡ ok s
    → Inv env s
unfolding open_contract
open_contract-Inv env f s o h =
    let (k, a, b) = chain_returned (validate_frame env f) _ h in
    subst (Inv env) (ok_inj b) (ground (arith, offer_role env f k o a))

-- a contract, once open, satisfies the invariant
abbrev pub Open : Env → Option State → Type 0
Open env none = Unit
Open env (some s) = Inv env s

opened-Open :
    (env : Env) (v : Result State) (t : Turn)
    → ((s : State) → v ≡ ok s → Inv env s)
    → opened v ≡ ok t
    → Open env t.0
opened-Open env (ok s) t h e = subst (λ (x : Turn). Open env x.0) (ok_inj e) (h s refl)
opened-Open env (raise (value_error r)) t h e = subst (λ (x : Turn). Open env x.0) (ok_inj e) tt
opened-Open env (raise type_error) t h e = cc

turned-Open :
    (env : Env) (v : Result Applied) (t : Turn)
    → ((a : Applied) → v ≡ ok a → Inv env a.0)
    → turned v ≡ ok t
    → Open env t.0
turned-Open env (ok (s, r)) t h e = subst (λ (x : Turn). Open env x.0) (ok_inj e) (h (s, r) refl)
turned-Open env (raise x) t h e = cc

turn_at-Open :
    (env : Env) (st : Option State) (row : Row) (f : Fields) (t : Turn)
    → Open env st
    → turn_at env st row f ≡ ok t
    → Open env t.0
unfolding turn_at
turn_at-Open env none row f t o e = elim (Bool-cases (is_text (get "type" f) "offer")) [
  | inl a ↦ elim (Bool-cases (row.room =ₛ offer_room)) [
    | inl b ↦
        opened-Open env (open_contract env f) t (λ s h. open_contract-Inv env f s a h)
          (rw (a, b) at e)
    | inr b ↦ subst (λ (x : Turn). Open env x.0) (ok_inj (rw (a, b) at e)) tt
  ]
  | inr a ↦ subst (λ (x : Turn). Open env x.0) (ok_inj (rw a at e)) tt
]
turn_at-Open env (some s) row f t o e = elim (Bool-cases (row.room =ₛ expected_room s f)) [
  | inl b ↦
      turned-Open env (apply_frame env s f row.time_ms) t
        (λ a h. apply_frame-Inv env s f row.time_ms a o h) (rw b at e)
  | inr b ↦ subst (λ (x : Turn). Open env x.0) (ok_inj (rw b at e)) o
]

turn_on-Open :
    (env : Env) (st : Option State) (row : Row) (d : Result Fields) (t : Turn)
    → Open env st
    → turn_on env st row d ≡ ok t
    → Open env t.0
turn_on-Open env st row (raise (value_error q)) t o e =
    subst (λ (x : Turn). Open env x.0) (ok_inj e) o
turn_on-Open env st row (raise type_error) t o e = cc
turn_on-Open env st row (ok f) t o e = elim (Bool-cases (is_text (get "from" f) row.sender)) [
  | inl a ↦ turn_at-Open env st row f t o (rw a at e)
  | inr a ↦ subst (λ (x : Turn). Open env x.0) (ok_inj (rw a at e)) o
]

turn-Open :
    (env : Env) (st : Option State) (row : Row) (t : Turn)
    → Open env st
    → turn env st row ≡ ok t
    → Open env t.0
unfolding turn
turn-Open env st row t = turn_on-Open env st row (decode_frame env row.line) t

fold_from-Open :
    (env : Env) (i : ℕ) (st : Option State) (rows : List Row) (out : Folded)
    → Open env st
    → fold_from env i st rows ≡ ok out
    → Open env out.0
unfolding fold_from
fold_from-Open env i st [] out o h = subst (λ (x : Folded). Open env x.0) (ok_inj h) o
fold_from-Open env i st (row ∷ rows) out o h =
    let (t, rest, q, a, b) = fold_from_inv env i st row rows out h in
    subst (λ (x : Folded). Open env x.0) b
      (fold_from-Open env (i + 1) t.0 rows rest (turn-Open env st row t o q) a)

-- Whatever transcript is folded, the contract it returns is sound: from the acceptance on, payer and
-- payee are both named and differ and the contract and its statement are set; from the lock on, the
-- rail is one that the offer lists; and a claimed contract records a secret that opens the statement.
pub fold_from-Inv :
    (env : Env) (i : ℕ) (rows : List Row) (s : State) (out : Folded)
    → fold_from env i none rows ≡ ok out
    → out.0 ≡ some s
    → Inv env s
fold_from-Inv env i rows s out h e = subst (Open env) e (fold_from-Open env i none rows out tt h)
