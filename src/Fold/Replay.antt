-- ===== src/Fold/Replay.antt =====
-- The loop of `fold`: rejected records are invisible, and what the final contract satisfies.
use mathlib.Core.Path.{subst}
use lumi_observatory.Base.{
  ℕ, ◌+◌, List, [], ◌∷◌, ◌≡◌, refl, sym, ap, ◌∙◌, Option, none, some, arith, inl, inr, length,
  Bool-cases,
}
use lumi_observatory.Base.Int.{ℤ}
use lumi_observatory.Base.Text.{◌=ₛ◌}
use lumi_observatory.Fold.Json.{Fields, get, is_text}
use lumi_observatory.Fold.Reason.{
  Reason, Fault, value_error, type_error, Result, ok, raise, ok_inj, ◌>>=◌, Result-cases,
  chain_returned, raise-ne-ok,
}
use lumi_observatory.Fold.Frame.{Env, decode_frame}
use lumi_observatory.Fold.Machine.{State, Applied, apply_frame, open_contract}
use lumi_observatory.Fold.Run.{
  Row, Turn, offer_room, expected_room, opened, turned, turn_at, turn_on, turn, rejected, Folded,
  fold_from,
}
use lumi_observatory.Fold.Refusal.{apply_frame_refused}

opened_refused :
    (o : Result State) (t : Turn) (r : Reason) → opened o ≡ ok t → t.1 ≡ some r → t.0 ≡ none
opened_refused (ok s) t r e h = cc
opened_refused (raise (value_error q)) t r e h = ap (λ (x : Turn). x.0) (sym (ok_inj e))
opened_refused (raise type_error) t r e h = cc

turned_refused :
    (env : Env) (s : State) (f : Fields) (now : ℤ) (v : Result Applied) (t : Turn) (r : Reason)
    → apply_frame env s f now ≡ v
    → turned v ≡ ok t
    → t.1 ≡ some r
    → t.0 ≡ some s
turned_refused env s f now (ok (s', q)) t r v e h =
    ap (λ (x : Turn). x.0) (sym (ok_inj e))
    ∙ ap some (apply_frame_refused env s f now (s', q) r v (ap (λ (x : Turn). x.1) (ok_inj e) ∙ h))
turned_refused env s f now (raise x) t r v e h = cc

turn_at_refused :
    (env : Env) (st : Option State) (row : Row) (f : Fields) (t : Turn) (r : Reason)
    → turn_at env st row f ≡ ok t
    → t.1 ≡ some r
    → t.0 ≡ st
unfolding turn_at
turn_at_refused env none row f t r e h = elim (Bool-cases (is_text (get "type" f) "offer")) [
  | inl a ↦ elim (Bool-cases (row.room =ₛ offer_room)) [
    | inl b ↦ opened_refused (open_contract env f) t r (rw (a, b) at e) h
    | inr b ↦ ap (λ (x : Turn). x.0) (sym (ok_inj (rw (a, b) at e)))
  ]
  | inr a ↦ ap (λ (x : Turn). x.0) (sym (ok_inj (rw a at e)))
]
turn_at_refused env (some s) row f t r e h = elim (Bool-cases (row.room =ₛ expected_room s f)) [
  | inl b ↦
      turned_refused env s f row.time_ms (apply_frame env s f row.time_ms) t r refl (rw b at e) h
  | inr b ↦ ap (λ (x : Turn). x.0) (sym (ok_inj (rw b at e)))
]

turn_on_refused :
    (env : Env) (st : Option State) (row : Row) (d : Result Fields) (t : Turn) (r : Reason)
    → turn_on env st row d ≡ ok t
    → t.1 ≡ some r
    → t.0 ≡ st
turn_on_refused env st row (raise (value_error q)) t r e h = ap (λ (x : Turn). x.0) (sym (ok_inj e))
turn_on_refused env st row (raise type_error) t r e h = cc
turn_on_refused env st row (ok f) t r e h = elim (Bool-cases (is_text (get "from" f) row.sender)) [
  | inl a ↦ turn_at_refused env st row f t r (rw a at e) h
  | inr a ↦ ap (λ (x : Turn). x.0) (sym (ok_inj (rw a at e)))
]

-- A record that the loop rejects leaves the contract, or its absence, as it was.
pub turn_refused :
    (env : Env) (st : Option State) (row : Row) (t : Turn) (r : Reason)
    → turn env st row ≡ ok t
    → t.1 ≡ some r
    → t.0 ≡ st
unfolding turn
turn_refused env st row t r = turn_on_refused env st row (decode_frame env row.line) t r

-- the records that the loop does not reject, in order
pub taken : Env → Option State → List Row → List Row
taken env st [] = []
taken env st (row ∷ rows) = elim (turn env st row) [
  | raise e ↦ []
  | ok (st', none) ↦ row ∷ taken env st' rows
  | ok (st', some r) ↦ taken env st' rows
]

module _ (env : Env) (i : ℕ) (st : Option State) (row : Row) (rows : List Row) where
  pub fold_from_step :
      (t : Turn)
      → turn env st row ≡ ok t
      → fold_from env i st (row ∷ rows)
        ≡ (fold_from env (i + 1) t.0 rows >>= λ rest. ok (rest.0, rejected env i row t.1 rest.1))
  unfolding fold_from
  fold_from_step t q = rw (q, fold_from)

  pub fold_from_raised :
      (e : Fault) → turn env st row ≡ raise e → fold_from env i st (row ∷ rows) ≡ raise e
  unfolding fold_from
  fold_from_raised e q = rw (q, fold_from)

  taken_step :
      (st' : Option State)
      → turn env st row ≡ ok (st', none)
      → taken env st (row ∷ rows) ≡ row ∷ taken env st' rows
  unfolding taken
  taken_step st' q = rw (q, taken)

  taken_refused :
      (st' : Option State) (r : Reason)
      → turn env st row ≡ ok (st', some r)
      → taken env st (row ∷ rows) ≡ taken env st' rows
  unfolding taken
  taken_refused st' r q = rw (q, taken)

  -- One round of a loop that returns: the turn, the rest of the loop, and what they add up to.
  pub fold_from_inv :
      (out : Folded)
      → fold_from env i st (row ∷ rows) ≡ ok out
      → (t : Turn) × (rest : Folded) × (turn env st row ≡ ok t)
        × (fold_from env (i + 1) t.0 rows ≡ ok rest)
        × ((rest.0, rejected env i row t.1 rest.1) ≡ out)
  fold_from_inv out h = elim (Result-cases (turn env st row)) [
    | inr (e, q) ↦ absurd (raise-ne-ok (sym (fold_from_raised e q) ∙ h))
    | inl (t, q) ↦
        let (rest, a, b) =
          chain_returned (fold_from env (i + 1) t.0 rows)
            (λ (rest : Folded). ok (rest.0, rejected env i row t.1 rest.1))
            (sym (fold_from_step t q) ∙ h) in
        (t, rest, q, a, ok_inj b)
  ]

abbrev pub Replays : Env → ℕ → Option State → List Row → Folded → Type 0
Replays env j st rows out =
    (fold_from env j st (taken env st rows) ≡ ok (out.0, []))
    × (length (taken env st rows) + length out.1 ≡ length rows)

-- one more round: the record is taken, or it is rejected and changes nothing
replay_round :
    (env : Env) (i j : ℕ) (st : Option State) (row : Row) (rows : List Row) (t : Turn)
    (rest : Folded)
    → turn env st row ≡ ok t
    → ((k : ℕ) → Replays env k t.0 rows rest)
    → Replays env j st (row ∷ rows) (rest.0, rejected env i row t.1 rest.1)
replay_round env i j st row rows (st', none) rest q h = (
  rw (
    taken_step env i st row rows st' q,
    fold_from_step env j st row (taken env st' rows) (st', none) q,
    (h (j + 1)).0,
  ),
  rw (taken_step env i st row rows st' q) (omega (arith, (h 0).1)),
)
replay_round env i j st row rows (st', some r) rest q h =
    let same : st' ≡ st = turn_refused env st row (st', some r) r q refl in
    (
      rw (taken_refused env i st row rows st' r q)
          (subst (λ s. fold_from env j s (taken env st' rows) ≡ ok (rest.0, [])) same (h j).0),
      rw (taken_refused env i st row rows st' r q) (omega (arith, (h 0).1)),
    )

-- Whatever records a transcript holds: the records that were not rejected, folded alone, give the
-- same contract and no rejection, and every record was either taken or rejected.
pub fold_from-taken :
    (env : Env) (i j : ℕ) (st : Option State) (rows : List Row) (out : Folded)
    → fold_from env i st rows ≡ ok out
    → Replays env j st rows out
unfolding fold_from taken
fold_from-taken env i j st [] out h = subst (Replays env j st []) (ok_inj h) (refl, refl)
fold_from-taken env i j st (row ∷ rows) out h =
    let (t, rest, q, a, b) = fold_from_inv env i st row rows out h in
    subst (Replays env j st (row ∷ rows)) b (
      replay_round env i j st row rows t rest q
        (λ k. fold_from-taken env (i + 1) k t.0 rows rest a))
