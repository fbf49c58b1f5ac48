-- ===== src/Fold/Crash.antt =====
-- Which transcripts make `fold` raise: a `set` lookup of a list or a dict is a `TypeError`, which the
-- handlers of `apply_frame` and `fold` do not catch.
use lumi_observatory.Base.{
  All, ℕ, ◌+◌, true, false, String, List, [], ◌∷◌, ◌≡◌, refl, ◌∙◌, Option, none, some, inl, inr,
  Bool-cases,
}
use lumi_observatory.Base.Int.{ℤ}
use lumi_observatory.Base.Text.{◌=ₛ◌, codes, strip}
use lumi_observatory.Fold.Json.{Json, Fields, get, is_text, is_hashable}
use lumi_observatory.Fold.Reason.{
  Kind, unknown_type, not_decoded, value_error, type_error, Result, ok, raise,
}
use lumi_observatory.Fold.Frame.{
  Env, req_match, req_type, kind_of, validate_offer, validate_kind, validate_keys, validate_as,
  validate_frame, decode_frame, decoded, frame_text,
}
use lumi_observatory.Fold.Pattern.{did_re}
use lumi_observatory.Fold.Machine.{State, applied, apply_frame, open_contract}
use lumi_observatory.Fold.Run.{
  Row, Turn, offer_room, expected_room, opened, turned, turn_at, turn_on, turn, rejected, Folded,
  fold_from,
}
use lumi_observatory.Fold.Replay.{fold_from_step, fold_from_raised}
use lumi_observatory.Fold.Caught.{IsCaught, IsCaught-bind, IsCaught-req_match, caught_rules}

IsCaught-validate_offer : (env : Env) (f : Fields) → IsCaught (validate_offer env f)
unfolding validate_offer
IsCaught-validate_offer env f = search caught_rules depth 20

IsCaught-validate_kind :
    (env : Env) (k : Kind) (f : Fields)
    → is_hashable (get "outcome" f) ≡ true
    → IsCaught (validate_kind env k f)
unfolding validate_kind
IsCaught-validate_kind env Kind.offer f h = IsCaught-validate_offer env f
IsCaught-validate_kind env _ f h = search caught_rules depth 12

IsCaught-req_type : (v : Json) → is_hashable v ≡ true → IsCaught (req_type v)
unfolding req_type
IsCaught-req_type v h = rw h (caught_kind (kind_of v))
  where
    caught_kind :
        (o : Option Kind)
        → IsCaught (elim o [ none ↦ raise (value_error (unknown_type v)) | some k ↦ ok k ])
    caught_kind none = tt
    caught_kind (some k) = tt

IsCaught-validate_keys : (k : Kind) (f : Fields) → IsCaught (validate_keys k f)
unfolding validate_keys
IsCaught-validate_keys k f = search caught_rules

-- the tests of membership in a `set` that a frame meets have a hash to look up
abbrev pub Hashes : Fields → Type 0
Hashes f = (is_hashable (get "type" f) ≡ true) × (is_hashable (get "outcome" f) ≡ true)

IsCaught-validate_as :
    (env : Env) (f : Fields) (k : Kind)
    → is_hashable (get "outcome" f) ≡ true
    → IsCaught (validate_as env f k)
unfolding validate_as
IsCaught-validate_as env f k h =
    IsCaught-bind (validate_keys k f) _ (IsCaught-validate_keys k f) (λ _.
      IsCaught-bind (req_match did_re "from" (get "from" f)) _
        (IsCaught-req_match did_re "from" (get "from" f))
        (λ _. IsCaught-bind (validate_kind env k f) _ (IsCaught-validate_kind env k f h) (λ _. tt)))

pub validate_frame-IsCaught : (env : Env) (f : Fields) → Hashes f → IsCaught (validate_frame env f)
unfolding validate_frame
validate_frame-IsCaught env f (a, b) =
    IsCaught-bind (req_type (get "type" f)) (validate_as env f) (IsCaught-req_type (get "type" f) a)
      (λ k. IsCaught-validate_as env f k b)

-- a turn that returns
abbrev Returns : {A : Type 0} → Result A → Type 0
Returns (ok a) = Unit
Returns (raise e) = ⊥

turn-Returns :
    (env : Env) (s : State) (f : Fields) (now : ℤ) (v : Result Kind)
    → IsCaught v
    → Returns (turned (applied env v s f now))
turn-Returns env s f now (ok k) h = tt
turn-Returns env s f now (raise (value_error r)) h = tt
turn-Returns env s f now (raise type_error) h = h

opened-Returns : (v : Result State) → IsCaught v → Returns (opened v)
opened-Returns (ok s) h = tt
opened-Returns (raise (value_error r)) h = tt
opened-Returns (raise type_error) h = h

turn_at-Returns :
    (env : Env) (st : Option State) (row : Row) (f : Fields)
    → Hashes f
    → Returns (turn_at env st row f)
unfolding turn_at apply_frame open_contract
turn_at-Returns env none row f h = elim (Bool-cases (is_text (get "type" f) "offer")) [
  | inl a ↦ elim (Bool-cases (row.room =ₛ offer_room)) [
    | inl b ↦
        rw (a, b)
          (opened-Returns (open_contract env f)
            (IsCaught-bind (validate_frame env f) _ (validate_frame-IsCaught env f h) (λ _. tt)))
    | inr b ↦ rw (a, b) tt
  ]
  | inr a ↦ rw a tt
]
turn_at-Returns env (some s) row f h = elim (Bool-cases (row.room =ₛ expected_room s f)) [
  | inl b ↦
      rw b
        (turn-Returns env s f row.time_ms (validate_frame env f) (validate_frame-IsCaught env f h))
  | inr b ↦ rw b tt
]

turn_on-Returns :
    (env : Env) (st : Option State) (row : Row) (d : Result Fields)
    → IsCaught d
    → ((f : Fields) → d ≡ ok f → Hashes f)
    → Returns (turn_on env st row d)
turn_on-Returns env st row (raise (value_error r)) c h = tt
turn_on-Returns env st row (raise type_error) c h = c
turn_on-Returns env st row (ok f) c h = elim (Bool-cases (is_text (get "from" f) row.sender)) [
  | inl a ↦ rw a (turn_at-Returns env st row f (h f refl))
  | inr a ↦ rw a tt
]

decode_frame-IsCaught : (env : Env) (line : String) → IsCaught (decode_frame env line)
unfolding decode_frame
decode_frame-IsCaught env line = decoded_caught (frame_text (strip (codes line)))
  where
    loaded : (o : Option Fields) → IsCaught (decoded o)
    loaded none = tt
    loaded (some f) = tt

    decoded_caught :
        (o : Option (List ℕ))
        → IsCaught (elim o [
          | none ↦ raise (value_error not_decoded)
          | some body ↦ decoded (env.loads body)
        ])
    decoded_caught none = tt
    decoded_caught (some body) = loaded (env.loads body)

-- what a row must decode to for the loop to go on past it
abbrev pub RowHashes : Env → Row → Type 0
RowHashes env row = (f : Fields) → decode_frame env row.line ≡ ok f → Hashes f

returned : {A : Type 0} (v : Result A) → Returns v → (a : A) × (v ≡ ok a)
returned (ok a) h = (a, refl)
returned (raise e) h = absurd h

turn_total :
    (env : Env) (st : Option State) (row : Row)
    → RowHashes env row
    → (t : Turn) × (turn env st row ≡ ok t)
unfolding turn
turn_total env st row h =
    returned (turn_on env st row (decode_frame env row.line)) (
      turn_on-Returns env st row (decode_frame env row.line) (decode_frame-IsCaught env row.line) h)

-- A transcript in which no decoded frame has a list or a dict for its type or its outcome is folded
-- to a result, however malformed its records are otherwise.
pub fold_from_total :
    (env : Env) (i : ℕ) (st : Option State) (rows : List Row)
    → All (RowHashes env) rows
    → (out : Folded) × (fold_from env i st rows ≡ ok out)
unfolding fold_from
fold_from_total env i st [] h = ((st, []), refl)
fold_from_total env i st (row ∷ rows) (h, hs) =
    let (t, q) = turn_total env st row h in
    let ((final, rest), r) = fold_from_total env (i + 1) t.0 rows hs in
    ((final, rejected env i row t.1 rest), fold_from_step env i st row rows t q ∙ (rw r))

-- With a contract open, one record from its sender, in the expected room, whose frame has a list or a
-- dict for its type makes the whole fold raise, whatever records follow.
pub fold_from_type_error :
    (env : Env) (i : ℕ) (s : State) (row : Row) (rows : List Row) (f : Fields)
    → decode_frame env row.line ≡ ok f
    → is_text (get "from" f) row.sender ≡ true
    → (row.room =ₛ expected_room s f) ≡ true
    → is_hashable (get "type" f) ≡ false
    → fold_from env i (some s) (row ∷ rows) ≡ raise type_error
fold_from_type_error env i s row rows f d a b h =
    fold_from_raised env i (some s) row rows type_error
      (unfold turn turn_at apply_frame validate_frame req_type in rw (d, a, b, h))
