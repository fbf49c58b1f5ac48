-- ===== src/Fold/Tests.antt =====
-- Runs of the fold on small transcripts, and the theorems at concrete records.
use mathlib.Core.Path.{subst}
use lumi_observatory.Base.{
  ℕ, true, false, String, List, [], ◌∷◌, ◌≡◌, refl, sym, ◌∙◌, ◌≢◌, none, some, if◌then◌else◌,
}
use lumi_observatory.Base.Int.{pos}
use lumi_observatory.Base.Text.{codes, ◌=ₛ◌, codes_eq}
use lumi_observatory.Fold.Json.{
  Json, is_text, is_hashable, Fields, get, keys, without, int, text, array, nil, cons, end, field,
}
use lumi_observatory.Fold.Reason.{Status, claimed, type_error, ok, raise, ok_inj}
use lumi_observatory.Fold.Reason
use lumi_observatory.Fold.Pattern.{
  did_re, hex32, nonce_re, amount_re, asset_re, rail_re, statement_re,
}
use lumi_observatory.Fold.Frame.{
  Env, validate_frame, decode_frame, offer_id, contract_id, deal_room,
}
use lumi_observatory.Fold.Machine.{
  State, open_contract, apply_frame, apply_kind, apply_accept, accepted_state, apply_lock,
  apply_reveal, apply_refund, rail_offered, verify_hash_preimage,
}
use lumi_observatory.Fold.Run.{
  Row, Rejection, Folded, expected_room, fold, turn, turn_at, fold_from,
}
use lumi_observatory.Fold.Inv.{Inv}
use lumi_observatory.Fold.Guards.{Move, apply_frame-Move}
use lumi_observatory.Fold.Refusal.{claim_or_refund}
use lumi_observatory.Fold.Replay.{Replays, fold_from-taken}
use lumi_observatory.Fold.Deal.{fold_from-Inv}
use lumi_observatory.Fold.Crash.{Hashes, RowHashes, fold_from_total}

abbrev alice : String
alice = "did:key:zA"

abbrev bob : String
bob = "did:key:zB"

abbrev hex_a : String
hex_a = "aaaaaaaaaaaaaaaaaaaaaaaaaaaaaaaaaaaaaaaaaaaaaaaaaaaaaaaaaaaaaaaa"

abbrev id_a : String
id_a = "0xaaaaaaaaaaaaaaaaaaaaaaaaaaaaaaaaaaaaaaaaaaaaaaaaaaaaaaaaaaaaaaaa"

abbrev offer_frame : Fields
offer_frame = field "type" (text "offer") (
    field "from" (text alice) (
      field "role" (text "payer") (
        field "amount" (text "10") (
          field "asset" (text "FLOP") (
            field "lock" (text "hash") (
              field "rails" (array (cons (text "flop-htlc") nil)) (
                field "expiresMs" (int (pos 100)) (
                  field "claimByMs" (int (pos 200)) (
                    field "refundAfterMs" (int (pos 300))
                      (field "nonce" (text "00000000") (field "id" (text id_a) end)))))))))))

abbrev accept_frame : Fields
accept_frame = field "type" (text "accept") (
    field "from" (text bob) (
      field "ref" (text id_a) (
        field "statement" (text id_a)
          (field "contract" (text id_a) (field "nonce" (text "00000001") end)))))

abbrev lock_frame : Fields
lock_frame = field "type" (text "lock") (
    field "from" (text alice) (
      field "contract" (text id_a) (field "rail" (text "FLOP-htlc") (field "ref" (text "r1") end))))

abbrev reveal_frame : Fields
reveal_frame =
    field "type" (text "reveal")
      (field "from" (text bob) (field "contract" (text id_a) (field "secret" (text id_a) end)))

abbrev broken_frame : Fields
broken_frame = field "type" (array nil) (field "from" (text bob) end)

-- The transcript's lines name their frames by one letter, and every hash is the same.
abbrev demo : Env
demo = record {
  loads = λ body.
      if codes_eq body (codes "{o}")
      then some offer_frame
      else if codes_eq body (codes "{a}")
      then some accept_frame
      else if codes_eq body (codes "{l}")
      then some lock_frame
      else if codes_eq body (codes "{r}")
      then some reveal_frame
      else if codes_eq body (codes "{x}")
      then some broken_frame
      else none;
  dumps = λ v. "";
  sha256_text = λ s. hex_a;
  sha256_bytes = λ s. hex_a;
}

abbrev row : String → ℕ → String → String → Row
row room t sender line = record { room = room; time_ms = pos t; sender = sender; line = line }

abbrev deal : String
deal = "mb-p-tclk-aaaaaaaaaaaaaaaa"

abbrev story : List Row
story =
    row "tclk-offers" 1 alice "tclk1 {o}"
    ∷ row "tclk-offers" 2 bob "tclk1 {a}"
    ∷ row deal 3 bob "hello"
    ∷ row deal 4 alice "tclk1  {l} "
    ∷ row deal 5 bob "tclk1 {r}"
    ∷ []

abbrev opened_deal : State
opened_deal = record {
  status = Reason.proposed;
  offer = offer_frame;
  offer_from = alice;
  payer = some alice;
  payee = none;
  contract = none;
  statement = none;
  rail = none;
  rail_ref = none;
  secret = none;
}

abbrev locked_deal : State
locked_deal = record opened_deal {
  status = Reason.locked;
  payee = some bob;
  contract = some id_a;
  statement = some id_a;
  rail = some "FLOP-htlc";
  rail_ref = some "r1";
}

abbrev claimed_deal : State
claimed_deal = record locked_deal { status = claimed; secret = some id_a }

abbrev noise : List Rejection
noise = record { index = 2; kind = Json.null; reason = Reason.not_decoded } ∷ []

unfoldable machine : Unit {0}
unfolding fold turn turn_at decode_frame validate_frame open_contract apply_frame apply_kind
    apply_accept accepted_state apply_lock apply_reveal apply_refund get keys offer_id contract_id
    without did_re hex32 nonce_re amount_re asset_re rail_re statement_re rail_offered
    verify_hash_preimage deal_room
machine = tt

story_folded : fold_from demo 0 none story ≡ ok (some claimed_deal, noise)
unfolding machine
story_folded = refl

story_claimed : fold demo story ≡ ok (some claimed, noise)
unfolding machine
story_claimed = refl

refund_frame : Fields
refund_frame =
    field "type" (text "refund") (field "from" (text alice) (field "contract" (text id_a) end))

claims_at_299 : apply_frame demo locked_deal reveal_frame (pos 299) ≡ ok (claimed_deal, none)
unfolding machine
claims_at_299 = refl

no_refund_at_299 :
    apply_frame demo locked_deal refund_frame (pos 299)
    ≡ ok (locked_deal, some (Reason.refund_window_closed Reason.refund))
unfolding machine refund_frame
no_refund_at_299 = refl

apply_frame-Move_example : Move demo locked_deal reveal_frame (pos 299) Reason.locked claimed
apply_frame-Move_example =
    apply_frame-Move demo locked_deal reveal_frame (pos 299) (claimed_deal, none) claims_at_299

claim_or_refund_example : ◌≢◌ {A = Status} Reason.locked Reason.refunded
claim_or_refund_example =
    claim_or_refund demo locked_deal reveal_frame refund_frame (pos 299) (claimed_deal, none)
      (locked_deal, some (Reason.refund_window_closed Reason.refund)) refl claims_at_299
      no_refund_at_299 refl

fold_from-taken_example : Replays demo 7 none story (some claimed_deal, noise)
fold_from-taken_example =
    fold_from-taken demo 0 7 none story (some claimed_deal, noise) story_folded

fold_from-Inv_example : Inv demo claimed_deal
fold_from-Inv_example =
    fold_from-Inv demo 0 story claimed_deal (some claimed_deal, noise) story_folded refl

late_refund :
    fold_from demo 0 (some claimed_deal) (row deal 9 alice "tclk1 {l}" ∷ [])
    ≡ ok (
      some claimed_deal,
      record { index = 0; kind = text "lock"; reason = Reason.in_status Reason.lock claimed } ∷ [],
    )
unfolding machine
late_refund = refl

offer_row_decodes : decode_frame demo "tclk1 {o}" ≡ ok offer_frame
unfolding machine
offer_row_decodes = refl

offer-RowHashes : RowHashes demo (row "tclk-offers" 1 alice "tclk1 {o}")
unfolding get
offer-RowHashes f e = subst Hashes (ok_inj (sym offer_row_decodes ∙ e)) (refl, refl)

fold_from_total_example :
    (out : Folded) × (fold_from demo 0 none (row "tclk-offers" 1 alice "tclk1 {o}" ∷ []) ≡ ok out)
fold_from_total_example =
    fold_from_total demo 0 none (row "tclk-offers" 1 alice "tclk1 {o}" ∷ []) (offer-RowHashes, tt)

broken_decodes : decode_frame demo "tclk1 {x}" ≡ ok broken_frame
unfolding machine
broken_decodes = refl

in_deal_room : (deal =ₛ expected_room locked_deal broken_frame) ≡ true
unfolding machine expected_room
in_deal_room = refl

broken_facts :
    (is_text (get "from" broken_frame) bob ≡ true) × (is_hashable (get "type" broken_frame) ≡ false)
unfolding get
broken_facts = (refl, refl)
