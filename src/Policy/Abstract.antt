-- ===== src/Policy/Abstract.antt =====
-- The approval service against an abstract machine that knows of each approval only its status and its
-- expiry: which row stands where, the decisions, runs, executions and outbox are forgotten.
use lumi_observatory.Base.{
  ℕ, ◌==◌, Bool, false, String, List, [], ◌∷◌, Option, none, some, is_some, if◌then◌else◌,
}
use lumi_observatory.Base.Int.{ℤ, pos, ◌+ℤ◌}
use lumi_observatory.Policy.Records.{
  Status, pending, approved, rejected, expired, consumed, Choice, approve, reject, other, Approval,
  Db, find_approval,
}
use lumi_observatory.Policy.Service.{
  Refusal, invalid_id, not_found, has_expired, bad_decision, bad_user, already_decided, Result, ok,
  raise, user_of, is_approved, is_past, decide_with_continuation, consume, consume_and_record,
}
use lumi_observatory.Policy.Trace.{Op, creating, deciding, consuming, recording, marking, step}

-- what the abstract machine knows of an approval: its status and its expiry
abbrev pub Seen : Type 0
Seen = Status × Option ℤ

abbrev pub seen : Approval → Seen
seen a = (a.status, a.expires_at)

abbrev pub seen_of : Option Approval → Option Seen
seen_of none = none
seen_of (some a) = some (seen a)

abbrev pub view : Db → ℕ → Option Seen
view db k = seen_of (find_approval k db.approvals)

-- the abstract changes of one approval
abbrev pub choose : Choice → Option (Option ℕ) → Option ℤ → Seen
choose approve (some u) e = (approved, e)
choose reject (some u) e = (rejected, e)
choose _ _ e = (pending, e)

abbrev pub settle : Choice → Option (Option ℕ) → ℤ → Seen → Seen
settle d u now (pending, e) = if is_past e now then (expired, e) else choose d u e
settle d u now (s, e) = (s, e)

abbrev pub use_up : Seen → Seen
use_up (approved, e) = (consumed, e)
use_up (s, e) = (s, e)

abbrev pub lapse : Seen → Seen
lapse (pending, e) = (expired, e)
lapse (s, e) = (s, e)

abbrev pub use_in_time : ℤ → Seen → Seen
use_in_time now (s, e) = if is_past e now then lapse (s, e) else use_up (s, e)

-- a change of the approval with the given id, where it is one
abbrev pub change_some : (Seen → Seen) → Option Seen → Option Seen
change_some f none = none
change_some f (some v) = some (f v)

abbrev pub change_at : Option ℕ → (Seen → Seen) → (ℕ → Option Seen) → ℕ → Option Seen
change_at none f m k = m k
change_at (some j) f m k = if j == k then change_some f (m k) else m k

abbrev pub add_at : ℕ → Option ℤ → (ℕ → Option Seen) → ℕ → Option Seen
add_at i e m k = if is_some (m k) then m k else if i == k then some (pending, e) else none

abbrev pub both : Option ℕ → Option ℕ → Option ℕ
both i none = none
both i (some j) = i

-- the abstract machine
unfoldable pub spec_step : (String → Option ℕ) → Op → (ℕ → Option Seen) → ℕ → Option Seen
spec_step parse (creating i r a t ttl now) m = add_at i (some (now +ℤ pos ttl)) m
spec_step parse (deciding i d u now) m = change_at (parse i) (settle d (user_of parse u) now) m
spec_step parse (consuming i) m = change_at (parse i) use_up m
spec_step parse (recording i r now) m = change_at (both (parse i) (parse r)) (use_in_time now) m
spec_step parse (marking i s r) m = m

unfoldable pub spec_run : (String → Option ℕ) → List Op → (ℕ → Option Seen) → ℕ → Option Seen
spec_run parse [] m = m
spec_run parse (op ∷ ops) m = spec_run parse ops (spec_step parse op m)

-- what a call tells its caller: whether it hands out the approval (`True`, or the consumed execution), or how a
-- decision was refused, if it was; the others are not compared
pub data Reply : Type 0 where
  untold : Reply
  handed : Bool → Reply
  decided : Option Refusal → Reply

abbrev pub refusal_in : Result Approval → Option Refusal
refusal_in (ok a) = none
refusal_in (raise e) = some e

abbrev pub reply : (String → Option ℕ) → (ℕ → String) → Op → Db → Reply
reply parse show (deciding i d u now) db =
    decided (refusal_in (decide_with_continuation parse i d u now db).1)
reply parse show (consuming i) db = handed (consume parse i db).1
reply parse show (recording i r now) db = handed (consume_and_record parse show i r now db).1.0
reply parse show _ db = untold

abbrev pub approved_in : Option Seen → Bool
approved_in none = false
approved_in (some (s, e)) = is_approved s

abbrev pub approved_now : ℤ → Option Seen → Bool
approved_now now none = false
approved_now now (some (s, e)) = if is_past e now then false else is_approved s

abbrev pub test_at : Option ℕ → (Option Seen → Bool) → (ℕ → Option Seen) → Bool
test_at none f m = false
test_at (some j) f m = f (m j)

-- why a choice is refused on an approval that may still be decided
abbrev pub refuse_choice : Choice → Option (Option ℕ) → Option Refusal
refuse_choice other u = some bad_decision
refuse_choice _ none = some bad_user
refuse_choice _ (some u) = none

abbrev pub refuse : Choice → Option (Option ℕ) → ℤ → Option Seen → Option Refusal
refuse d u now none = some not_found
refuse d u now (some (pending, e)) = if is_past e now then some has_expired else refuse_choice d u
refuse d u now (some (s, e)) = some (already_decided s)

abbrev pub refuse_at :
    Option ℕ → Choice → Option (Option ℕ) → ℤ → (ℕ → Option Seen) → Option Refusal
refuse_at none d u now m = some invalid_id
refuse_at (some j) d u now m = refuse d u now (m j)

abbrev pub spec_reply : (String → Option ℕ) → Op → (ℕ → Option Seen) → Reply
spec_reply parse (deciding i d u now) m = decided (refuse_at (parse i) d (user_of parse u) now m)
spec_reply parse (consuming i) m = handed (test_at (parse i) approved_in m)
spec_reply parse (recording i r now) m =
    handed (test_at (both (parse i) (parse r)) (approved_now now) m)
spec_reply parse _ m = untold

-- what the callers of a sequence of calls are told, concretely and abstractly
abbrev pub answers : (String → Option ℕ) → (ℕ → String) → List Op → Db → List Reply
answers parse show [] db = []
answers parse show (op ∷ ops) db =
    reply parse show op db ∷ answers parse show ops (step parse show op db)

abbrev pub spec_answers : (String → Option ℕ) → List Op → (ℕ → Option Seen) → List Reply
spec_answers parse [] m = []
spec_answers parse (op ∷ ops) m =
    spec_reply parse op m ∷ spec_answers parse ops (spec_step parse op m)
