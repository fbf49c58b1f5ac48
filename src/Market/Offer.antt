-- ===== src/Market/Offer.antt =====
-- What packages/connectors/tclk.py reads from an offer: rails, brief, difficulty, amount and expiry. Texts
-- are code points; `lower` and `upper` are those of ASCII, and a digit is one of ASCII, where int() and the patterns of
-- the source take those of other scripts too.
use lumi_observatory.Base.{
  ℕ, zero, suc, ◌+◌, ◌-◌, ◌*◌, ◌==◌, Bool, true, false, not, ◌&&◌, ◌||◌, List, [], ◌∷◌, ◌++◌,
  Option, none, some, if◌then◌else◌,
}
use lumi_observatory.Base.Int.{ℤ, pos, negsuc, ltb_ℤ}
use lumi_observatory.Base.Text.{
  codes, is_digit, is_lower, is_space, lower_code, lower_codes, strip, starts,
}

abbrev pub Text : Type 0
Text = List ℕ

-- the `job` member, where it is a dict
pub record Job : Type 0 where
  pub context : Text
  pub proto : Text

-- A frame with the members the gates read, each as `str(d.get(name, "") or "")`; `rails` where it is a
-- list, with `str` of its items; an expiry as `float` of the member where it is set and `float` takes it.
pub record Frame : Type 0 where
  pub is_offer : Bool
  pub signed : Bool
  pub rails : Option (List Text)
  pub rail : Text
  pub asset : Text
  pub role : Text
  pub amount : Text
  pub spec : Text
  pub task : Text
  pub desc : Text
  pub job : Option Job
  pub expires_ms : Option ℤ
  pub expires : Option ℤ
  pub expires_at : Option ℤ

-- `a or b` on texts
abbrev pub text_or : Text → Text → Text
text_or [] b = b
text_or (c ∷ cs) b = c ∷ cs

-- the context under its proto, which alone is no brief
abbrev pub job_spec : Option Job → Text
job_spec none = []
job_spec (some j) = elim j.context [
  | [] ↦ []
  | c ∷ cs ↦ elim j.proto [ [] ↦ c ∷ cs | p ∷ ps ↦ (p ∷ ps) ++ b' ' ∷ c ∷ cs ]
]

unfoldable pub offer_raw_spec : Frame → Text
offer_raw_spec f =
    if not f.is_offer then [] else text_or (text_or f.spec (text_or f.task f.desc)) (job_spec f.job)

-- `[a-z0-9 ,._-]` kept, everything else a space
abbrev pub clean : ℕ → ℕ
clean c =
    if is_lower c || is_digit c || c == b' ' || c == b',' || c == b'.' || c == b'_' || c == b'-'
    then c
    else b' '

abbrev pub clean_all : Text → Text
clean_all [] = []
clean_all (c ∷ cs) = clean (lower_code c) ∷ clean_all cs

unfoldable pub offer_spec : Frame → Text
offer_spec f = clean_all (offer_raw_spec f)

-- `[str(r).strip().lower() for r in rails if str(r).strip()]`
abbrev pub listed : List Text → List Text
listed [] = []
listed (r ∷ rs) = elim (strip r) [ [] ↦ listed rs | c ∷ cs ↦ lower_codes (c ∷ cs) ∷ listed rs ]

abbrev pub single : Text → List Text
single [] = []
single (c ∷ cs) = (c ∷ cs) ∷ []

unfoldable pub offer_rails : Frame → List Text
offer_rails f = elim f.rails [ none ↦ single (lower_codes (strip f.rail)) | some rs ↦ listed rs ]

-- `\d+`: its value, the rest, and whether there was a digit
abbrev pub digits : ℕ → Bool → Text → ℕ × Text × Bool
digits value seen [] = (value, [], seen)
digits value seen (c ∷ cs) =
    let more = digits (value * 10 + (c - b'0')) true cs in
    if is_digit c then more else (value, c ∷ cs, seen)

abbrev pub skip_spaces : Text → Text
skip_spaces [] = []
skip_spaces (c ∷ cs) = let rest = skip_spaces cs in if is_space c then rest else c ∷ cs

-- `\s*/\s*(\d+)` after the first number
abbrev pub over : ℕ → Text → Option ℕ
over value [] = none
over value (c ∷ cs) = if c == b'/' && (digits 0 false (skip_spaces cs)).2 then some value else none

abbrev pub number_over : ℕ × Text × Bool → Option ℕ
number_over (value, rest, false) = none
number_over (value, rest, true) = over value (skip_spaces rest)

-- `\s+(\d+)\s*/\s*(\d+)` after the word
abbrev pub fraction : Text → Option ℕ
fraction [] = none
fraction (c ∷ cs) = if is_space c then number_over (digits 0 false (skip_spaces cs)) else none

abbrev pub drop : ℕ → Text → Text
drop zero s = s
drop (suc n) [] = []
drop (suc n) (c ∷ cs) = drop n cs

-- `re.search` of the difficulty, at the first place where it matches
unfoldable pub search_difficulty : Text → Option ℕ
search_difficulty [] = none
search_difficulty (c ∷ cs) =
    let later = search_difficulty cs in
    let here =
      if starts (codes "difficulty") (lower_codes (c ∷ cs))
      then fraction (drop 10 (c ∷ cs))
      else none in
    elim here [ none ↦ later | some n ↦ some n ]

unfoldable pub offer_difficulty : Frame → ℕ
offer_difficulty f = elim (search_difficulty (offer_raw_spec f)) [ none ↦ 0 | some n ↦ n ]

-- the digits of `int`, with single underscores between them
unfoldable pub int_digits : ℕ → Bool → Text → Option ℕ
int_digits value digit [] = if digit then some value else none
int_digits value digit (c ∷ cs) =
    let more = int_digits (value * 10 + (c - b'0')) true cs in
    let next = int_digits value false cs in
    if is_digit c then more else if c == b'_' && digit then next else none

abbrev pub negated : ℕ → ℤ
negated zero = pos 0
negated (suc n) = negsuc n

abbrev pub signed_digits : Text → Option ℤ
signed_digits [] = none
signed_digits (c ∷ cs) =
    let value : Option ℕ =
      if c == b'-' || c == b'+' then int_digits 0 false cs else int_digits 0 false (c ∷ cs) in
    elim value [ none ↦ none | some n ↦ if c == b'-' then some (negated n) else some (pos n) ]

-- `int` of a text, `none` where it raises
unfoldable pub int_of : Text → Option ℤ
int_of s = signed_digits (strip s)

-- `int(str(d.get("amount", "0") or 0))`
unfoldable pub amount_of : Frame → Option ℤ
amount_of f = int_of (text_or f.amount (codes "0"))

abbrev pub is_before : Option ℤ → ℤ → Bool
is_before none now = false
is_before (some v) now = ltb_ℤ v now

unfoldable pub offer_expired : Frame → ℤ → Bool
offer_expired f now =
    is_before f.expires_ms now || is_before f.expires now || is_before f.expires_at now

-- `accept_room`
unfoldable pub accept_room : ℤ → ℤ → ℤ → Bool
accept_room (negsuc n) used reserve = false
accept_room (pos zero) used reserve = false
accept_room (pos (suc n)) used (negsuc r) = ltb_ℤ used (pos (suc n))
accept_room (pos (suc n)) used (pos r) = ltb_ℤ used (pos (suc n + r))
