-- ===== src/Fold/Pattern.antt =====
-- The regular expressions of apps/scheduler/br_fold.py, as tests of the code points of a text.
-- `$` of Python's `re` also matches before one final newline; `chomp` drops that newline.
use lumi_observatory.Base.{
  ℕ, ◌==◌, leb, length, all, is_nil, Bool, false, not, ◌&&◌, ◌||◌, List, [], ◌∷◌, String,
  if◌then◌else◌,
}
use lumi_observatory.Base.Text.{codes, is_digit, is_upper, is_lower, is_alnum, is_hex, starts}

unfoldable pub chomp : List ℕ → List ℕ
chomp [] = []
chomp (c ∷ []) = if c == 10 then [] else c ∷ []
chomp (c ∷ d ∷ r) = c ∷ chomp (d ∷ r)

abbrev pub is_base58 : ℕ → Bool
is_base58 c =
    (leb b'1' c && leb c b'9')
    || (is_upper c && not (c == b'I' || c == b'O'))
    || (is_lower c && not (c == b'l'))

abbrev pub is_asset : ℕ → Bool
is_asset c = is_alnum c || c == b'.' || c == b'_' || c == b'-'

abbrev pub is_rail : ℕ → Bool
is_rail c = is_asset c || c == b':'

-- `^p{lo,hi}$`
abbrev pub counted : (ℕ → Bool) → ℕ → ℕ → List ℕ → Bool
counted p lo hi cs = leb lo (length cs) && (leb (length cs) hi && all p cs)

-- `^0x[0-9a-f]{n}$`
abbrev pub hex_digits : ℕ → List ℕ → Bool
hex_digits n (z ∷ x ∷ cs) = z == b'0' && (x == b'x' && counted is_hex n n cs)
hex_digits n _ = false

abbrev pub did_key : List ℕ → Bool
did_key (d ∷ i ∷ d' ∷ c ∷ k ∷ e ∷ y ∷ c' ∷ z ∷ cs) =
    starts (codes "did:key:z") (d ∷ i ∷ d' ∷ c ∷ k ∷ e ∷ y ∷ c' ∷ z ∷ [])
    && (not (is_nil cs) && all is_base58 cs)
did_key _ = false

-- DID_RE, HEX32, NONCE_RE, AMOUNT_RE, ASSET_RE, RAIL_RE, and the statement of an acceptance
unfoldable pub did_re : String → Bool
unfolding chomp
did_re s = did_key (chomp (codes s))

unfoldable pub hex32 : String → Bool
unfolding chomp
hex32 s = hex_digits 64 (chomp (codes s))

unfoldable pub nonce_re : String → Bool
unfolding chomp
nonce_re s = counted is_hex 8 64 (chomp (codes s))

unfoldable pub amount_re : String → Bool
unfolding chomp
amount_re s = let cs = chomp (codes s) in not (is_nil cs) && all is_digit cs

unfoldable pub asset_re : String → Bool
unfolding chomp
asset_re s = counted is_asset 1 32 (chomp (codes s))

unfoldable pub rail_re : String → Bool
unfolding chomp
rail_re s = counted is_rail 1 64 (chomp (codes s))

unfoldable pub statement_re : String → Bool
unfolding chomp
statement_re s = let cs = chomp (codes s) in hex_digits 64 cs || hex_digits 66 cs
