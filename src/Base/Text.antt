-- ===== src/Base/Text.antt =====
-- Python's text operations that the sources use: code points, ASCII classes, `lower`, `strip`.
use Prim.Native.Char.{code}
use Prim.Native.Nat.{ℕ, ◌+◌}
use Prim.Native.String.{String}
use mathlib.Core.Bool.{Bool, true, false, ◌&&◌, ◌||◌}
use mathlib.Core.List.{List, [], ◌∷◌, ◌++◌}
use text.Mathlib.Text.{◌==◌ as str_eq}
pub use text.Mathlib.TextEquality.{eq_iff}
use lumi_observatory.Base.Tests.{ltb, leb, ◌==◌, if◌then◌else◌}

-- equality of texts
infix 50 ◌=ₛ◌
abbrev pub ◌=ₛ◌ : String → String → Bool
a =ₛ b = str_eq a b

-- The code points of a text.
abbrev pub codes : String → List ℕ
codes String.[] = []
codes (String.◌∷◌ c s) = code c ∷ codes s

-- `text in (…)`
abbrev pub one_of : String → List String → Bool
one_of s [] = false
one_of s (t ∷ ts) = s =ₛ t || one_of s ts

abbrev pub is_digit : ℕ → Bool
is_digit c = leb b'0' c && leb c b'9'

abbrev pub is_upper : ℕ → Bool
is_upper c = leb b'A' c && leb c b'Z'

abbrev pub is_lower : ℕ → Bool
is_lower c = leb b'a' c && leb c b'z'

abbrev pub is_alnum : ℕ → Bool
is_alnum c = is_digit c || (is_upper c || is_lower c)

-- `[0-9a-f]`
abbrev pub is_hex : ℕ → Bool
is_hex c = is_digit c || (leb b'a' c && leb c b'f')

-- `str.lower` of one ASCII character
abbrev pub lower_code : ℕ → ℕ
lower_code c = if is_upper c then c + 32 else c

abbrev pub lower_codes : List ℕ → List ℕ
lower_codes [] = []
lower_codes (c ∷ cs) = lower_code c ∷ lower_codes cs

-- equality of sequences of code points
abbrev pub codes_eq : List ℕ → List ℕ → Bool
codes_eq [] [] = true
codes_eq (a ∷ rest) (b ∷ others) = a == b && codes_eq rest others
codes_eq _ _ = false

-- `str.isspace`, which `str.strip` and `\s` of `re` use
abbrev pub is_space : ℕ → Bool
is_space c =
    (leb 9 c && leb c 13)
    || (leb 28 c && leb c 32)
    || c == 0x85
    || c == 0xa0
    || c == 0x1680
    || (leb 0x2000 c && leb c 0x200a)
    || (leb 0x2028 c && leb c 0x2029)
    || c == 0x202f
    || c == 0x205f
    || c == 0x3000

-- `str.lstrip`
abbrev pub lstrip : List ℕ → List ℕ
lstrip [] = []
lstrip (c ∷ cs) = let rest = lstrip cs in if is_space c then rest else c ∷ cs

-- `str.rstrip`
abbrev pub rstrip : List ℕ → List ℕ
rstrip [] = []
rstrip (c ∷ cs) =
    let rest = rstrip cs in
    elim rest [ [] ↦ if is_space c then [] else c ∷ [] | x ∷ xs ↦ c ∷ x ∷ xs ]

-- `str.strip`
abbrev pub strip : List ℕ → List ℕ
strip cs = rstrip (lstrip cs)

abbrev pub starts : List ℕ → List ℕ → Bool
starts [] s = true
starts (p ∷ ps) [] = false
starts (p ∷ ps) (c ∷ s) = p == c && starts ps s

-- `text.split(",")` with each part stripped, the parts that are empty then dropped
abbrev pub keep_part : List ℕ → List (List ℕ) → List (List ℕ)
keep_part part rest = elim (strip part) [ [] ↦ rest | c ∷ cs ↦ (c ∷ cs) ∷ rest ]

abbrev pub comma_parts_from : List ℕ → List ℕ → List (List ℕ)
comma_parts_from part [] = keep_part part []
comma_parts_from part (c ∷ cs) =
    let ended = keep_part part (comma_parts_from [] cs) in
    let longer = comma_parts_from (part ++ c ∷ []) cs in
    elim (c == b',') [ true ↦ ended | false ↦ longer ]

abbrev pub comma_parts : String → List (List ℕ)
comma_parts s = comma_parts_from [] (codes s)

-- membership in a set of texts
abbrev pub member : List ℕ → List (List ℕ) → Bool
member s [] = false
member s (t ∷ ts) = codes_eq s t || member s ts

-- `w in text` of two texts
abbrev pub contains : List ℕ → List ℕ → Bool
contains [] [] = true
contains (x ∷ xs) [] = false
contains w (c ∷ cs) = starts w (c ∷ cs) || contains w cs

-- `a < b` on texts
unfoldable pub text_lt : List ℕ → List ℕ → Bool
text_lt [] [] = false
text_lt [] (b ∷ bs) = true
text_lt (a ∷ more) [] = false
text_lt (a ∷ more) (b ∷ bs) = ltb a b || (a == b && text_lt more bs)
