-- ===== src/Market/Ref.antt =====
-- ref_matches of packages/connectors/tclk.py: two references name the same thing, also when one is a suffix.
use lumi_observatory.Base.{
  ℕ, leb, ◌==◌, Bool, true, false, ◌&&◌, ◌||◌, [], ◌∷◌, ◌≡◌, refl, if◌then◌else◌, length, is_nil,
  arith,
}
use lumi_observatory.Base.Text.{codes, codes_eq, lower_codes, strip, starts}
use lumi_observatory.Market.Offer.{Text, drop}

-- `norm`
unfoldable pub norm : Text → Text
norm x = let s = lower_codes (strip x) in if starts (codes "0x") s then drop 2 s else s

-- `a.endswith(b)`
abbrev pub ends_with : Text → Text → Bool
ends_with [] b = is_nil b
ends_with (c ∷ cs) b = codes_eq (c ∷ cs) b || ends_with cs b

abbrev pub match_norm : Text → Text → Bool
match_norm a b =
    if is_nil a || is_nil b
    then false
    else if codes_eq a b
    then true
    else leb 12 (length a) && leb 12 (length b) && (ends_with a b || ends_with b a)

unfoldable pub ref_matches : Text → Text → Bool
ref_matches a b = match_norm (norm a) (norm b)

==_comm : (m n : ℕ) → (m == n) ≡ (n == m)
==_comm m n = ground arith

codes_eq_comm : (a b : Text) → codes_eq a b ≡ codes_eq b a
codes_eq_comm [] [] = refl
codes_eq_comm [] (y ∷ b) = refl
codes_eq_comm (x ∷ a) [] = refl
codes_eq_comm (x ∷ a) (y ∷ b) = rw (==_comm x y, codes_eq_comm a b) refl

swap_tests :
    (p q e m n u v : Bool)
    → (if p || q then false else if e then true else m && n && (u || v))
      ≡ (if q || p then false else if e then true else n && m && (v || u))
swap_tests p q e m n u v = ground arith

-- Whether two references match does not depend on which of them is given first.
pub ref_matches_comm : (a b : Text) → ref_matches a b ≡ ref_matches b a
unfolding ref_matches
ref_matches_comm a b =
    let x = norm a in
    let y = norm b in
    rw (codes_eq_comm x y) (
      swap_tests (is_nil x) (is_nil y) (codes_eq y x) (leb 12 (length x)) (leb 12 (length y))
        (ends_with x y) (ends_with y x))
