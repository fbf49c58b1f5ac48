-- ===== src/Ssrf/Clean.antt =====
-- The cleaned host name of packages/connectors/ssrf.py, `host.rstrip(".").lower()`, is clean.
use lumi_observatory.Base.{ℕ, ◌==◌, [], ◌∷◌, ◌≡◌, refl, sym, ap, ◌∙◌, if◌then◌else◌, arith}
use lumi_observatory.Base.Text.{lower_code, lower_codes}
use lumi_observatory.Planner.Scope.{Text, rstrip_dot}
use lumi_observatory.Ssrf.Host.{clean}

-- one character before a stripped rest
abbrev put_before : ℕ → Text → Text
put_before c [] = if c == b'.' then [] else c ∷ []
put_before c (x ∷ xs) = c ∷ x ∷ xs

rstrip_step : (c : ℕ) (cs : Text) → rstrip_dot (c ∷ cs) ≡ put_before c (rstrip_dot cs)
unfolding rstrip_dot
rstrip_step c cs = elim (rstrip_dot cs) [ [] ↦ refl | x ∷ xs ↦ refl ]

lower_lower_code : (c : ℕ) → lower_code (lower_code c) ≡ lower_code c
lower_lower_code c = ground arith

lower_lower : (t : Text) → lower_codes (lower_codes t) ≡ lower_codes t
lower_lower [] = refl
lower_lower (c ∷ cs) = rw (lower_lower_code c, lower_lower cs) refl

put_before_lower :
    (c : ℕ) (r : Text) → put_before (lower_code c) (lower_codes r) ≡ lower_codes (put_before c r)
put_before_lower c [] = ground arith
put_before_lower c (x ∷ xs) = refl

rstrip_lower : (t : Text) → rstrip_dot (lower_codes t) ≡ lower_codes (rstrip_dot t)
unfolding rstrip_dot
rstrip_lower [] = refl
rstrip_lower (c ∷ cs) =
    rstrip_step (lower_code c) (lower_codes cs)
    ∙ ap (put_before (lower_code c)) (rstrip_lower cs)
    ∙ put_before_lower c (rstrip_dot cs)
    ∙ ap lower_codes (sym (rstrip_step c cs))

stripped_before :
    (c : ℕ) (r : Text) → rstrip_dot r ≡ r → rstrip_dot (put_before c r) ≡ put_before c r
unfolding rstrip_dot
stripped_before c [] h = ground arith
stripped_before c (x ∷ xs) h = rstrip_step c (x ∷ xs) ∙ ap (put_before c) h

rstrip_rstrip : (t : Text) → rstrip_dot (rstrip_dot t) ≡ rstrip_dot t
unfolding rstrip_dot
rstrip_rstrip [] = refl
rstrip_rstrip (c ∷ cs) =
    ap rstrip_dot (rstrip_step c cs)
    ∙ stripped_before c (rstrip_dot cs) (rstrip_rstrip cs)
    ∙ sym (rstrip_step c cs)

pub clean-clean : (host : Text) → clean (clean host) ≡ clean host
clean-clean host =
    ap lower_codes (rstrip_lower (rstrip_dot host) ∙ ap lower_codes (rstrip_rstrip host))
    ∙ lower_lower (rstrip_dot host)
