-- ===== src/Market/Order.antt =====
-- The canonical JSON does not depend on the order in which the members of a dict stand.
use mathlib.Core.List.{Perm, Permᴰ}
use mathlib.Core.List.Perm
use mathlib.Core.Path.{subst}
use mathlib.Core.Logic.{∥∥₁_elim}
use lumi_observatory.Base.{
  true, false, not, String, List, [], ◌∷◌, ◌++◌, map, All, ◌≡◌, refl, sym, ap, ◌∙◌, arith,
}
use lumi_observatory.Base.Text.{codes, codes_eq, text_lt}
use lumi_observatory.Fold.Json.{Json, object, Fields, end, field}
use lumi_observatory.Market.Offer.{Text}
use lumi_observatory.Market.Canonical.{
  Member, insert_member, sorted_members, joined, shown_members, canonical_json, canonical_members,
}

lt_flip : (a b : Text) → codes_eq a b ≡ false → text_lt a b ≡ not (text_lt b a)
unfolding text_lt
lt_flip [] [] h = absurd (cc)
lt_flip [] (b ∷ bs) h = refl
lt_flip (a ∷ more) [] h = refl
lt_flip (a ∷ more) (b ∷ bs) h = ground (arith, lt_flip more bs)

lt_trans : (a b c : Text) → text_lt a b ≡ true → text_lt b c ≡ true → text_lt a c ≡ true
unfolding text_lt
lt_trans [] [] c h i = absurd (cc)
lt_trans [] (b ∷ bs) [] h i = absurd (cc)
lt_trans [] (b ∷ bs) (c ∷ cs) h i = refl
lt_trans (a ∷ more) [] c h i = absurd (cc)
lt_trans (a ∷ more) (b ∷ bs) [] h i = absurd (cc)
lt_trans (a ∷ more) (b ∷ bs) (c ∷ cs) h i = ground (arith, lt_trans more bs cs)

abbrev key : Member → Text
key m = codes m.0

-- two members with different keys
abbrev Apart : Member → Member → Type 0
Apart m n = codes_eq (key m) (key n) ≡ false

codes_eq_sym : (a b : Text) → codes_eq a b ≡ codes_eq b a
codes_eq_sym [] [] = refl
codes_eq_sym [] (b ∷ bs) = refl
codes_eq_sym (a ∷ more) [] = refl
codes_eq_sym (a ∷ more) (b ∷ bs) = ground (arith, codes_eq_sym more bs)

insert_comm :
    (m n : Member) (l : List Member)
    → Apart m n
    → insert_member m (insert_member n l) ≡ insert_member n (insert_member m l)
unfolding insert_member
insert_comm m n [] h = ground (arith, lt_flip (key m) (key n) h)
insert_comm m n (x ∷ xs) h = ground (
  arith,
  lt_flip (key m) (key n) h,
  lt_trans (key m) (key x) (key n),
  lt_trans (key n) (key m) (key x),
  lt_trans (key m) (key n) (key x),
  lt_trans (key n) (key x) (key m),
  insert_comm m n xs h,
)

-- every two members have different keys
abbrev pub Distinct : List Member → Type 0
Distinct [] = Unit
Distinct (m ∷ ms) = All (Apart m) ms × Distinct ms

All-Perm : (P : Member → Type 0) {xs ys : List Member} → Permᴰ xs ys → All P xs → All P ys
All-Perm P Permᴰ.nil h = h
All-Perm P (Permᴰ.cons e d) (p, ps) = (subst P e p, All-Perm P d ps)
All-Perm P (Permᴰ.swap e f) (p, (q, ps)) = (subst P f q, (subst P e p, ps))
All-Perm P (Permᴰ.trans d f) h = All-Perm P f (All-Perm P d h)

Distinct-Perm : {xs ys : List Member} → Permᴰ xs ys → Distinct xs → Distinct ys
Distinct-Perm Permᴰ.nil h = h
Distinct-Perm (Permᴰ.cons {a = a} {l₂ = l} e d) (p, ps) =
    (subst (λ m. All (Apart m) l) e (All-Perm (Apart a) d p), Distinct-Perm d ps)
Distinct-Perm (Permᴰ.swap {a = a} {b = b} {b' = b'} {l = l} e f) ((p, ps), (q, rest)) =
    subst (λ m. Distinct (m ∷ b' ∷ l)) f
      (subst (λ m. Distinct (b ∷ m ∷ l)) e ((codes_eq_sym (key b) (key a) ∙ p, q), (ps, rest)))
Distinct-Perm (Permᴰ.trans d f) h = Distinct-Perm f (Distinct-Perm d h)

sorted-Perm :
    {xs ys : List Member} → Permᴰ xs ys → Distinct xs → sorted_members xs ≡ sorted_members ys
unfolding sorted_members
sorted-Perm Permᴰ.nil h = refl
sorted-Perm (Permᴰ.cons e d) (p, ps) = rw (e, sorted-Perm d ps) refl
sorted-Perm (Permᴰ.swap {a = a} {b = b} {l = l} e f) ((p, ps), rest) =
    rw (sym e, sym f) (insert_comm a b (sorted_members l) p)
sorted-Perm (Permᴰ.trans d f) h = sorted-Perm d h ∙ sorted-Perm f (Distinct-Perm d h)

-- the members of a dict
abbrev pub items : Fields → List (String × Json)
items end = []
items (field k v fs) = (k, v) ∷ items fs

shown : (js_json : Json → Text) → String × Json → Member
shown js_json (k, v) = (k, canonical_json js_json v)

members_map :
    (js_json : Json → Text) (fs : Fields)
    → canonical_members js_json fs ≡ map (shown js_json) (items fs)
unfolding canonical_json shown
members_map js_json end = refl
members_map js_json (field k v fs) = ap ((k, canonical_json js_json v) ∷◌) (members_map js_json fs)

-- no key stands twice
abbrev pub DistinctKeys : Fields → Type 0
DistinctKeys end = Unit
DistinctKeys (field k v fs) =
    All (λ m. codes_eq (codes k) (codes m.0) ≡ false) (items fs) × DistinctKeys fs

Apart-All :
    (js_json : Json → Text) (k : String) (v : Text) (fs : Fields)
    → All (λ m. codes_eq (codes k) (codes m.0) ≡ false) (items fs)
    → All (Apart (k, v)) (canonical_members js_json fs)
unfolding canonical_json
Apart-All js_json k v end h = tt
Apart-All js_json k v (field j w fs) (h, hs) = (h, Apart-All js_json k v fs hs)

members-Distinct :
    (js_json : Json → Text) (fs : Fields)
    → DistinctKeys fs
    → Distinct (canonical_members js_json fs)
unfolding canonical_json
members-Distinct js_json end h = tt
members-Distinct js_json (field k v fs) (h, hs) =
    (Apart-All js_json k (canonical_json js_json v) fs h, members-Distinct js_json fs hs)

members-Perm :
    (js_json : Json → Text) (fs gs : Fields)
    → Perm (items fs) (items gs)
    → Perm (canonical_members js_json fs) (canonical_members js_json gs)
members-Perm js_json fs gs p =
    rw (members_map js_json fs, members_map js_json gs) (Perm.map (shown js_json) p)

Text_set : IsSet Text
Text_set = hlevel

-- Two dicts with the same members in any order, no key twice, have the same canonical JSON.
pub canonical_json-Perm :
    (js_json : Json → Text) (fs gs : Fields)
    → DistinctKeys fs
    → Perm (items fs) (items gs)
    → canonical_json js_json (object fs) ≡ canonical_json js_json (object gs)
unfolding canonical_json Perm
canonical_json-Perm js_json fs gs distinct p =
    ∥∥₁_elim (members-Perm js_json fs gs p) (Text_set _ _) (λ d.
      ap (λ ms. b'{' ∷ joined (shown_members js_json ms) ++ b'}' ∷ [])
        (sorted-Perm d (members-Distinct js_json fs distinct)))
