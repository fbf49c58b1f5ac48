-- ===== src/Context/Arrange.antt =====
-- The order of the segments in `assemble`: grouping, popping and sorting lose and invent nothing.
use mathlib.Core.Path.{subst}
use mathlib.Core.List.Perm
use mathlib.Core.List.{Perm, perm_append_comm, perm_middle, append_assoc, append-nil}
use lumi_observatory.Base.{String, List, [], ◌∷◌, ◌++◌, sym, inl, inr, Bool-cases}
use lumi_observatory.Base.Int.{ltb_ℤ}
use lumi_observatory.Base.Text.{◌=ₛ◌}
use lumi_observatory.Context.Segment.{Segment, sequence}
use lumi_observatory.Context.Assemble.{
  Groups, put, group, pop, take_types, flat, insert, by_relevance, arrange,
}

flat-put-Perm : (s : Segment) (g : Groups) → Perm (flat (put s g)) (s ∷ flat g)
unfolding flat put
flat-put-Perm s [] = Perm.refl (s ∷ [])
flat-put-Perm s ((t, l) ∷ rest) = elim (Bool-cases (t =ₛ s.segment_type)) [
  | inl e ↦ rw (e, append_assoc l (s ∷ []) (flat rest)) (perm_middle l (flat rest))
  | inr e ↦
      rw e (Perm.trans (Perm.append_left l (flat-put-Perm s rest)) (perm_middle l (flat rest)))
]

flat-group-Perm : (ss : List Segment) (g : Groups) → Perm (flat (group ss g)) (ss ++ flat g)
unfolding group
flat-group-Perm [] g = Perm.refl (flat g)
flat-group-Perm (s ∷ ss) g =
    Perm.trans (flat-group-Perm ss (put s g))
      (Perm.trans (Perm.append_left ss (flat-put-Perm s g)) (perm_middle ss (flat g)))

flat-pop-Perm : (t : String) (g : Groups) → Perm (flat g) ((pop t g).0 ++ flat (pop t g).1)
unfolding flat pop
flat-pop-Perm t [] = Perm.refl []
flat-pop-Perm t ((u, l) ∷ rest) = elim (Bool-cases (u =ₛ t)) [
  | inl e ↦ rw e (Perm.refl (l ++ flat rest))
  | inr e ↦ rw e (middle l (pop t rest).0 (flat (pop t rest).1) (flat rest) (flat-pop-Perm t rest))
]
  where
    middle : (l a b c : List Segment) → Perm c (a ++ b) → Perm (l ++ c) (a ++ (l ++ b))
    middle l a b c p = Perm.trans (Perm.append_left l p) (
        rw (sym (append_assoc l a b), sym (append_assoc a l b))
          (Perm.append_right b (perm_append_comm l a)))

flat-take_types-Perm :
    (ts : List String) (g : Groups)
    → Perm (flat g) ((take_types ts g).0 ++ flat (take_types ts g).1)
unfolding take_types
flat-take_types-Perm [] g = Perm.refl (flat g)
flat-take_types-Perm (t ∷ ts) g =
    let p = pop t g in
    rw (append_assoc p.0 (take_types ts p.1).0 (flat (take_types ts p.1).1))
      (Perm.trans (flat-pop-Perm t g) (Perm.append_left p.0 (flat-take_types-Perm ts p.1)))

insert-Perm : (s : Segment) (xs : List Segment) → Perm (insert s xs) (s ∷ xs)
unfolding insert
insert-Perm s [] = Perm.refl (s ∷ [])
insert-Perm s (x ∷ xs) = elim (Bool-cases (ltb_ℤ s.relevance x.relevance)) [
  | inl e ↦ rw e (Perm.trans (Perm.cons x (insert-Perm s xs)) (Perm.swap s x xs))
  | inr e ↦ rw e (Perm.refl (s ∷ x ∷ xs))
]

by_relevance-Perm : (xs : List Segment) → Perm (by_relevance xs) xs
unfolding by_relevance
by_relevance-Perm [] = Perm.refl []
by_relevance-Perm (s ∷ ss) =
    Perm.trans (insert-Perm s (by_relevance ss)) (Perm.cons s (by_relevance-Perm ss))

-- The order that `assemble` goes through holds exactly the added segments, each as often as it was added.
pub arrange-Perm : (segments : List Segment) → Perm (arrange segments) segments
unfolding arrange flat
arrange-Perm segments =
    let g = group segments [] in
    let t = take_types sequence g in
    Perm.trans (Perm.append_left t.0 (by_relevance-Perm (flat t.1))) (
      Perm.trans (Perm.symm (flat-take_types-Perm sequence g))
        (nil_right (flat-group-Perm segments [])))
  where
    nil_right : {l : List Segment} → Perm l (segments ++ []) → Perm l segments
    nil_right {l} p = subst (Perm l) (append-nil segments) p
