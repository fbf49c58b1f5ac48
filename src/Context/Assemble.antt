-- ===== src/Context/Assemble.antt =====
-- ContextAssembler.assemble of packages/context_engine/assembler.py: the order of the segments, and the
-- selection within the budget.
use lumi_observatory.Base.{
  ℕ, ◌+◌, ◌-◌, ◌/◌, ltb, Bool, not, ◌&&◌, String, List, [], ◌∷◌, ◌++◌, if◌then◌else◌,
}
use lumi_observatory.Base.Int.{ltb_ℤ}
use lumi_observatory.Base.Text.{◌=ₛ◌, one_of}
use lumi_observatory.Context.Segment.{Segment, sequence, output_reserve, max_tokens_of}

-- `seg_by_type`, in the order of the first segments
abbrev pub Groups : Type 0
Groups = List (String × List Segment)

-- `seg_by_type.setdefault(s.segment_type, []).append(s)`
unfoldable pub put : Segment → Groups → Groups
put s [] = (s.segment_type, s ∷ []) ∷ []
put s ((t, l) ∷ rest) = if t =ₛ s.segment_type then (t, l ++ s ∷ []) ∷ rest else (t, l) ∷ put s rest

unfoldable pub group : List Segment → Groups → Groups
group [] g = g
group (s ∷ ss) g = group ss (put s g)

-- `seg_by_type.pop(stype, [])`
unfoldable pub pop : String → Groups → List Segment × Groups
pop t [] = ([], [])
pop t ((u, l) ∷ rest) =
    let (found, left) = pop t rest in if u =ₛ t then (l, rest) else (found, (u, l) ∷ left)

-- the segments of the types in order, and the groups that are left
unfoldable pub take_types : List String → Groups → List Segment × Groups
take_types [] g = ([], g)
take_types (t ∷ ts) g =
    let (found, left) = pop t g in let (more, last) = take_types ts left in (found ++ more, last)

unfoldable pub flat : Groups → List Segment
flat [] = []
flat ((t, l) ∷ rest) = l ++ flat rest

-- `remaining.sort(key=relevance, reverse=True)`, which keeps the order of equals
unfoldable pub insert : Segment → List Segment → List Segment
insert s [] = s ∷ []
insert s (x ∷ xs) = if ltb_ℤ s.relevance x.relevance then x ∷ insert s xs else s ∷ x ∷ xs

unfoldable pub by_relevance : List Segment → List Segment
by_relevance [] = []
by_relevance (s ∷ ss) = insert s (by_relevance ss)

-- `all_in_order`
unfoldable pub arrange : List Segment → List Segment
arrange segments =
    let (first, left) = take_types sequence (group segments []) in first ++ by_relevance (flat left)

abbrev pub is_critical : Segment → Bool
is_critical s = one_of s.segment_type ("system_policy" ∷ "task_goal" ∷ [])

pub data Reason : Type 0 where
  selected untrusted_exceeded budget_exceeded : Reason

-- what the loop decides on a segment
unfoldable pub verdict : ℕ → ℕ → ℕ → ℕ → Segment → Reason
verdict budget untrusted_budget used untrusted_used s =
    if s.untrusted && ltb untrusted_budget (untrusted_used + s.token_count)
    then untrusted_exceeded
    else if ltb budget (used + s.token_count) && not (is_critical s)
    then budget_exceeded
    else selected

abbrev pub keep_if : Reason → List Segment → List Segment → List Segment
keep_if selected kept skipped = kept
keep_if untrusted_exceeded kept skipped = skipped
keep_if budget_exceeded kept skipped = skipped

abbrev pub untrusted_part : Segment → ℕ
untrusted_part s = if s.untrusted then s.token_count else 0

-- the loop: the segments it keeps
unfoldable pub select : ℕ → ℕ → ℕ → ℕ → List Segment → List Segment
select budget untrusted_budget used untrusted_used [] = []
select budget untrusted_budget used untrusted_used (s ∷ ss) =
    let kept =
      select budget untrusted_budget (used + s.token_count) (untrusted_used + untrusted_part s)
        ss in
    let skipped = select budget untrusted_budget used untrusted_used ss in
    keep_if (verdict budget untrusted_budget used untrusted_used s) (s ∷ kept) skipped

abbrev pub budget_of : ℕ → ℕ
budget_of max_tokens = max_tokens_of max_tokens - output_reserve

-- `assemble`, its `ordered`; a quarter of the budget is for untrusted content
unfoldable pub assemble : ℕ → List Segment → List Segment
assemble max_tokens segments =
    select (budget_of max_tokens) (budget_of max_tokens / 4) 0 0 (arrange segments)
