-- ===== src/Context/Budget.antt =====
-- The selection of `assemble` within the budget.
use Prim.Native.Nat.{max}
use lumi_observatory.Base.{
  ℕ, ◌+◌, ◌*◌, ◌/◌, ◌≤◌, Bool, true, false, not, ◌&&◌, List, [], ◌∷◌, ◌≡◌, refl, ap, if◌then◌else◌,
  arith, inl, inr, Bool-cases, ◌⊎◌,
}
use lumi_observatory.Context.Segment.{Segment, output_reserve, max_tokens_of}
use lumi_observatory.Context.Assemble.{
  Reason, selected, untrusted_exceeded, budget_exceeded, is_critical, verdict, keep_if,
  untrusted_part, select, arrange, budget_of, assemble,
}

-- the tokens of all segments, of the untrusted ones, and of the policy and the goal
unfoldable pub tokens : List Segment → ℕ
tokens [] = 0
tokens (s ∷ ss) = s.token_count + tokens ss

unfoldable pub untrusted_tokens : List Segment → ℕ
untrusted_tokens [] = 0
untrusted_tokens (s ∷ ss) = untrusted_part s + untrusted_tokens ss

unfoldable pub critical_tokens : List Segment → ℕ
critical_tokens [] = 0
critical_tokens (s ∷ ss) = (if is_critical s then s.token_count else 0) + critical_tokens ss

-- what a selection may hold beyond what was used before
abbrev Fits : ℕ → ℕ → ℕ → ℕ → List Segment → Type 0
Fits budget untrusted_budget used untrusted_used kept =
    (used + tokens kept ≤ max budget used + critical_tokens kept)
    × (untrusted_used ≤ untrusted_budget
        → untrusted_used + untrusted_tokens kept ≤ untrusted_budget)

selected_facts :
    (b ub u uu : ℕ) (s : Segment)
    → verdict b ub u uu s ≡ selected
    → ((is_critical s ≡ true) ⊎ (u + s.token_count ≤ b))
      × ((untrusted_part s ≡ 0) ⊎ (uu + untrusted_part s ≤ ub))
unfolding verdict
selected_facts b ub u uu s h = ground arith

kept_cases :
    (P : List Segment → Type 0) (r : Reason) (kept skipped : List Segment)
    → (r ≡ selected → P kept)
    → P skipped
    → P (keep_if r kept skipped)
kept_cases P selected kept skipped f g = f refl
kept_cases P untrusted_exceeded kept skipped f g = g
kept_cases P budget_exceeded kept skipped f g = g

used_step :
    (b u t kept crit : ℕ) (c : Bool)
    → (c ≡ true) ⊎ (u + t ≤ b)
    → u + t + kept ≤ max b (u + t) + crit
    → u + (t + kept) ≤ max b u + ((if c then t else 0) + crit)
used_step b u t kept crit true h i = omega (arith, i)
used_step b u t kept crit false h i = ground (arith, h, i)

untrusted_step :
    (ub uu t kept : ℕ)
    → (t ≡ 0) ⊎ (uu + t ≤ ub)
    → (uu + t ≤ ub → uu + t + kept ≤ ub)
    → uu ≤ ub
    → uu + (t + kept) ≤ ub
untrusted_step ub uu t kept (inl z) i h = omega (arith, z, i (omega (arith, z, h)))
untrusted_step ub uu t kept (inr z) i h = omega (arith, i z)

select-Fits : (b ub u uu : ℕ) (ss : List Segment) → Fits b ub u uu (select b ub u uu ss)
unfolding select tokens untrusted_tokens critical_tokens
select-Fits b ub u uu [] = (ground arith, λ h. omega arith)
select-Fits b ub u uu (s ∷ ss) =
    let rest = select b ub (u + s.token_count) (uu + untrusted_part s) ss in
    let ih = select-Fits b ub (u + s.token_count) (uu + untrusted_part s) ss in
    kept_cases (Fits b ub u uu) (verdict b ub u uu s) (s ∷ rest) (select b ub u uu ss)
      (λ e.
        let f = selected_facts b ub u uu s e in
        (
          used_step b u s.token_count (tokens rest) (critical_tokens rest) (is_critical s) f.0 ih.0,
          λ h. untrusted_step ub uu (untrusted_part s) (untrusted_tokens rest) f.1 ih.1 h,
        ))
      (select-Fits b ub u uu ss)

-- the policy and the goal, where they are not marked untrusted
unfoldable pub essentials : List Segment → List Segment
essentials [] = []
essentials (s ∷ ss) = if is_critical s && not s.untrusted then s ∷ essentials ss else essentials ss

essential_kept :
    (b ub u uu : ℕ) (s : Segment)
    → is_critical s && not s.untrusted ≡ true
    → verdict b ub u uu s ≡ selected
unfolding verdict
essential_kept b ub u uu s h = ground arith

essentials-select :
    (b ub u uu : ℕ) (ss : List Segment) → essentials (select b ub u uu ss) ≡ essentials ss
unfolding select essentials
essentials-select b ub u uu [] = refl
essentials-select b ub u uu (s ∷ ss) =
    let kept = essentials-select b ub (u + s.token_count) (uu + untrusted_part s) ss in
    let skipped = essentials-select b ub u uu ss in
    elim (Bool-cases (is_critical s && not s.untrusted)) [
      | inl e ↦ rw (essential_kept b ub u uu s e) (rw e (ap (λ x. s ∷ x) kept))
      | inr e ↦
          kept_cases (λ k. essentials k ≡ essentials (s ∷ ss)) (verdict b ub u uu s) _ _
            (λ v. rw e kept) (rw e skipped)
    ]

fits_verdict :
    (b ub u uu t n : ℕ) (s : Segment)
    → u + (s.token_count + t) ≤ b
    → uu + (untrusted_part s + n) ≤ ub
    → verdict b ub u uu s ≡ selected
unfolding verdict
fits_verdict b ub u uu t n s h k = ground arith

select_all :
    (b ub u uu : ℕ) (ss : List Segment)
    → u + tokens ss ≤ b
    → uu + untrusted_tokens ss ≤ ub
    → select b ub u uu ss ≡ ss
unfolding select tokens untrusted_tokens
select_all b ub u uu [] h k = refl
select_all b ub u uu (s ∷ ss) h k =
    rw (fits_verdict b ub u uu (tokens ss) (untrusted_tokens ss) s h k) (
      ap (λ x. s ∷ x)
        (select_all b ub (u + s.token_count) (uu + untrusted_part s) ss (omega arith)
          (omega arith)))

-- Whatever segments were added: the untrusted ones that `assemble` keeps take at most a quarter of the
-- budget; all it keeps takes at most the budget, or at most what the policy and the goal take on top of it;
-- and the budget with the output reserve is the configured maximum, or 3072 where that is less.
pub assemble-bounds :
    (max_tokens : ℕ) (segments : List Segment)
    → (untrusted_tokens (assemble max_tokens segments) * 4 ≤ budget_of max_tokens)
      × (tokens (assemble max_tokens segments)
          ≤ budget_of max_tokens + critical_tokens (assemble max_tokens segments))
      × (budget_of max_tokens + output_reserve ≡ max 3072 max_tokens)
unfolding assemble max_tokens_of
assemble-bounds m segments =
    let b = budget_of m in
    let f = select-Fits b (b / 4) 0 0 (arrange segments) in
    (omega (arith, f.1 (omega arith)), omega (arith, f.0), omega arith)

-- `assemble` keeps every segment of the policy and of the goal that is not marked untrusted, in order, and
-- keeps every segment where all of them fit the budget and the untrusted ones fit a quarter of it.
pub assemble-keeps :
    (max_tokens : ℕ) (segments : List Segment)
    → (essentials (assemble max_tokens segments) ≡ essentials (arrange segments))
      × (tokens (arrange segments) ≤ budget_of max_tokens
          → untrusted_tokens (arrange segments) ≤ budget_of max_tokens / 4
          → assemble max_tokens segments ≡ arrange segments)
unfolding assemble
assemble-keeps m segments =
    let b = budget_of m in
    (
      essentials-select b (b / 4) 0 0 (arrange segments),
      λ h k. select_all b (b / 4) 0 0 (arrange segments) (omega arith) (omega arith),
    )
