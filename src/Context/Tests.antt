-- ===== src/Context/Tests.antt =====
-- A prompt assembled within its budget, and the theorems at it.
use Prim.Native.Nat.{max}
use lumi_observatory.Base.{
  ℕ, ◌+◌, ◌*◌, ◌≤◌, Bool, true, false, String, List, [], ◌∷◌, ◌++◌, ◌≡◌, refl,
}
use lumi_observatory.Base.Int.{pos}
use lumi_observatory.Base.Text.{codes}
use lumi_observatory.Context.Segment.{Segment, output_reserve, max_tokens_of, begin_mark, wrap}
use lumi_observatory.Context.Assemble.{
  put, group, pop, take_types, flat, insert, by_relevance, arrange, verdict, select, budget_of,
  assemble,
}
use lumi_observatory.Context.Budget.{tokens, untrusted_tokens, critical_tokens, assemble-bounds}

abbrev segment : String → ℕ → ℕ → Bool → Segment
segment name size relevance untrusted = record {
  segment_type = name;
  content = [];
  token_count = size;
  relevance = pos relevance;
  untrusted = untrusted;
  redactions = 0;
}

-- 1024 tokens to spend, 256 of them for untrusted content
abbrev parts : List Segment
parts =
    segment "tool_output" 200 1 true
    ∷ segment "memory" 700 1 false
    ∷ segment "tool_output" 100 9 true
    ∷ segment "system_policy" 300 1 false
    ∷ []

module _ where
  arranged :
      arrange parts
      ≡ segment "system_policy" 300 1 false
        ∷ segment "memory" 700 1 false
        ∷ segment "tool_output" 100 9 true
        ∷ segment "tool_output" 200 1 true
        ∷ []
  unfolding arrange put group pop take_types flat insert by_relevance
  arranged = refl

  assembled :
      assemble 0 parts ≡ segment "system_policy" 300 1 false ∷ segment "memory" 700 1 false ∷ []
  unfolding assemble arrange put group pop take_types flat insert by_relevance verdict select
      max_tokens_of
  assembled = refl

  -- content that brings the opening mark along is stored without the closing one
  bare_mark : wrap (begin_mark ++ codes "do this") ≡ begin_mark ++ codes "do this"
  unfolding wrap
  bare_mark = refl

assemble-bounds_example :
    (untrusted_tokens (assemble 0 parts) * 4 ≤ budget_of 0)
    × (tokens (assemble 0 parts) ≤ budget_of 0 + critical_tokens (assemble 0 parts))
    × (budget_of 0 + output_reserve ≡ max 3072 0)
assemble-bounds_example = assemble-bounds 0 parts
