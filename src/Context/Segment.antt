-- ===== src/Context/Segment.antt =====
-- ContextSegment and ContextAssembler.add of packages/context_engine/assembler.py. Texts are code points.
-- The redactor, its marks and the token count come from other libraries and are parameters.
use lumi_observatory.Base.{ℕ, ◌+◌, Bool, ◌||◌, String, List, [], ◌∷◌, ◌++◌, if◌then◌else◌}
use Prim.Native.Nat.{max}
use lumi_observatory.Base.Int.{ℤ}
use lumi_observatory.Base.Text.{codes, contains, one_of}

pub record Segment : Type 0 where
  pub segment_type : String
  pub content : List ℕ
  pub token_count : ℕ
  pub relevance : ℤ
  pub untrusted : Bool
  pub redactions : ℕ

-- SEQUENCE
abbrev pub sequence : List String
sequence =
    "system_policy" ∷ "task_goal" ∷ "conversation_window" ∷ "episodic_memory" ∷ "semantic_memory"
    ∷ "procedural_memory" ∷ "memory" ∷ "tool_schemas" ∷ "untrusted" ∷ []

-- OUTPUT_RESERVE_TOKENS
abbrev pub output_reserve : ℕ
output_reserve = 2048

-- UNTRUSTED_BEGIN and UNTRUSTED_END
abbrev pub begin_mark : List ℕ
begin_mark = codes "<<<UNTRUSTED_DATA_BEGIN>>>"

abbrev pub end_mark : List ℕ
end_mark = codes "<<<UNTRUSTED_DATA_END>>>"

-- `max_tokens` of the constructor
unfoldable pub max_tokens_of : ℕ → ℕ
max_tokens_of max_tokens = max (output_reserve + 1024) max_tokens

unfoldable pub is_untrusted : String → Bool → Bool
is_untrusted segment_type flag =
    flag || one_of segment_type ("untrusted" ∷ "tool_output" ∷ "external_data" ∷ [])

-- the boundary around untrusted content
unfoldable pub wrap : List ℕ → List ℕ
wrap content =
    if contains begin_mark content
    then content
    else begin_mark ++ (b'\n' ∷ (content ++ (b'\n' ∷ end_mark)))

-- What the code calls: `scrub` of the redactor, the count of its marks, `estimate_tokens`.
pub record Tools : Type 0 where
  pub scrub : List ℕ → List ℕ
  pub marks : List ℕ → ℕ
  pub tokens : List ℕ → ℕ

unfoldable pub make_segment : Tools → String → List ℕ → ℤ → Bool → Segment
make_segment tools segment_type content relevance flag =
    let held = is_untrusted segment_type flag in
    let scrubbed = tools.scrub content in
    let text = if held then wrap scrubbed else scrubbed in
    record {
      segment_type = segment_type;
      content = text;
      token_count = tools.tokens text;
      relevance = relevance;
      untrusted = held;
      redactions = tools.marks text;
    }

-- `add`
unfoldable pub add : Tools → String → List ℕ → ℤ → Bool → List Segment → List Segment
add tools segment_type content relevance flag segments =
    segments ++ make_segment tools segment_type content relevance flag ∷ []
