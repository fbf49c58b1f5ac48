-- ===== src/Coordinator/Verifier.antt =====
-- packages/agent_core/verifier.py: the checks on the evidence of a run.
use lumi_observatory.Base.{
  Bool, true, false, not, ◌&&◌, List, [], ◌∷◌, Option, none, some, if◌then◌else◌,
}
use lumi_observatory.Coordinator.State.{Entry}

-- `any(x.get("ok") for x in ev)`
unfoldable pub has_ok : List Entry → Bool
has_ok [] = false
has_ok (x ∷ rest) = let tail = has_ok rest in if x.ok then true else tail

-- `any(not x.get("ok", True) for x in ev)`
unfoldable pub has_err : List Entry → Bool
has_err [] = false
has_err (x ∷ rest) = let tail = has_err rest in if x.ok then tail else true

abbrev pub is_empty : List Entry → Bool
is_empty [] = true
is_empty (x ∷ rest) = false

-- `_evidence_check` of DefaultVerifier
unfoldable pub evidence_check : List Entry → Option Bool
evidence_check ev = if is_empty ev then some false else some (has_ok ev && not (has_err ev))

-- a check gives `none` where it raises
abbrev pub Check : Type 0
Check = List Entry → Option Bool

abbrev passes : Option Bool → Bool
passes none = false
passes (some b) = b

-- the loop of `verify` over the checks
unfoldable pub all_pass : List Check → List Entry → Bool → Bool
all_pass [] ev so_far = so_far
all_pass (c ∷ cs) ev so_far = all_pass cs ev (so_far && passes (c ev))

-- `Verifier.verify(...).passed`
unfoldable pub verify : List Check → List Entry → Bool
verify [] ev = not (is_empty ev) && (has_ok ev && not (has_err ev))
verify (c ∷ cs) ev = all_pass (c ∷ cs) ev true

-- the checks of `DefaultVerifier()`
abbrev pub default_checks : List Check
default_checks = evidence_check ∷ []
