-- ===== src/Policy/Refine.antt =====
-- Each call of the approval service is one step of the abstract machine of Policy/Abstract.
use lumi_observatory.Base.{ℕ, String, ◌≡◌, Option}
use lumi_observatory.Policy.Records.{Db}
use lumi_observatory.Policy.Trace.{Op, step}
use lumi_observatory.Policy.Abstract.{view, spec_step, reply, spec_reply}

-- one call of the service is one step of the abstract machine, with the same answer
abbrev Follows : (String → Option ℕ) → (ℕ → String) → Op → Db → Type 0
Follows parse show op db =
    (view (step parse show op db) ≡ spec_step parse op (view db))
    × (reply parse show op db ≡ spec_reply parse op (view db))
