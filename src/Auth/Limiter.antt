-- ===== src/Auth/Limiter.antt =====
-- RateLimiter.check of packages/observability/auth.py. Times and windows are whole numbers of one unit; Redis is a
-- parameter of the call.
use lumi_observatory.Base.{
  ℕ, ◌+◌, ◌==◌, ltb, leb, Bool, true, false, String, List, [], ◌∷◌, ◌++◌, if◌then◌else◌, length,
}
use lumi_observatory.Base.Text.{◌=ₛ◌}

-- Redis is not there or raises, or `incr` gives the count; `expire` may raise after a count of one.
pub data Redis : Type 0 where
  unavailable : Redis
  counted : ℕ → (expire_works : Bool) → Redis

-- `_mem`, by key
abbrev pub Mem : Type 0
Mem = List (String × List ℕ)

-- `self._mem.get(key, [])`
unfoldable pub times_of : String → Mem → List ℕ
times_of key [] = []
times_of key ((k, ts) ∷ mem) = if k =ₛ key then ts else times_of key mem

-- `self._mem[key] = ts`
unfoldable pub set_times : String → List ℕ → Mem → Mem
set_times key ts [] = (key, ts) ∷ []
set_times key ts ((k, us) ∷ mem) =
    let rest = set_times key ts mem in if k =ₛ key then (key, ts) ∷ mem else (k, us) ∷ rest

-- `[t for t in … if now - t < window_seconds]`
unfoldable pub recent : ℕ → ℕ → List ℕ → List ℕ
recent now window [] = []
recent now window (t ∷ ts) =
    let rest = recent now window ts in if ltb now (t + window) then t ∷ rest else rest

-- the in-memory part, with the recent times
abbrev pub check_recent : String → ℕ → ℕ → List ℕ → Mem → Bool × Mem
check_recent key limit now ts mem =
    if leb limit (length ts)
    then (false, set_times key ts mem)
    else (true, set_times key (ts ++ now ∷ []) mem)

abbrev pub check_memory : String → ℕ → ℕ → ℕ → Mem → Bool × Mem
check_memory key limit window now mem =
    check_recent key limit now (recent now window (times_of key mem)) mem

unfoldable pub check : Redis → String → ℕ → ℕ → ℕ → Mem → Bool × Mem
check unavailable key limit window now mem = check_memory key limit window now mem
check (counted count expire_works) key limit window now mem =
    if count == 1
    then (if expire_works then (leb count limit, mem) else check_memory key limit window now mem)
    else (leb count limit, mem)

-- a call: its key and its time
pub record Call : Type 0 where
  pub call_key : String
  pub at : ℕ

module _ (limit window : String → ℕ) where
  unfoldable pub step : Call → Mem → Bool × Mem
  step c mem = check unavailable c.call_key (limit c.call_key) (window c.call_key) c.at mem

  -- the times of the allowed calls of a key, the newest first
  unfoldable pub allowed_times : String → List Call → Mem → List ℕ → List ℕ
  allowed_times key [] mem h = h
  allowed_times key (c ∷ cs) mem h =
      allowed_times key cs (step c mem).1
        (if c.call_key =ₛ key then (if (step c mem).0 then c.at ∷ h else h) else h)
