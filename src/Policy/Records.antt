-- ===== src/Policy/Records.antt =====
-- The rows that packages/policy/approval.py reads and writes. A locked transaction is one step, so the
-- tables are a value that each method takes and returns. Lookups by id are in insertion order.
use lumi_observatory.Base.{
  ℕ, ◌==◌, String, List, [], ◌∷◌, ◌++◌, ◌≡◌, Option, none, some, if◌then◌else◌, is_some, arith,
}
use lumi_observatory.Base.Int.{ℤ}

-- ApprovalStatus
pub data Status : Type 0 where
  pending approved rejected expired consumed : Status

-- RunStatus
pub data RunStatus : Type 0 where
  queued context_building planning policy_check waiting_approval executing verifying persisting :
      RunStatus
  completed failed cancelled paused : RunStatus

pub data Choice : Type 0 where
  approve reject other : Choice

pub record Approval : Type 0 where
  pub id : ℕ
  pub status : Status
  pub run_id : Option ℕ
  pub expires_at : Option ℤ
  pub decision : Option Choice
  pub decided_by : Option ℕ
  -- `action_id` and `tool` of the payload
  pub action_id : String
  pub tool : String

pub record Execution : Type 0 where
  pub approval_id : ℕ
  pub run_id : ℕ
  pub action_id : String
  pub tool : String
  pub status : String
  pub result : String

pub record RunRow : Type 0 where
  pub id : ℕ
  pub status : RunStatus
  pub control_request : Option String
  pub error : Option String
  pub finished_at : Option ℤ

-- an outbox message of topic `lumi.run_queued`; its idempotency key is `approve:{approval_id}`
pub record Outbox : Type 0 where
  pub run_id : ℕ
  pub approval_id : ℕ

pub record Db : Type 0 where
  pub approvals : List Approval
  pub executions : List Execution
  pub runs : List RunRow
  pub outbox : List Outbox

unfoldable pub find_approval : ℕ → List Approval → Option Approval
find_approval k [] = none
find_approval k (a ∷ rest) = if a.id == k then some a else find_approval k rest

-- the flush of a changed row
unfoldable pub write_approval : Approval → List Approval → List Approval
write_approval b [] = []
write_approval b (a ∷ rest) = if a.id == b.id then b ∷ rest else a ∷ write_approval b rest

unfoldable pub find_run : ℕ → List RunRow → Option RunRow
find_run k [] = none
find_run k (r ∷ rest) = if r.id == k then some r else find_run k rest

unfoldable pub write_run : RunRow → List RunRow → List RunRow
write_run b [] = []
write_run b (r ∷ rest) = if r.id == b.id then b ∷ rest else r ∷ write_run b rest

unfoldable pub find_execution : ℕ → List Execution → Option Execution
find_execution k [] = none
find_execution k (x ∷ rest) = if x.approval_id == k then some x else find_execution k rest

unfoldable pub write_execution : Execution → List Execution → List Execution
write_execution b [] = []
write_execution b (x ∷ rest) =
    if x.approval_id == b.approval_id then b ∷ rest else x ∷ write_execution b rest

pub find-write_approval :
    (k : ℕ) (b : Approval) (rows : List Approval)
    → find_approval k (write_approval b rows) ≡ (
        if b.id == k
        then if is_some (find_approval k rows) then some b else none
        else find_approval k rows)
unfolding find_approval write_approval
find-write_approval k b [] = ground arith
find-write_approval k b (a ∷ rest) = ground (arith, find-write_approval k b rest)

pub find_approval_id :
    (k : ℕ) (rows : List Approval) (a : Approval) → find_approval k rows ≡ some a → a.id ≡ k
unfolding find_approval
find_approval_id k [] a e = absurd (cc)
find_approval_id k (x ∷ rest) a e = ground (arith, find_approval_id k rest a)

-- a new row at the end is found only where no earlier one has its id
pub find-append_approval :
    (k : ℕ) (rows : List Approval) (b : Approval)
    → find_approval k (rows ++ b ∷ []) ≡ (
        if is_some (find_approval k rows)
        then find_approval k rows
        else if b.id == k
        then some b
        else none)
unfolding find_approval
find-append_approval k [] b = ground arith
find-append_approval k (x ∷ rest) b = ground (arith, find-append_approval k rest b)
