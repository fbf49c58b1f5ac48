-- ===== src/Compute/Client.antt =====
-- `client_available` and `client_call` of apps/earn/flop_compute.py. What the environment, the flop-sdk
-- chain client and the inference gateway answer is a `World`; each purchase that a call makes is listed.
use lumi_observatory.Base.{ℕ, ◌*◌, leb, Bool, ◌&&◌, ◌||◌, String, List, [], ◌∷◌, if◌then◌else◌}
use lumi_observatory.Base.Int.{ℤ, pos_part}
use lumi_observatory.Base.Text.{◌=ₛ◌}
use lumi_observatory.Compute.Budget.{type_error, key_error, Result, ok, raise}

-- What a purchase over the network comes back with: a receipt, or a reason and a detail.
pub data Answer : Type 0 where
  receipt : String → Answer
  failure : String → String → Answer

pub record World : Type 0 where
  -- FLOP_COMPUTE_ENABLED
  pub enabled : Bool
  -- `_gateway()` imports, and its `available()`
  pub gateway_ready : Bool
  -- FLOP_TESTNET_RPC is an http address; FLOP_CLI names a program
  pub rpc_set : Bool
  pub cli_found : Bool
  -- `_chain()` imports, and its `available()`
  pub chain_present : Bool
  pub chain_ready : Bool
  -- FLOP_TRANSFER_TO is set
  pub destination_set : Bool
  -- `chain.call("compute_completion", max_flop=…)` run to its end, and `gateway.complete(max_tokens=…)`
  pub chain_buy : ℤ → Answer
  pub gateway_complete : ℕ → Answer

unfoldable pub client_available : World → Bool
client_available w = w.gateway_ready || (w.rpc_set || w.cli_found)

-- `{"ok": True, "tx": …}` has no `detail`; `chain.call("agent_transfer", …)` is not awaited, and what
-- comes back is the coroutine.
pub data Reply : Type 0 where
  paid : String → Reply
  refused : String → String → Reply
  coroutine : Reply

pub record Purchase : Type 0 where
  pub call : String
  pub amount : ℤ

-- The purchases of a call, and its reply.
abbrev pub Called : Type 0
Called = List Purchase × Reply

abbrev pub bought : String → ℤ → Answer → Called
bought call amount (receipt tx) = (record { call = call; amount = amount } ∷ [], paid tx)
bought call amount (failure reason detail) = ([], refused reason detail)

-- `int(min(256, max(1, budget / 2)))`: the price per thousand tokens is below 1.0, so the budget is
-- a thousand times the amount
unfoldable pub max_tokens : ℤ → ℕ
max_tokens amount =
    let half = pos_part amount * 500 in if leb 256 half then 256 else if leb 1 half then half else 1

unfoldable pub client_call : World → String → ℤ → Called
unfolding max_tokens
client_call w call amount =
    if call =ₛ "agent_transfer"
    then (if w.chain_present
        then if w.destination_set
          then ([], coroutine)
          else ([], refused "destination_unset" "set FLOP_TRANSFER_TO")
        else ([], refused "client_unavailable" "flop-sdk not installed"))
    else if call =ₛ "compute_completion"
    then (if w.chain_present && w.chain_ready
        then bought call amount (w.chain_buy amount)
        else if w.gateway_ready
        then bought call amount (w.gateway_complete (max_tokens amount))
        else ([], refused "client_unavailable" "no gateway key: run apps/tools/flop_enroll.py"))
    else ([], refused "sdk_call_missing" "flop-sdk 0.2.0 does not expose the call")

-- `client_call(…)["detail"]`
abbrev pub detail_of : Reply → Result String
detail_of (paid tx) = raise key_error
detail_of (refused reason detail) = ok detail
detail_of coroutine = raise type_error
