-- ===== src/Lib.antt =====
-- Verification of the core of lumi-observatory, an autonomous observability agent with an earning
-- side.
--
-- The program's parts and how they interact. The planner (packages/agent_core/planner.py) turns a
-- task into a plan of scoped actions, and a call of a tool goes through the registry
-- (packages/agent_core/executor.py); the outgoing requests pass the address checks of
-- packages/connectors/ssrf.py. The context assembler that a run is given selects segments within a
-- token budget (packages/context_engine/assembler.py). The API admits a caller by its session and
-- role (packages/observability/auth.py). A run of the agent (packages/agent_core/coordinator.py)
-- asks the policy (packages/policy/engine.py) about every tool call of its plan; a call that needs
-- a human becomes an approval (packages/policy/approval.py), which a person decides and a worker
-- consumes once. On the earning side, the scheduler folds the frames of a marketplace deal into a
-- contract (apps/scheduler/br_fold.py), the offers of that marketplace pass two gates before the
-- agent commits (packages/connectors/tclk.py), and the compute-spend lane
-- (apps/earn/flop_compute.py) buys compute under a local ceiling and keeps a ledger of it.
--
-- Base: shared names, Boolean tests, lists and signed integers over the native numbers, text
-- operations.
--
-- Fold models apps/scheduler/br_fold.py. Fold.Json are the JSON values; Fold.Pattern the regular
-- expressions as tests on code points; Fold.Frame is validate_frame, the ids and decode_frame;
-- Fold.Machine is open_contract and apply_frame on the contract record; Fold.Run is fold and
-- answer. json.loads, the canonical printing and sha256 are fields of an environment. Fold.Inv,
-- Fold.Guards, Fold.Refusal, Fold.Replay, Fold.Caught, Fold.Crash, Fold.Deal and Fold.Final hold
-- the proofs.
--
-- Compute models apps/earn/flop_compute.py. Compute.Budget is spend_cap, credit_for_payable and
-- plan; Compute.Client is client_available and client_call over a world that gives the answers of
-- the gateway and the chain client; Compute.Spend is attempt_spend; Compute.Ledger is summarize;
-- Compute.Loop is the purchase loop of main. A ratio is a fraction, since its exact product is what
-- int() cuts. Compute.Cleared, Compute.Report, Compute.Counts, Compute.Bound and Compute.Bought
-- hold the proofs.
--
-- Policy models packages/policy. Policy.Engine is PolicyEngine.decide and decide_async, the answer
-- of Jev a parameter; Policy.Records are the tables of the approval service and Policy.Service its
-- methods, each a step on the tables, since each runs in one transaction on a locked row.
-- Policy.Floor, Policy.Once, Policy.Trace, Policy.Decided and Policy.Refine hold the proofs; A call
-- that raises changes no table but for the expiry that it commits first. Policy.Trace runs
-- arbitrary sequences of calls and Policy.Abstract is the machine on statuses and expiries that
-- Policy.Refine compares them with.
--
-- Coordinator models packages/agent_core/coordinator.py and verifier.py. Coordinator.State is the
-- state, the controls, the circuit breaker, the token account and can_continue;
-- Coordinator.Verifier is verify; Coordinator.Turn is one action of the loop and Coordinator.Run is
-- run. What the planner, the policy, the tools, the clock and the database checks answer is given
-- per action. Coordinator.Gate, Coordinator.Limits, Coordinator.Counted, Coordinator.Complete and
-- Coordinator.Verdict hold the proofs.
--
-- Market models the gates of packages/connectors/tclk.py on an incoming offer. Market.Offer is what
-- they read from it (offer_raw_spec, offer_rails, offer_difficulty, the amount, offer_expired) on
-- code points; Market.Gate is offer_allows and audit_offer, with its proofs in Market.Audit;
-- Market.Structure is validate_frame and Market.Ref is ref_matches. Market.Wire is build_frame with
-- its callers and parse_frame, its proof in Market.Trip; Market.Canonical is canonical_json with
-- the ids made from it, its proof in Market.Order.
--
-- Planner models packages/agent_core/planner.py. Planner.Scope is _scope_strings and the preflight
-- of a target, Planner.Sanitize is _sanitize_plan_actions, Planner.Make is make_plan over what the
-- skill registry and the model gave. Planner.Kept holds the proofs.
--
-- Context models packages/context_engine/assembler.py. Context.Segment is add, Context.Assemble the
-- order and the selection of assemble; Context.Arrange and Context.Budget hold the proofs.
--
-- Ssrf models packages/connectors/ssrf.py. Ssrf.Address is ip_is_blocked on octets and the first
-- group of an IPv6 address, Ssrf.Host is resolve_all with its pins and validate_host, Ssrf.Connect
-- is validate_url, resolve_redirect_url and connect_tcp. Each call takes what the resolver would
-- answer then and the time; lower() is that of ASCII here as in the other parts. Ssrf.Fetch is
-- get_json of packages/connectors/http_json.py, which checks its URL and every redirect with them.
-- Ssrf.Ranges, Ssrf.Clean, Ssrf.Pinned, Ssrf.Validated and Ssrf.Hops hold the proofs.
--
-- Auth models packages/observability/auth.py. Auth.Session is resolve_session, get_current_user and
-- require_role over the table of accounts; Auth.Limiter is RateLimiter.check, and runs of its
-- in-memory part. Auth.Entitled and Auth.Window hold the proofs.
--
-- Executor models packages/agent_core/executor.py. Executor.Registry is ToolRegistry with the names
-- and schemas of build_default_registry; Executor.Checked and Executor.Sync hold the proofs.
--
-- Worker models apps/worker/worker.py. Worker.Store is the claim of _process_run with its lease,
-- Worker.Continue is _try_continuation as its transactions over the tables of Policy.Records,
-- Worker.System lets any number of workers take such steps in any order, beside the methods of the
-- approval service and any changes that other parts make to the runs, and Worker.Entry is
-- _handle_entry. A transaction is one step, since it locks its rows; a crash is a step of its own.
-- Worker.Paid, Worker.Once, Worker.Consent, Worker.Approved, Worker.Lease and Worker.Recovery hold
-- the proofs.
--
-- Scheduler models apps/scheduler/scheduler.py. Scheduler.Outbox is publish_outbox over the table
-- in the order of created_at, and Scheduler.Stuck is recover_stuck_runs. Scheduler.Published,
-- Scheduler.Blocked and Scheduler.Retries hold the proofs, over sequences of ticks with the changes
-- that other parts make in between.
--
-- Trader models apps/earn/trader.py. Trader.Prices is open_markets and price_of, Trader.Edges is
-- probe_coherence and Trader.Orders the orders that cycle makes, on prices in whole millionths.
-- Trader.Spend, Trader.Fills and Trader.Coherence hold the proofs.
--
-- Bounds and fuel. All loops are structural recursion on the transcript, the ledger, the actions,
-- the attempts, a text or the redirects that are left, so no fuel is used. Python integers are
-- unbounded and so are ours; amounts that may be negative are signed. Floating-point numbers are
-- only compared or added: probabilities, costs and clock readings are whole numbers of a fixed
-- unit, and rounding is not modelled. A digit of a text is one of ASCII, also where a regular
-- expression or int() takes the others of Unicode. The trader also multiplies and divides them; its
-- quotients are cut as int() cuts them, and the products are exact.
--
-- Not modelled: the network clients, urlparse, urljoin, ipaddress and json, the database and the
-- message texts, whose answers are parameters; the splitting of a brief into rows (parse_material);
-- the reading of the environment and of the ledger file; an event sink that raises outside the try
-- of a tool; and the parts of the repository with no file here (API server, scorers, other
-- connectors, memory, web interface).
pub mod Base
pub mod Fold
pub mod Compute
pub mod Policy
pub mod Coordinator
pub mod Market
pub mod Context
pub mod Planner
pub mod Ssrf
pub mod Auth
pub mod Executor
pub mod Worker
pub mod Scheduler
pub mod Trader
