-- ===== src/Lib.antt =====
-- VeloTradeX receives trading signals, sizes and places orders on exchanges, and keeps their
-- protection; this library models parts of its services and proves what makes them correct.
-- All paths below are under src/ of the repository.
--
-- Number: the JavaScript `number`, as a type with operations (`Number`) over which the development is
--   generic; Number.Laws states the facts of IEEE doubles that some proofs take as hypotheses, and
--   Number.Whole is an arithmetic that meets them, on which tests and examples run.
-- Text, Dict: built-in texts and maps, and utils/normalizeSymbol.ts (`normalizeSymbolCase`).
-- Matcher: services/virtualMatching/CfdVirtualMatcher.ts, the in-memory matching engine.
--   Its listeners, timestamps and the market stream's own work are not modelled; the loop of a tick
--   goes over a list, so no fuel is needed.
-- LegPlanner: services/exchanges/gate_cfd/CfdLegPlanner.ts, which splits a position into legs
--   (`plan`, `adjust_legs`, `merge_two_legs`). Its recursion has as fuel the number of legs, which
--   is enough since each step merges two of them.
-- CfdSession: services/exchanges/gate_cfd/CfdSessionGuard.ts, when a market is open.
-- Idempotency: services/IdempotencyService.ts and the table of models/IdempotencyKey.ts, the first
--   line of defence against handling a message twice. Dedup: services/StrategyDeduplicationService.ts,
--   the second one, a query over the orders. Both are asked before a signal is executed.
-- Lighter.Nonce: services/exchanges/lighter/LighterNonceManager.ts, which signs, writes down and sends
--   one transaction after the other; the signer, the node and the database answer by parameters.
-- Lighter.OrderIndex: services/exchanges/lighter/LighterClientOrderIndexStore.ts and the table of
--   models/LighterClientOrderIndex.ts; its loop is by the attempts that are left.
-- Lighter.Reconciler: services/exchanges/lighter/LighterStateReconciler.ts and utils/coalesceString.ts;
--   Reconciler.Journal is the settling of the table of models/LighterTxJournal.ts. A timer is two
--   steps, so that other events may come between.
-- EntrySelection: services/EntrySelection.ts, which of a signal's entry points a route takes.
-- OpenPrice: services/OpenPriceAdjustment.ts, how the prices of an opening order are moved.
-- TakeProfit: services/TpSlCalculator.ts, the take-profit orders of a position.
-- CloseScope: services/CloseScopeResolver.ts, which orders a closing signal is about, with the order
--   table as a parameter.
-- ShellEscape: utils/shellEscape.ts, how services/LogService.ts writes a filter into a command.
-- Ssrf: utils/ssrfProtection.ts, the private networks that no fetch may reach.
-- EntryDecision: services/EntryDecision.ts and services/exchanges/gateOrderFillMath.ts.
-- Classifier: services/OrderClassifier.ts and services/ProtectionCoverageChecker.ts, which orders protect
--   a position.
-- Run: code that changes a state and may throw, the operations of Virtual.
-- Virtual: services/exchanges/virtual/VirtualStateStore.ts over the tables of models/VirtualOrder.ts,
--   VirtualPosition.ts, VirtualTrade.ts, VirtualAccount.ts and PendingProtection.ts; Virtual.Engine:
--   VirtualMatchingEngine.ts there; Virtual.Exchange, Orders, Handlers, Placement and StopLoss:
--   VirtualGateExchange.ts. Virtual.Book is the abstract account of orders that the rows follow, and
--   Virtual.Races takes a fill and a cancellation apart between their reading and their writing. The
--   loops go over lists, so no fuel is needed.
-- Retry: utils/retryUtils.ts; the loop is by the retries that are left.
-- RateLimiter: utils/rateLimiter.ts, the sliding window of requests.
--
-- A signal's message is checked by Idempotency, the parsed signal by Dedup; EntrySelection and
-- OpenPrice settle its entry and prices, EntryDecision and LegPlanner its orders, the exchanges'
-- clients (Lighter, the Matcher and Virtual as simulated exchanges) carry them out, and CloseScope and
-- Classifier find the orders again when a closing signal comes.
--
-- Not modelled: the HTTP routes, the web front end, the parsers of signals, the clients of the
-- exchanges, the backtest and the scripts, which are input and output or rest on services outside
-- the repository; and the services that keep up the protection of positions and size them.
pub mod Base
pub mod Dict
pub mod Number
pub mod Text
pub mod Matcher
pub mod LegPlanner
pub mod Idempotency
pub mod Dedup
pub mod Lighter
pub mod EntrySelection
pub mod OpenPrice
pub mod RateLimiter
pub mod CloseScope
pub mod ShellEscape
pub mod Ssrf
pub mod EntryDecision
pub mod Retry
pub mod Run
pub mod CfdSession
pub mod TakeProfit
pub mod Virtual
pub mod Classifier
