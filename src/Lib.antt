-- ===== src/Lib.antt =====
-- HOOKX: the deterministic core of a payment webhook service. A provider's delivery is stored as a
-- normalized event; the events of a payment are replayed through a state machine; what goes wrong
-- becomes an exception, and a failure that may pass is tried again. Each module below models one
-- package or file, by the names of the source in snake case:
--   Domain      packages/domain/src: branded texts, instants, money, payment states
--   Webhook     packages/webhook/src: event.ts, event-type.ts and identity.ts; Amount (money.ts) and
--               Timestamp (timestamp.ts)
--   StateMachine packages/state-machine/src: Table (transition-table.ts), Reachability
--               (reachability.ts), Instants (instant-order.ts), Order (order-events.ts), History
--               (history.ts, payment.ts), Process (process-event.ts, result.ts), Decisions
--               (replay-result.ts) and Replay (replay.ts)
--   Audit       packages/audit/src: Metadata (metadata.ts) and Event (actor.ts, event-type.ts,
--               reason.ts, event.ts)
--   Exceptions  packages/exceptions/src: Codes (codes.ts, severity.ts, status.ts, precedence.ts),
--               Facts (facts.ts), Prerequisite (missing-prerequisite.ts), Draft (identity.ts, the
--               drafts of exception.ts), Record (the records, public.ts) and Detect (detect.ts)
--   Storage     packages/storage/src: Status (status.ts), Retry/Policy, Retry/Classify and
--               Retry/Memory (retry/policy.ts, classify.ts, memory-retry-repository.ts), Events
--               (types.ts, process-payment-events.ts, and the log of
--               apps/api/src/test-support/memory-webhook-repository.ts; Listing with
--               webhook-list.ts), Audit (audit/: the trail, Live with the drafts of live.ts, Outcome
--               with persist-outcome.ts), Payments (payment/), Exceptions (exceptions/: the store,
--               Drafts with audit-drafts.ts, Recording with record.ts), Retry/Attempt
--               (retry/process-attempt.ts) and Retry/Worker (retry/worker.ts and lifecycle.ts, its
--               calls in Worker/Tick)
--   Pipeline    apps/api/src/pipeline: errors.ts and process-incoming-webhook.ts, in Ingest (what
--               each answer shares), Storing (what follows the store) and Handler (one delivery);
--               with the entries of apps/api/src/observability and its retry-sink.ts; Metrics
--               (packages/observability/src/metrics.ts)
--   Prelude     shared names, lists, sorting and permutations; Tests applies the theorems.
-- A call of `process_event` in the replay loop is the only place where a payment changes; the
-- replay's decisions are the input of `facts_from_replay_decision`, whose facts `detect_exception`
-- turns into drafts, with the predecessor that the transition table says is missing. The log of
-- Storage/Events holds what is replayed, and Storage/Retry holds who may work on it and when.
--
-- A text is a String, and a list of code units where the code looks into it; a branded text is a
-- record of a text and of the proof that it passes its test. Amounts are natural numbers or the
-- integers of Prelude/Int, both unbounded, as `bigint` is. What is thrown is a `Result` by its code.
-- Object identity and `Object.freeze` have no counterpart: values do not change.
--
-- Two loops run on fuel. `search_states` takes eight rounds: a state is pushed at most once for each
-- row of the table that leads to it. `replay_loop` takes one pass more than there are events: a pass
-- that makes progress settles an event.
--
-- The code that calls repositories is over their interfaces: a record of actions on a state of any
-- type, each of which returns or throws (Storage/Action), so that a failing database is one of its
-- cases. Storage/Retry/Worker/Memory fills these records with the repositories in memory, which are
-- modelled on their own, over one state. `process_incoming_webhook` calls the store, then
-- `process_fresh_event` of the worker, which calls `process_webhook_attempt`, which replays.
--
-- The repository of retries compares times by their texts. That is the order in time where two times
-- have as many digits of the second, as all have that the service makes with `toISOString`; the
-- results on claims say so of their times (Storage/Retry/Memory/Moments).
--
-- The clock and `randomUUID` are arguments. `addMilliseconds` (retry/time.ts), which goes through
-- the calendar of `Date`, is a parameter of Retry/Memory, the worker and the pipeline; so are, in
-- the pipeline, the verifiers, the adapters, `JSON.parse` and the logger. Not modelled: HTTP, the
-- database repositories, the signature checks and provider adapters themselves, timelines and
-- redaction, the investigation of incidents, the simulator and the failure lab, the web pages.
-- They are input and output, formatting, or test drivers of what is modelled; the time a delivery
-- took is left out of its observation.
pub mod Prelude
pub mod Domain
pub mod Webhook
pub mod StateMachine
pub mod Audit
pub mod Exceptions
pub mod Storage
pub mod Pipeline
pub mod Tests
