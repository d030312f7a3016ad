-- ===== src/Lib.antt =====
-- A model of mlsc, which watches products and themes: it collects public documents from six kinds of
-- sources, groups them into topics and reports trends. Modelled is the collection: how one request
-- reaches a host, how a run of a monitor starts and ends, how a source is collected into documents and
-- a ledger row, how a source's health is judged, and what people do with monitors, topics, alerts,
-- documents and repairs. Paths below are from the repository's root.
--
-- - Fetch (mlsc/core/fetch): `FetchClient.get` of client.py is Fetch/Client, over the circuit breaker
--   (breaker.py, Fetch/Breaker), the token bucket (throttle.py, Fetch/Throttle), the response cache
--   (cache.py, Fetch/Cache) and the validation of responses (validate.py, Fetch/Validate, over the JSON
--   values of Fetch/Json). The records and named failures of contracts.py are Fetch/Contracts. Redis is
--   a store for each family of keys; the transports, the JSON parser, the digest and the clock are
--   parameters.
-- - Locks (mlsc/core/locks.py): the run lock, `acquire`, `current_token` and `release`.
-- - Models (mlsc/db/models.py): the rows that the other parts read and write.
-- - Runs (mlsc/application/runs.py): `RunService.start` and `RunService.finalise`, over the lock.
-- - Ingest (mlsc/tasks/ingest.py): `collect_source`: the loop over a plan's adapters in Ingest/Loop, the
--   document rows and their insertion (mlsc/repositories/documents.py) in Ingest/Rows, the transaction
--   and the ledger row in Ingest itself. What a plan and an adapter are (mlsc/sources/collect.py,
--   mlsc/sources/base.py) is Ingest/Plan; the adapters themselves are parameters.
-- - Dispatch (mlsc/tasks/dispatch.py): `collect_one_source` and the loop over the sources in Dispatch,
--   `dispatch_run` as a whole, with `finalise` and the verdicts, in Dispatch/Run; the downstream pipeline
--   that follows a run with data is a parameter.
-- - Health (mlsc/application/health.py, mlsc/tasks/maintenance.py): `evaluate` and
--   `evaluate_source_health`.
-- - Topics (mlsc/application/topics.py, mlsc/application/filters.py): what a person does with topics,
--   and how a merged topic's identifier is resolved; of mlsc/tasks/topics.py the daily pass that marks
--   silent topics dormant.
-- - Fetch/Webhook (mlsc/core/fetch/webhook.py): the sender of notifications, over the same breaker and
--   throttle.
-- - Alerts (mlsc/tasks/alerts.py, mlsc/repositories/alert_rules.py): which deliveries an evaluation
--   creates, and the runs of `deliver_pending` that send them.
-- - Documents (mlsc/repositories/document_browser.py): the pages of documents and their cursors.
-- - Backfill (mlsc/application/backfill.py): windows of dates, collected one by one.
-- - Overrides (mlsc/application/overrides.py, mlsc/tasks/overrides.py, mlsc/tasks/retention.py): repair
--   jobs, their submission in Overrides and what they run in Overrides/Task.
-- - Monitors (mlsc/application/monitors.py, mlsc/repositories/monitors.py): monitors and their schedule
--   registrations, with the requests (mlsc/schemas/monitors.py) in Monitors/Requests and the schedule
--   that Beat derives (mlsc/beat.py) in Monitors/Beat.
-- - Base: shared types and lemmas; Base/Int has the integers of JSON paths.
--
-- State is passed explicitly, and an exception is a value. Identifiers, dates and texts that the code
-- only compares or passes on are numbers, times are whole ticks, tokens of the bucket are counted in
-- thousandths and medians in halves. Each call is one step: the await points inside a call are not
-- interleaved with other workers, except for the lock, where Locks/Exclusion has the actions of others.
-- Two loops run on fuel. The throttle's, and `get` above it: one round waits for what is missing and the
-- next takes the token, so fuel for two is enough if sleeps do not return early and the bucket has room
-- for a token. The other follows the merges of a topic, with the number of topics as its fuel.
--
-- Not modelled: the adapters' parsing (mlsc/sources) and the plans that name them; the assignment,
-- discovery and refit of topics, the enrichment, the analytics and the insights (mlsc/pipeline, the rest
-- of mlsc/tasks); the creation of alert rules and the rerun of single stages; the queries of themes and
-- the fixed cadences; the HTTP API and its other schemas, the LLM providers, the database's migrations,
-- the evaluation harness, the configuration and the front end.
pub mod Alerts
pub mod Backfill
pub mod Base
pub mod Dispatch
pub mod Documents
pub mod Fetch
pub mod Health
pub mod Ingest
pub mod Locks
pub mod Models
pub mod Monitors
pub mod Overrides
pub mod Runs
pub mod Topics
