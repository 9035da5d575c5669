-- ===== src/Lib.antt =====
-- NotifyHub: a multi-tenant notification service in Go.
--
-- The API takes requests, stores notifications in PostgreSQL and publishes an envelope per
-- notification to a Kafka topic per channel. A scheduler publishes those that were booked for a
-- time. Workers fetch the envelopes, check preferences, quiet hours and the rate limit in Redis,
-- render the template, call the provider with retries, and write the delivery log and the final
-- status. What fails for good goes to a dead-letter topic, from which it is stored and can be
-- replayed. Terminal outcomes fan out to the tenants' webhooks.
--
-- Files and code (paths from the root of the repository):
--   Domain/*        internal/domain: errors, notifications, deliveries, dead letters, preferences,
--                   templates, webhooks, in-app messages, device tokens, tenants and API clients.
--                   Domain/Json is the decoded JSON of payloads.
--   Queue/*         internal/queue/message.go, producer.go: envelopes, topics, Publish, PublishDLQ.
--   Db/Models, Db/*Queries
--                   internal/db/models.go, *.sql.go: each SQL statement as a function on tables.
--   Db/World, Db/Io the state that the services share, and the actions on it. Db/Frames: the world
--                   behind a query, and what an answer without an error says.
--   Repository/*    internal/repository: each method, with its mapping of rows and errors.
--                   Repository/ClockText is the times of day of convert.go.
--   Provider/*      internal/provider: temporary and permanent errors, Registry, twilio's classify,
--                   the contents that the backends read from a payload. Provider/InApp is Send of
--                   inapp.go, Provider/Backends the Sends of twilio, fcm and ses over a client of
--                   their SDK (Provider/Sdk), which is a parameter.
--   Realtime/*      internal/realtime/hub.go: the names of Redis channels (Channels), Subscribe,
--                   cancel and Publish (Hub), and a cancel in the middle of Publish (Hub/Races).
--   Service/*       internal/service: Send, SendBulk, IsAllowed, inQuietHours, AllowKey, Render,
--                   Preview, Dispatch, one tick of the scheduler, the administration of webhook
--                   endpoints, device tokens, tenants and API keys.
--   Worker/*        internal/worker: Process with sendWithRetry (Retry), the pool with Commit of
--                   internal/queue/consumer.go, the DLQ consumer, the webhook worker.
--   Api/Middleware  internal/api/middleware: Auth, RateLimit, AdminAuth, in the order of router.go.
--   Api/Responses, Api/Requests
--                   internal/api/response and handler/errors.go; what a handler reads of a request.
--   Api/Inbox, Api/Handlers/*, Api/DlqHandler
--                   internal/api/handler: one function per handler, over the client of its request.
--   Prelude/*       Boolean tests, lists as tables, sorting.
--   Tests/*         the theorems at a concrete world.
--
-- The state is a record, World: the tables, the records on Kafka, the sorted sets of Redis and
-- what was published on its channels, what the providers were sent, the waits, the clock and three
-- counters. An action maps a world to a result and a world; an error is a value and may come with
-- effects, as in the source. Env says what the surroundings decide: which numbered call of
-- PostgreSQL, Redis or Kafka fails, what the providers and the webhook endpoints answer, whether
-- the context is done when a retry waits, and the order of rows where a query of webhook endpoints
-- has no ORDER BY. A theorem that says "the database answers" or "no call fails" assumes IsHealthy
-- of it, and one about a call that fails or goes through names the call; all others hold for every
-- failure pattern. The clock advances only by waits. The texts of infrastructure errors are
-- placeholders.
--
-- Parameters: the validator's verdict (validator/v10), the template engine (text/template), the
-- time-zone database (time.LoadLocation, as the instants of time.Date in a location), the rounding
-- of nanoseconds to float64, and the printing of uuids, times and status codes, SHA-256, the random
-- bytes of a key, the signature of a token, strconv.Atoi, uuid.Parse and the decoding of bodies, and
-- the collation of template names. JSON of an envelope, of an in-app message or of a reply stands
-- for its value.
--
-- Bounds and fuel: a uuid is a number that the database hands out, 0 the nil UUID; times are
-- nanoseconds. A retry delay is an int64 that wraps at 2^64, and a negative one does not wait. The
-- retry loop of the processor has max_attempts + 2 rounds of fuel, more than the attempts that may
-- be left, and that of the webhook worker max_attempts - attempt + 1, one for each call.
--
-- The limits and offsets of the listings are cut to int32 (Db/Limits), and PostgreSQL refuses
-- a negative one. A buffer of the hub holds as many messages as it was made for, 32 for none.
--
-- Not modelled: the WebSocket stream and the verification of its token, the table of routes, the
-- template loader, configuration, observability, the programs under cmd. The pool has one worker
-- on one partition. Foreign keys are not checked.
pub mod Prelude
pub mod Domain
pub mod Queue
pub mod Db
pub mod Repository
pub mod Provider
pub mod Service
pub mod Worker
pub mod Realtime
pub mod Api
mod Tests
