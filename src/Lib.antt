-- ===== src/Lib.antt =====
-- Haruki Event Tracker: a daemon that polls the ranking of the current event of a game server,
-- writes the rows that changed to a database, and serves them through an HTTP API whose responses
-- are cached in Redis.
--
-- The files and what they model:
--   Prelude, Prelude/*: names that are shared, HashMap as an association list, i64 as integers
--     with a range predicate (IsI64), texts as lists of code points, decimal and its parser.
--   Model/*: src/model/enums.rs, event.rs, sekai.rs and tracker.rs.
--   Tracker/Diff: src/tracker/diff.rs, the pure helpers of a tick; Tracker/Records: the database
--     records of a tick, from diff.rs and base.rs. Diff/Changes, Commit, Merge and Bloom and
--     Records/Users and Rows prove their properties.
--   Tracker/Parser: src/tracker/parser.rs, the statuses of the current event, and in Parser/Cached
--     the cache by fingerprint. Parser/Windows, Current and Remain prove properties.
--   Tracker/World: what a tick asks of the upstream API, Redis and the database, as a log of calls,
--     and the actions on a state beside it; World/Hoare: triples of such actions.
--   Tracker/Base: the state of EventTrackerBase of src/tracker/base.rs and its pure operations.
--   Tracker/Persist: persist_ranking_data of base.rs, in its phases, with the two inserts of
--     src/db/query/batch.rs; the chapter diff of the latter is in Db/Bloom. Persist/Phases reads
--     the updates of the API cache off the log, and Persist/Marks its dirty mark, with proofs in
--     Persist/Chapters and Protocol;
--     Persist/Keeps, State and Again follow the state.
--   Tracker/Tick: the other operations of base.rs that make calls.
--   Tracker/Daemon: src/tracker/daemon.rs, the tick of the scheduler over the tracker of the current
--     event. Daemon/Operations, Protocol and Finalized prove its properties.
--   Api/WsTicket: the store of src/api/ws_ticket.rs.
--   Api/PrivateLookup: the check of a bound account of src/api/private_lookup.rs, with
--     PrivateLookup/Access and Refusal.
--   Api/Cache: src/api/cache.rs. Cache/Keys: the texts of the keys, with what they determine in
--     Keys/Injective and Gzip. Cache/Redis: the scripts that Redis runs, and the three calls of the
--     tracker. Cache/System: the tracker and the lookups on one event, as steps that interleave;
--     Entries, Coherence and Invariant carry the invariant and Answers reads off what a lookup is
--     told.
--     Cache/Local: the cache in process memory and its eviction, with Sorting,
--     Bounds, Ties and Values.
--     Cache/Store: the actions of one lookup, with an environment of answers; Cache/Lookup: the
--     lookup of bytes, with Lookup/Static and Cache/Encoded for the other two; Actions, Sources and
--     Decoding below them follow where a result comes from. Cache/SingleFlight: lookups that share
--     a flight, with the loop of a waiter, and SingleFlight/Guards, Waiting,
--     Invariant and Waking. Cache/Typed: the lookups that callers use. Cache/Config: the settings,
--     and Api/Error: the errors of src/api/error.rs.
--   Api/Realtime: src/api/realtime.rs, and Api/Socket: the subscriptions of src/api/ws.rs over all
--     open sockets, with Socket/Counts, Sets and Online.
--   Api/RoundMetrics: src/api/handler/leaderboard/round_metrics.rs on the types of src/model/api.rs
--     in Api/Schemas, with RoundMetrics/Speeds; Baseline, Scores and Averages prove properties.
--   Tests/*: test data, and the theorems at concrete inputs.
--
-- How the code is rendered. An operation that awaits is an action on the tracker's state and a
-- World, which counts the calls and logs them with their outcomes. An environment (Env) fixes the
-- outcome and the answer of each call by its number, so a theorem holds for every pattern of
-- failures. A failure that the code only logs is a call whose outcome is not looked at; one that the
-- code passes on is an error, and what was done before it stays done. The database, Redis, the
-- storage, the JSON parser and the upstream API are such answers or are parameters: Json stands for
-- serde_json::Value. The order of the entries of a HashMap is unspecified in the source; the
-- theorems speak of lookups and membership.
--
-- The cache of responses. Redis is a record: the epoch, the dirty mark, and the texts under every
-- other key. In Cache/System a call of begin, finish or abort that fails is no step, the two commands
-- of a finish are two steps, and the mark may go at any time, as it does after 300 seconds; rows may be
-- written at any time. An entry of Redis or of process memory may expire at any time. Process memory may
-- be behind Redis for as long as its control entry lives (local_control_ttl_ms); what is said of
-- Redis is said of the reads that go to Redis. The hash that picks a shard is a parameter.
--
-- Bounds and fuel. event_time_remain calls itself once, on less than a day, and gets fuel for two
-- calls; it is modelled on whole seconds, the only values its caller passes. Scores of a trace of
-- round_metrics.rs wrap around as i64s do (Prelude/Int). Timestamps are
-- integers without overflow, since they are differences and sums of clock times; saturating_sub is
-- rendered with its bounds.
--
-- Not modelled: the rest of the API side (src/api: the transport of the websockets, handlers,
-- routing, the limiter), the read queries, the schema, most of the configuration, logging and
-- start-up, the upstream client. Of the cache: time-outs, counters, the pool of
-- connections; the writer and reader of JSON and compression are parameters.
pub mod Prelude
pub mod Model
pub mod Db
pub mod Tracker
pub mod Api
mod Tests
