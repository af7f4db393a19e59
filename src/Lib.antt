-- ===== src/Lib.antt =====
-- Rate limiting of tracing events: the crate `tracing-throttle`.
--
-- A filter of a tracing subscriber, the layer, computes the signature of each event from its
-- metadata, its own fields and those of the spans around it. An event's signature selects its
-- state in a storage: a rate limit policy and a counter of
-- suppressions. The rate limiter asks the circuit breaker, has the registry access that state,
-- and lets the policy decide; a suppressed event is counted, and an emitter later claims what
-- was counted and reports it, or rolls its claim back if the report fails. A storage with an
-- eviction policy gives entries up to make space for new ones; one over a Redis server writes
-- each state to it.
--
--   Text         `str` as bytes, `BTreeMap` and `BTreeSet` of the standard library
--   Signature    src/domain/signature.rs: `EventSignature`
--   Metadata     src/domain/metadata.rs: `EventMetadata`
--   Visitor      src/infrastructure/visitor.rs: `FieldVisitor`
--   Policy       src/domain/policy.rs: `CountBasedPolicy`, `TimeWindowPolicy`,
--                `ExponentialBackoffPolicy` (Policy/Backoff), `TokenBucketPolicy`, `Policy`;
--                the serialization of two of them (Policy/TimeWindow/Serde,
--                Policy/TokenBucket/Serde)
--   Summary      src/domain/summary.rs: `SuppressionCounter`, its claims and snapshots
--   Breaker      src/application/circuit_breaker.rs: `CircuitBreaker`; its atomic operations
--                (Breaker/Threads)
--   Metrics      src/application/metrics.rs: `Metrics`
--   Eviction     src/application/ports.rs, `EvictionPolicy`, and src/infrastructure/eviction
--   Storage      src/infrastructure/storage.rs: `ShardedStorage`; `with_entry_mut` of several
--                threads (Storage/Threads)
--   Ports        src/application/ports.rs: `Storage`, and `ShardedStorage` as one (Ports/Sharded)
--   Registry     src/application/registry.rs: `EventState`, `SuppressionRegistry`
--   Limiter      src/application/limiter.rs: `RateLimiter`; whole checks of several
--                threads (Limiter/Threads/Checks)
--   Emitter      src/application/emitter.rs: `EmitterConfig`, and the collection, emission,
--                rollback and loop of `SummaryEmitter`; `SuppressionSummary` of src/domain/summary.rs;
--                `EmitterHandle` (Emitter/Handle), the messages (Emitter/Message)
--   Layer        src/infrastructure/layer.rs: `TracingRateLimitLayer` and its `Filter`, its span and
--                event fields (Layer/Fields), its builder (Layer/Builder, Layer/Build)
--   Redis        src/infrastructure/redis_storage.rs: `RedisStorage`, its keys (Redis/Keys) and
--                stored states (Redis/State); `with_entry_mut` of several threads (Redis/Threads)
--   Mocks        src/infrastructure/mocks: `MockClock`, `MockCaptureLayer`
--   Tests        the parameters as concrete functions, and runs at concrete inputs
--
-- A method is a function from the state to the state and the result. An `Instant` is a number of
-- nanoseconds and a clock reading is an argument of the method that makes it. Integers are
-- natural numbers; `+= 1` and `fetch_add` wrap at 2 ^ 64, also where the source has a `usize`.
-- A call that may panic returns an outcome. The loop of the emitter's task, which need not end,
-- is given the number of its iterations; every other loop runs down a list, or the digits of a
-- number.
--
-- Parameters are `f64` (Policy/Float), with laws for its order, whole numbers and NaN; the map
-- `DashMap` (Storage/Map), with the laws of its documentation; the sizes of types; the hash of a
-- signature; how `f64`, errors and `Debug` print (Visitor); the spans that the subscriber keeps;
-- the replies of a Redis server, and the binary format, with the laws of their documentation
-- (Redis/Reload); and how waiting for the emitter's task ends.
--
-- A call is one step. Where other threads may run between its accesses to what they share, a
-- module Threads has it a second time, as the moves of a thread from one access to the next, which
-- Prelude/Threads interleaves with those of other threads: the storage, the breaker, the Redis
-- storage, and the checks of the limiter, whose moves are those of the breaker and the storage.
-- All accesses fall into one total order. In the storage the lock of a shard is held from `entry`
-- to the end of the accessor, and what a map's iterator sees is a parameter; calls of other kinds
-- do not come in between, and neither clocks nor accessors panic there. A method of the counter
-- holds its lock. The emitter works on the list of the registry's entries, each of which is
-- visited once; other threads record suppressions in between, but no entry appears or is evicted.
--
-- Not modelled are the orderings of memory, connections and warnings of the Redis storage, the
-- derived serializations, the system's clock, the orders in which the counts of the metrics are
-- read, and the texts of errors.
pub mod Prelude
pub mod Text
pub mod Signature
pub mod Metadata
pub mod Visitor
pub mod Policy
pub mod Summary
pub mod Breaker
pub mod Metrics
pub mod Eviction
pub mod Storage
pub mod Ports
pub mod Registry
pub mod Limiter
pub mod Emitter
pub mod Layer
pub mod Redis
pub mod Mocks
pub mod Tests
