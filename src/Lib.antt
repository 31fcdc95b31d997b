-- ===== src/Lib.antt =====
-- Verification of the rate limiter. A request reaches the middleware (src/middleware.rs), which
-- derives a key from it (src/extractor.rs), asks the limiter (src/lib.rs), and lets the request
-- through or answers with status 429. The limiter was built from a configuration (src/config.rs); it
-- dispatches to its store (src/stores), which keeps one entry for each key and algorithm, and turns
-- the store's answer into limits, reset times and waits. src/algorithms holds in-process limiters of
-- the same three kinds, which do not go through a store.
--
-- Files and code:
--   Prelude        shared notation: tests on numbers, lists, and text as UTF-8 bytes.
--   DashMap        the interface of the concurrent map of the `dashmap` package, as the operations
--                  and laws of single calls; DashMap/Assoc meets it by an association list.
--   Float          the f64 operations in use, and the laws of IEEE 754 and of Rust's casts that the
--                  results rest on; Float/Fixed meets them by fixed point numbers.
--   Outcome        RateLimitError of src/error.rs; a result is a value, an error or a panic.
--   Headers        the rest of src/error.rs; Headers/Digits reads the numbers back.
--   Algorithms     src/algorithms/mod.rs; Algorithms/FixedWindow, SlidingWindow and TokenBucket
--                  model fixed_window.rs, sliding_window.rs and token_bucket.rs beside it, and
--                  Algorithms/Keyed the histories of calls on many keys.
--   Stores         src/stores/mod.rs; Stores/Memory models src/stores/memory.rs, with one function
--                  for each method, and Stores/MemoryStore is its implementation of the interface.
--   Redis          the interface of a Redis server, of the Lua in it and of the conversions of the
--                  `redis` package, with the documented effects of the commands in use in
--                  Redis/Laws; Redis/Keyspace and Redis/Decimal meet them.
--   Stores/RedisScripts, Stores/RedisStore
--                  src/stores/redis.rs: the Lua scripts, and `RedisStore` with one function for each
--                  method; RedisStore/Sweep has `reset`, RedisStore/Remaining `remaining` and the
--                  implementation of the interface.
--   Config         src/config.rs; Config/Builder the builder.
--   Limiter        the functions of RateLimiter in src/lib.rs, over any store; Limiter/Waits puts it
--                  over the in-memory store, and Limiter/Prune adds the prune task.
--   Extractor      src/extractor.rs; Extractor/Path models `normalize_path`.
--   Middleware     `RateLimitMiddleware::check` of src/middleware.rs; Middleware/Handle `handle`.
--                  Middleware/Histories, Distributed and Outage put it over a limiter and its
--                  store; Middleware/Pruned and Limits do so in memory, with the cleanups of the
--                  prune task between the requests.
--   Tests          the theorems at concrete inputs.
--
-- State is passed on: an operation takes the state and the clocks that it reads, and returns the
-- state that it leaves. Instants and durations are numbers of nanoseconds; an Instant counts from the
-- earliest one that the platform can represent, so that a subtraction that would go below it panics
-- and `duration_since` of a later instant is 0. Counters and timestamps of 64 bits wrap where the code
-- adds to them. One call on the concurrent map is one step, and so is one call of an operation;
-- histories are sequences of such calls. A request to Redis takes one turn of its connection, which says
-- what other clients did to the server before, how long that took, and whether the request was
-- executed and its reply came, and when. All loops are structural but two, which run on fuel:
-- `to_string` of Headers, whose 20 steps are as many as the digits of a number of 64 bits, and the
-- sweep of `reset` in RedisStore/Sweep, for which the rounds that the server's iteration may take are
-- enough. As a RateLimitStore, where a result is needed, a sweep without fuel left stands as a panic.
--
-- Not modelled: the runtime that drives the prune task; logging, `Debug` and `description` of an
-- algorithm, which only format text; getters of single fields. Parameters are SHA-256 and the
-- printing of addresses (`Host`), the Redis server with its clock and its connections (`Redis`, `Lua`),
-- and what the middleware calls of the web framework and of the JSON printer (`Core`).
pub mod Prelude
pub mod DashMap
pub mod Outcome
pub mod Headers
pub mod Float
pub mod Algorithms
pub mod Redis
pub mod Stores
pub mod Config
pub mod Extractor
pub mod Limiter
pub mod Middleware
pub mod Tests
