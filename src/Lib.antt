-- ===== src/Lib.antt =====
-- The order service gorder: orders come from Kafka, are stored in PostgreSQL, kept in an LRU cache and
-- shown over HTTP to signed-in users. This library models its Go code (internal/ and cmd/) and
-- proves what makes the parts correct.
--
-- The parts and how they interact. The consumer reads messages, decodes and validates them, adds the
-- orders to the storage unless they are there, and on success puts them into the cache. The HTTP handlers
-- answer from the cache, or else from the storage, and then put what they have read into the cache. Both
-- share one cache and one storage. The guards of internal/middleware stand before the handlers in the
-- router. At the start, the configuration is read from the environment and the cache is filled with the
-- most recent orders.
--
--   Models, Metrics: internal/models/models.go and internal/metrics/metrics.go, as records;
--     Models/Validation is the validate tags as data, and LoadOrderFromFile.
--   Cache: internal/cache/cache.go. `cacheNode` pointers are numbers, each field of a node is a
--     function from pointers, the Go map is an association list, and nil pointers are met as `none`.
--     addNode, removeNode, moveToHead, popTail, Set, Get, Delete and Size are add_node, remove_node,
--     move_to_head, pop_tail, set, get, delete and size. Cache/Ring and Cache/Links speak of the linked
--     list, Cache/Lru is the specification (a list of orders), Cache/Refine says how a cache stands for
--     such a list, Cache/Read, Cache/Evict and Cache/Store treat the methods, Cache/Trace sequences of
--     them, Cache/Counter the consumer's counter, Cache/Delete the method that the service never calls.
--   Preload: `Populate` of cache.go.
--   Repository: internal/repository/repository.go. Repository/Tables holds the tables of migrations/
--     and the SQL texts as functions on them, Repository/Driver what the code uses of pgx and PostgreSQL
--     with its laws, Repository/Insert and Repository/Select the methods (AddOrder is add_order, and so
--     on), Repository/Interface the interface that the clients take, Repository/Widths the column
--     types, Repository/Keys the keys, and the other files the theorems.
--   Http: what is used of gin. Middleware/Auth, Middleware/RateLimit and Middleware/Metrics: auth.go,
--     ratelimit.go and metrics.go of internal/middleware; Middleware/Jwt is what they use of golang-jwt.
--   Handler: Handler/Orders, Handler/Pages and Handler/System are internal/handler/handler.go,
--     Handler/Session is internal/handler/login.go with internal/dto/dto.go.
--   Router: createRouter of internal/app/app.go, the table of routes with their chains; Router/Guards is
--     who gets past them, Router/Answers what he gets, Router/Preserves what a chain leaves as it was,
--     Router/Observed what the histogram of request times is given.
--   Consumer: internal/consumer/consumer.go. Consume is consume, on the list of what ReadMessage
--     returns.
--   Config: internal/config/config.go, with strconv.Atoi in Config/Atoi.
--   Coherence: the cache against the database under the handlers; Coherence/Lookup treats what they
--     share.
--   System: internal/app/app.go. System/Run is Run with CreatePool and RunMigrations of the repository,
--     a function from what the libraries answer to the order of what is opened and closed; System itself
--     is the service while it runs, a step relation over the database and the cache whose steps are
--     messages and requests, and System/Start the state that Populate leaves. System/Main is
--     cmd/main.go.
--   Concurrent: the goroutines of the same service with their steps in any order. A thread is what a
--     goroutine has still to do, cut at its accesses to the cache and to the repository;
--     Concurrent/Messages is the consumer's, Concurrent/Requests those of the requests.
--     Concurrent/Alone and Concurrent/Whole compare a thread that nobody disturbs with the function
--     that it cuts up, Concurrent/Rely is what a thread may rely on and must guarantee, Concurrent/Turns
--     how many turns it needs, Concurrent/Saving, Concurrent/Safety and Concurrent/Stored put the
--     consumer among the requests, and the other files treat the requests.
--   GenToken: cmd/gen-token/main.go. Emulator: cmd/emulator/emulator.go, generateRandomOrder in Emulator
--     and run in Emulator/Run; Emulator/Forms and Emulator/Shapes describe the generated fields,
--     Emulator/Fields, Emulator/Parts and Emulator/Accepted put them against the tags, Emulator/Received
--     against the consumer.
--   Prelude: helpers. Tests: concrete instances.
--
-- State and errors. The mutexes make each cache method one step, so calls of several goroutines are a
-- sequence. A handler is a function from the request's context and the state (database and cache) to
-- the state and what it wrote, or a panic. Errors are values; log lines are left out. Database and
-- broker errors are whatever the parameters return.
--
-- Bounds. Times are microseconds, the precision that PostgreSQL keeps, and UIDs are texts in the form
-- that its UUID column gives back. The nullable columns internal_signature and request_id hold texts,
-- since only AddOrder writes them. A negative amount, which the tag min=1 refuses, counts as a text
-- that cannot be unmarshalled: the consumer passes over both. Numbers are natural numbers; `int` columns are kept in range by JSON
-- decoding and the database, and the one subtraction on uint64, in the emulator, wraps around. `itoa`
-- (Prelude/Decimal) takes the number's successor as fuel, which Handler/Numerals treats; no other
-- function needs fuel. Atoi is that of a machine with 64-bit `int`.
--
-- Parameters. pgx and PostgreSQL (Repository/Driver), golang-jwt (Middleware/Jwt), bcrypt, gin's JSON
-- binding, encoding/json, the validator (Models/Validation), ulule/limiter, kafka-go's reader and
-- writer, godotenv, math/rand and the UUID generator (Emulator). Where a theorem relies on one of them
-- it takes its laws as a hypothesis, and the files of Tests give instances. The laws of the driver
-- leave out a connection that is lost during a COMMIT, after which nobody knows what was published.
--
-- Not modelled: gin's matching of paths, its recovery from a panic and gin-prometheus; the routes
-- /static, /metrics and /swagger; the registration of the collectors and the values of the histogram,
-- which are Prometheus calls; the embedded files, the generated API documentation and the web assets.
-- In System a request runs as one step and so does a message. Concurrent cuts them, but a reading
-- method of the repository, which may send two queries, and a transaction stay one step each: a law of
-- the driver speaks of the tables as a transaction finds them (Repository/Enforced treats an order
-- that comes in after the question whether it is there). There is one consumer, the requests are
-- given at the start, and the limiter answers from a store of its own. Run is modelled by the order of
-- its calls; when the server fails, the consumer's goroutine is left running and not followed further.
pub mod Prelude
pub mod Models
pub mod Metrics
pub mod Cache
pub mod Repository
pub mod Http
pub mod Middleware
pub mod Handler
pub mod Consumer
pub mod Preload
pub mod Config
pub mod Router
pub mod Coherence
pub mod System
pub mod Concurrent
pub mod GenToken
pub mod Emulator
pub mod Tests
