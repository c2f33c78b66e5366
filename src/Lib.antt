-- ===== src/Lib.antt =====
-- A verification library for the C++ backend of TitanX, a stock exchange: orders come in over HTTP, are
-- checked against risk limits, matched in the order book of their symbol, and the trades move
-- positions and prices.
--
-- Parts. MatchingEngine::submit asks RiskEngine::checkPreTrade, which reads the halt flags of the
-- CircuitBreaker; an approved order goes to OrderBook::match of its symbol. Each trade goes to the fill
-- consumer of main, which calls RiskEngine::recordFill and updateLastTradePrice, and the latter feeds
-- the breaker, and the calls of RedisPositionCache::updatePosition and publishFill. Each event goes to the
-- event consumer of main, which appends it to the EventStore. HttpServer turns requests with a token of the
-- JwtTokenService, within the rate of the TokenBucketRateLimiter, into calls of the engine.
--
-- Files, with the code that they model:
--   Prelude        library names, Boolean tests, lists, int64_t (Prelude/Int), std::string (Prelude/Text),
--                  std::unordered_map (Prelude/Map), code that may throw (Prelude/Results), printed
--                  integers (Prelude/Decimal), double (Prelude/Floats)
--   Model          backend/include/titanx/model/*.hpp, backend/src/model/Order.cpp and Trade.cpp:
--                  Order, Trade, OrderSide, OrderType, OrderStatus; World holds what is read from
--                  random numbers and clocks, Uuid is generate_uuid, Prices the conversions of prices
--   Serialization  the to_json and to_string methods of orders, trades, events and snapshots
--   Engine/Levels  a side of the book, std::map from a price to a std::deque of orders, best price first
--   Engine/Sweep   the loops of OrderBook::matchMarket and matchLimit (backend/src/engine/OrderBook.cpp);
--                  below it the loops by structural recursion (Structure), the independent rule of
--                  price-time priority (Rule, Execution) and what connects them
--   Engine/OrderBook  class OrderBook, one function per method, named as the method; below it
--                  the book's invariant (Validity) and what each operation does (Insertion, Removal,
--                  Matching, Cancel, Priority, Ioc, Fok, Match, Snapshot)
--   Engine/MatchingEngine  class MatchingEngine (backend/src/engine/MatchingEngine.cpp): submit, cancel,
--                  getSnapshot, the stop triggers and the kill switch, over arbitrary consumers; below
--                  it the engine's invariant (Soundness, Submission, Cancellation), its answers
--                  (Answers) and the accounts that trade (SelfTrade)
--   Event          OrderEvent and FillEvent (backend/include/titanx/event, backend/src/event)
--   Risk/CircuitBreaker  class CircuitBreaker (backend/src/risk/CircuitBreaker.cpp)
--   Risk/RiskEngine  class RiskEngine (backend/src/risk/RiskEngine.cpp) and RiskResult
--   Gateway/RateLimiter  class TokenBucketRateLimiter (backend/src/gateway/TokenBucketRateLimiter.cpp)
--   Gateway/JwtTokenService  class JwtTokenService (backend/src/gateway/JwtTokenService.cpp)
--   Gateway/HttpServer  class HttpServer (backend/src/gateway/HttpServer.cpp), a function per route (Login,
--                  Orders, Operations), which calls the engine, the rate limiter and the token
--                  service; Requests is what the handlers read from a request, Responses what they
--                  share
--   Persistence/Database, Persistence/EventStore  class EventStore (backend/src/persistence/EventStore.cpp):
--                  writeToDb, and the writer thread with append and close
--   Persistence/RedisPositionCache  class RedisPositionCache (backend/src/persistence/RedisPositionCache.cpp)
--   Wiring         the consumers that backend/src/main.cpp installs in the engine, and the runs of the
--                  engine with them (Reachability): the positions of the risk engine (Fills), what one
--                  submission tells the event store and the position cache (Tells, Journal), the sum of
--                  the moves (Balance) and the accounts of the trades (SelfTrade); and submissions whose risk
--                  checks and executions fall between one another (Interleaving)
--   Simulation     the load test backend/src/simulation/OrderGenerator.cpp: its orders (Orders), its
--                  threads (Soundness, Completion) and its report (Report, Sorting, Percentiles)
--   Process        the start of backend/src/main.cpp: environment and ports (Configuration), and the
--                  server that it starts under any sequence of requests (Serving)
-- A file called Examples has the concrete inputs and the theorems at them, Samples what they share.
--
-- State and operations. A class is a record of its fields; a method takes the record and returns it
-- changed, with the result. A function that draws random numbers or reads a clock threads a World. An
-- absent result is Option. In the circuit breaker the mutex is a field, and an operation that would wait
-- for a mutex that its own thread holds is `none`.
--
-- Integers. int64_t is the type of integers with every sum, difference, product and quotient wrapped to
-- 64 bits (Prelude/Int). Theorems say where they need values to fit.
--
-- Fuel. The two loops of matching take fuel: one more than the number of orders of a level, and one
-- more than the number of levels. Engine/Sweep/Structure connects them to structural recursion.
--
-- Libraries. What the code calls of Crow, nlohmann::json, jwt-cpp, libpq and hiredis, and the C++ double,
-- are parameters: Serialization/Library, Gateway/JwtTokenService, Persistence/Database,
-- Persistence/RedisPositionCache and Prelude/Floats have the records. Where a theorem relies on what a
-- library documents, it is a hypothesis with a name (IsLawful, Counts, IsUniform, IsMonotone), which an
-- example fills. The generator of random numbers of the load test is a parameter, too.
--
-- Threads. The event store is a relation of steps between the states of its threads, and so are the
-- requests on one bucket of the rate limiter (Gateway/RateLimiter/Race) and the threads of the load test
-- (Simulation). Of submissions, the risk check, under the mutex of the risk engine, and the rest are
-- steps that those of other submissions may separate (Wiring/Interleaving); the rest, with the events,
-- is one step, though the code holds the lock of the symbol for the matching alone. Elsewhere an
-- operation is modelled as a whole.
--
-- Left out: logging; the locks of the engine. Not modelled: the signal handler of main, whose flag nothing
-- reads; Crow's routing; the banner of the load test; the Java services, an earlier implementation of the
-- same exchange; the tests and the deployment files.
pub mod Prelude
pub mod Model
pub mod Event
pub mod Engine
pub mod Risk
pub mod Serialization
pub mod Gateway
pub mod Persistence
pub mod Wiring
pub mod Simulation
pub mod Process
