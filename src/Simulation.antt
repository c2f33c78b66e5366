-- ===== src/Simulation.antt =====
-- backend/src/simulation/OrderGenerator.cpp: the load test. Each thread runs `runSimulation` with a
-- generator of its own on one shared engine without consumers; a step of the program is one pass of
-- a thread's loop, or a thread's hand-over of its latencies. std::mt19937 and its distributions are
-- a parameter, and so is `double`; a decimal literal is the quotient of two integers.
pub mod Orders
pub mod Breaker
pub mod Soundness
pub mod Completion
pub mod Report
pub mod Sorting
pub mod Percentiles
mod Examples
use titan_x.Prelude.{
  ℕ, zero, suc, ◌+◌, ◌-◌, ◌*◌, ◌/◌, ◌%◌, ◌^◌, List, [], ◌∷◌, ◌++◌, Option, none, some, length,
  if◌then◌else◌, ◌>>=◌, ◌≡◌,
}
use titan_x.Prelude.Int.{ℤ, pos, negsuc, ◌+ℤ◌, ◌*ℤ◌, ◌≤ℤ◌, eqb_ℤ}
use titan_x.Prelude.Text.{Text, codes}
use titan_x.Prelude.Decimal
use titan_x.Prelude.Floats.{Floats}
use titan_x.Model.World.{World, now}
use titan_x.Model.Prices.{price_to_fixed}
use titan_x.Model.OrderSide.{OrderSide, buy, sell}
use titan_x.Model.OrderType.{OrderType, market, limit, ioc, fok}
use titan_x.Model.Order
use titan_x.Model.Order.{Order}
use titan_x.Risk.CircuitBreaker
use titan_x.Risk.RiskEngine
use titan_x.Engine.MatchingEngine
use titan_x.Engine.MatchingEngine.{Exchange, no_consumers, submit}

-- std::mt19937, and the numbers that its uniform distributions draw.
pub record Generator (F : Floats) : Type 1 where
  pub Rng : Type 0
  pub seeded : ℕ → Rng
  pub uniform_real : F.Double → F.Double → Rng → F.Double × Rng
  pub uniform_int : ℤ → ℤ → Rng → ℤ × Rng

-- `uniform_int_distribution(a, b)` draws from the closed interval.
abbrev pub IsUniform : {F : Floats} → Generator F → Type 0
IsUniform G =
    (a b : ℤ) (r : G.Rng) → a ≤ℤ b → (a ≤ℤ (G.uniform_int a b r).0) × ((G.uniform_int a b r).0 ≤ℤ b)

abbrev pub num_orders : ℕ
num_orders = 100000

abbrev pub num_threads : ℕ
num_threads = 4

abbrev pub orders_per_thread : ℕ
orders_per_thread = num_orders / num_threads

abbrev pub aapl : Text
aapl = codes "AAPL"

-- A literal with decimals, as the quotient that it is.
abbrev pub literal : (F : Floats) → ℕ → ℕ → F.Double
literal F n d = F.div (F.of_int (pos n)) (F.of_int (pos d))

abbrev pub base_price : Floats → ℤ
base_price F = price_to_fixed F (F.of_int (pos 150))

abbrev pub tick_size : Floats → ℤ
tick_size F = price_to_fixed F (literal F 1 100)

-- The two prices as the comments beside them have them.
pub record HasPrices (F : Floats) : Type 0 where
  pub base : base_price F ≡ pos 15000000000
  pub tick : tick_size F ≡ pos 1000000

module _ (F : Floats) (G : Generator F) where
  -- The type and the price of the next order.
  unfoldable pub draw_type : G.Rng → OrderType × ℤ × G.Rng
  draw_type r =
      let (roll, r1) = G.uniform_real (F.of_int (pos 0)) (F.of_int (pos 1)) r in
      let (ticks, r2) = G.uniform_int (negsuc 49) (pos 50) r1 in
      let price = base_price F +ℤ ticks *ℤ tick_size F in
      if F.lt roll (literal F 60 100)
      then (limit, price, r2)
      else if F.lt roll (literal F 85 100)
      then (market, pos 0, r1)
      else if F.lt roll (literal F 93 100)
      then (ioc, price, r2)
      else (fok, price, r2)

  -- The next order of an account.
  unfoldable pub next_order : Text → G.Rng → World → Order × G.Rng × World
  unfolding draw_type
  next_order account_id r w =
      let (type, price, r1) = draw_type r in
      let (coin, r2) = G.uniform_int (pos 0) (pos 1) r1 in
      let side : OrderSide = if eqb_ℤ coin (pos 0) then buy else sell in
      let (quantity, r3) = G.uniform_int (pos 1) (pos 500) r2 in
      let (o, w1) = Order.create account_id aapl side type price (pos 0) quantity w in (o, r3, w1)

  -- A thread: its account, what is left of its loop, its generator and its `localLatencies`.
  pub record Worker : Type 0 where
    pub account_id : Text
    pub left : ℕ
    pub rng : G.Rng
    pub latencies : List ℕ

  -- What the threads share: the engine, and the two statics that they add to.
  pub record Shared : Type 0 where
    pub exchange : Exchange (Unit {0})
    pub total_trades : ℕ
    pub all_latencies : List ℕ

  abbrev pub worker : ℕ → Worker
  worker t = record {
    account_id = codes "MM-" ++ Decimal.decimal t;
    left = orders_per_thread;
    rng = G.seeded (42 + t);
    latencies = [];
  }

  -- `for (int t = 0; t < NUM_THREADS; ++t)`, for the threads that are left from `t` on.
  unfoldable pub launch : ℕ → ℕ → List Worker
  launch t zero = []
  launch t (suc n) = worker t ∷ launch (t + 1) n

  -- One pass of the loop: `none` is a submission that does not return.
  unfoldable pub pass : Worker → Shared → Option (Worker × Shared)
  unfolding next_order
  pass v s = do
    let (o, r, w) = next_order v.account_id v.rng s.exchange.world
    let (start, w1) = now w
    done ← submit no_consumers o (record s.exchange { world = w1 })
    let (end, w2) = now done.1.world
    some (
      record v {
        left = v.left - 1;
        rng = r;
        latencies = v.latencies ++ ((end - start) / 1000) ∷ [];
      },
      record s {
        exchange = record done.1 { world = w2 };
        total_trades = (s.total_trades + length done.0) % 2 ^ 32;
      },
    )

  -- The end of `runSimulation`, under the mutex of the latencies.
  unfoldable pub hand_over : Worker → Shared → Shared
  hand_over v s = record s { all_latencies = s.all_latencies ++ v.latencies }

  -- The threads that run, and what they share.
  pub record Simulation : Type 0 where
    pub workers : List Worker
    pub shared : Shared

  -- A thread that is not at its end passes once through its loop; one at its end hands over.
  pub data Step (s s' : Simulation) : Type 0 where
    passes :
        (before after : List Worker) (v v' : Worker) (shared : Shared) (n : ℕ)
        → s.workers ≡ before ++ v ∷ after
        → v.left ≡ suc n
        → pass v s.shared ≡ some (v', shared)
        → s' ≡ record { workers = before ++ v' ∷ after; shared = shared }
        → Step s s'
    ends :
        (before after : List Worker) (v : Worker)
        → s.workers ≡ before ++ v ∷ after
        → v.left ≡ 0
        → s' ≡ record { workers = before ++ after; shared = hand_over v s.shared }
        → Step s s'

  pub data Reach (s : Simulation) : ℕ → Simulation → Type 0 where
    here : Reach s 0 s
    next : {n : ℕ} {t u : Simulation} → Reach s n t → Step t u → Reach s (suc n) u

  -- `main` once it has launched the threads.
  abbrev pub launched : World → Simulation
  launched w = record {
    workers = launch 0 num_threads;
    shared = record {
      exchange = record {
        engine = MatchingEngine.init;
        risk = RiskEngine.init CircuitBreaker.empty;
        outside = tt;
        world = w;
      };
      total_trades = 0;
      all_latencies = [];
    };
  }
