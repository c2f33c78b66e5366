-- ===== src/Simulation/Report.antt =====
-- The report at the end of `main` in backend/src/simulation/OrderGenerator.cpp.
use titan_x.Prelude.{
  ℕ, ◌+◌, ◌-◌, List, [], ◌∷◌, ◌++◌, map, Option, none, some, length, get_elem?, leb, if◌then◌else◌,
  ◌>>=◌,
}
use titan_x.Prelude.Int.{pos, pos_part}
use titan_x.Prelude.Text.{Text, codes}
use titan_x.Prelude.Decimal
use titan_x.Prelude.Floats.{Floats}
use titan_x.Model.Prices.{price_to_string}
use titan_x.Engine.OrderBook.{PriceLevel, OrderBookSnapshot}
use titan_x.Engine.MatchingEngine.{get_snapshot}
use titan_x.Simulation.{Generator, Shared, aapl, literal, num_orders}

-- `std::sort`
unfoldable pub place : ℕ → List ℕ → List ℕ
place x [] = x ∷ []
place x (y ∷ ys) = let rest = place x ys in if leb x y then x ∷ y ∷ ys else y ∷ rest

unfoldable pub sort : List ℕ → List ℕ
unfolding place
sort [] = []
sort (x ∷ xs) = place x (sort xs)

-- `std::accumulate`
unfoldable pub sum : List ℕ → ℕ
sum [] = 0
sum (x ∷ xs) = x + sum xs

abbrev pub last : List ℕ → Option ℕ
last [] = none
last (x ∷ xs) = elim (last xs) [ none ↦ some x | some y ↦ some y ]

module _ (F : Floats) where
  -- `percentile`, on latencies that are sorted; `none` is the access to an element that is not
  -- there.
  unfoldable pub percentile : F.Double → List ℕ → Option ℕ
  percentile p ls =
      let size = length ls in
      let idx = pos_part (F.to_int (F.mul p (F.of_int (pos size)))) in
      get_elem? ls (if leb size idx then size - 1 else idx)

  -- A printed level of the book, and the two sides.
  unfoldable pub level_line : PriceLevel → Text
  level_line l =
      codes "      "
      ++ price_to_string F l.price
      ++ codes "  qty="
      ++ Decimal.to_string l.total_quantity
      ++ codes "  orders="
      ++ Decimal.decimal l.order_count

  unfoldable pub book_lines : OrderBookSnapshot → List Text × List Text
  book_lines b = (map level_line b.bids, map level_line b.asks)

  abbrev pub shown : Option OrderBookSnapshot → Option (List Text × List Text)
  shown none = none
  shown (some b) = some (book_lines b)

  pub record Report : Type 0 where
    pub total_orders : ℕ
    pub total_trades : ℕ
    pub throughput : F.Double
    pub least : ℕ
    pub p50 : ℕ
    pub p95 : ℕ
    pub p99 : ℕ
    pub p999 : ℕ
    pub greatest : ℕ
    pub average : F.Double
    pub book : Option (List Text × List Text)

  -- The report after `total_ms` milliseconds.
  unfoldable pub report : {G : Generator F} → ℕ → Shared F G → Option Report
  report total_ms s = do
    let ls = sort s.all_latencies
    least ← get_elem? ls 0
    p50 ← percentile (literal F 50 100) ls
    p95 ← percentile (literal F 95 100) ls
    p99 ← percentile (literal F 99 100) ls
    p999 ← percentile (literal F 999 1000) ls
    greatest ← last ls
    some (record {
      total_orders = num_orders;
      total_trades = s.total_trades;
      throughput =
          F.div (F.mul (F.of_int (pos num_orders)) (F.of_int (pos 1000))) (F.of_int (pos total_ms));
      least = least;
      p50 = p50;
      p95 = p95;
      p99 = p99;
      p999 = p999;
      greatest = greatest;
      average = F.div (F.of_int (pos (sum ls))) (F.of_int (pos (length ls)));
      book = shown (get_snapshot aapl (pos 5) s.exchange.engine);
    })
