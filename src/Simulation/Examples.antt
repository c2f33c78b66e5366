-- ===== src/Simulation/Examples.antt =====
-- Numbers of three decimals for `double`, a small generator, a run of the load test, and the
-- properties at them.
use titan_x.Prelude.{
  ℕ, zero, suc, ◌+◌, ◌*◌, ◌/◌, ◌%◌, ◌≤◌, ◌≡◌, ◌⊎◌, refl, ltb, ◌==◌, if◌then◌else◌, List, [], ◌∷◌,
  some, length, arith,
}
use titan_x.Prelude.Int.{pos, pos_part}
use titan_x.Prelude.Text.{codes}
use titan_x.Prelude.Results.{err}
use titan_x.Prelude.Decimal
use titan_x.Prelude.Floats.{Floats}
use titan_x.Model.World.{World}
use titan_x.Model.Prices.{price_to_fixed}
use titan_x.Engine.MatchingEngine.Soundness.{IsSound}
use titan_x.Simulation.{
  Generator, IsUniform, HasPrices, num_orders, num_threads, Worker, Shared, worker, launch, pass,
  Simulation, Step, Reach, launched, passes, here, next,
}
use titan_x.Simulation.Soundness.{pass-returns, Step-free, launched-IsSound}
use titan_x.Simulation.Completion.{launched-ends}
use titan_x.Simulation.Report.{Report, report}
use titan_x.Simulation.Percentiles.{IsMonotone, HasOrder, IsOrdered, report-IsOrdered}

-- Thousandths, of numbers that are not negative.
abbrev thousandths : Floats
thousandths = record {
  Double = ℕ;
  of_int = λ n. 1000 * pos_part n;
  to_int = λ a. pos (a / 1000);
  add = λ a b. a + b;
  mul = λ a b. a * b / 1000;
  div = λ a b. 1000 * a / b;
  lt = ltb;
  stod = λ t. err (codes "stod");
  print_fixed = λ n a. Decimal.decimal (a / 1000);
}

-- A counter: it draws either end of an interval in turn.
abbrev counter : Generator thousandths
counter = record {
  Rng = ℕ;
  seeded = λ n. n;
  uniform_real = λ a b r. (100 * (r % 10), suc r);
  uniform_int = λ a b r. (if r % 2 == 0 then a else b, suc r);
}

counter-IsUniform : IsUniform counter
counter-IsUniform a b r h = ground (arith, h)

thousandths-HasPrices : HasPrices thousandths
unfolding price_to_fixed
thousandths-HasPrices = record { base = refl; tick = refl }

thousandths-HasOrder : HasOrder thousandths
thousandths-HasOrder = record {
  p50 = record { positive = refl; below_one = refl };
  p95 = record { positive = refl; below_one = refl };
  p99 = record { positive = refl; below_one = refl };
  p999 = record { positive = refl; below_one = refl };
  p50_p95 = refl;
  p95_p99 = refl;
  p99_p999 = refl;
}

multiple_mono : (p q m : ℕ) → p ≤ q → p * m ≤ q * m
multiple_mono p q zero h = omega arith
multiple_mono p q (suc m) h = grind (arith, multiple_mono p q m h)

thousandths-IsMonotone : IsMonotone thousandths
thousandths-IsMonotone p q n _ _ _ h =
    let below : p ≤ q = ground (arith, h) in omega (arith, multiple_mono p q (1000 * n) below)

abbrev world : World
world = record { random = λ n. 11 * n; clock = λ n. 5000 * n; drawn = 0; ticks = 0 }

abbrev opening : Simulation thousandths counter
opening = launched thousandths counter world

abbrev first : Worker thousandths counter
first = worker thousandths counter 0

abbrev second : Worker thousandths counter
second = worker thousandths counter 1

abbrev others : List (Worker thousandths counter)
others = launch thousandths counter 2 2

-- The first thread passes once, and then the second.
record Turns : Type 0 where
  first_after : Worker thousandths counter
  shared : Shared thousandths counter
  first_passes : pass thousandths counter first opening.shared ≡ some (first_after, shared)
  second_after : Worker thousandths counter
  shared_after : Shared thousandths counter
  second_passes : pass thousandths counter second shared ≡ some (second_after, shared_after)

turns : Turns
unfolding launch
turns =
    let (v, s, run) = pass-returns thousandths counter first opening.shared refl in
    let one : Simulation thousandths counter = record {
      workers = v ∷ second ∷ others;
      shared = s;
    } in
    let free =
      Step-free thousandths counter opening one
        (passes [] (second ∷ others) first v s 24999 refl refl run refl) refl in
    let (v', s', run') = pass-returns thousandths counter second s free in
    record {
      first_after = v;
      shared = s;
      first_passes = run;
      second_after = v';
      shared_after = s';
      second_passes = run';
    }

abbrev later : Simulation thousandths counter
later = record {
  workers = turns.first_after ∷ turns.second_after ∷ others;
  shared = turns.shared_after;
}

two_steps : Reach thousandths counter opening 2 later
unfolding launch
two_steps =
    next
      (next here (
        passes [] (second ∷ others) first turns.first_after turns.shared 24999 refl refl
          turns.first_passes refl))
      (passes (turns.first_after ∷ []) others second turns.second_after turns.shared_after 24999
        refl refl turns.second_passes refl)

launched-IsSound_example : IsSound later.shared.exchange.engine later.shared.exchange.risk
launched-IsSound_example =
    launched-IsSound thousandths counter thousandths-HasPrices counter-IsUniform world 2 later
      two_steps

launched-ends_example :
    (2 ≤ num_orders + num_threads)
    × ((later.workers ≡ [])
        ⊎ ((u : Simulation thousandths counter) × Step thousandths counter later u))
    × (later.workers ≡ []
        → (2 ≡ num_orders + num_threads) × (length later.shared.all_latencies ≡ num_orders))
launched-ends_example = launched-ends thousandths counter world 2 later two_steps

-- Three orders were measured.
abbrev measured : Shared thousandths counter
measured = record opening.shared { all_latencies = 30 ∷ 10 ∷ 20 ∷ [] }

report-IsOrdered_example :
    (r : Report thousandths) × (report thousandths {G = counter} 5 measured ≡ some r)
    × IsOrdered thousandths r measured.all_latencies
report-IsOrdered_example =
    report-IsOrdered thousandths {G = counter} 5 measured thousandths-IsMonotone
      thousandths-HasOrder (omega arith) (omega arith)
