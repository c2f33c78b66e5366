-- ===== src/Simulation/Percentiles.antt =====
-- The figures of the report are in order.
use titan_x.Prelude.{
  ℕ, suc, ◌-◌, ◌^◌, ◌≤◌, ◌<◌, ◌≡◌, refl, true, List, [], ◌∷◌, some, length, get_elem?, leb,
  if◌then◌else◌, All, arith,
}
use titan_x.Prelude.Int.{pos, pos_part, ◌≤ℤ◌}
use titan_x.Prelude.Floats.{Floats}
use titan_x.Engine.MatchingEngine.{get_snapshot}
use titan_x.Simulation.{Generator, Shared, aapl, literal, num_orders}
use titan_x.Simulation.Report.{sort, percentile, shown, sum, Report, report}
use titan_x.Simulation.Sorting.{
  IsSorted, All-sort, sort-IsSorted, length-sort, get_elem?-mono, get_elem?-total, last-get_elem?,
  within,
}

-- Between 0 and 1.
pub record IsFraction (F : Floats) (p : F.Double) : Type 0 where
  pub positive : F.lt (F.of_int (pos 0)) p ≡ true
  pub below_one : F.lt p (F.of_int (pos 1)) ≡ true

-- A product of a fraction with a number below 2^53, which `double` holds exactly, cut to an
-- integer, follows the order of the fractions.
abbrev pub IsMonotone : Floats → Type 0
IsMonotone F =
    (p q : F.Double) (n : ℕ)
    → n < 2 ^ 53
    → IsFraction F p
    → IsFraction F q
    → F.lt p q ≡ true
    → F.to_int (F.mul p (F.of_int (pos n))) ≤ℤ F.to_int (F.mul q (F.of_int (pos n)))

-- The literals of the report are fractions, and in order.
pub record HasOrder (F : Floats) : Type 0 where
  pub p50 : IsFraction F (literal F 50 100)
  pub p95 : IsFraction F (literal F 95 100)
  pub p99 : IsFraction F (literal F 99 100)
  pub p999 : IsFraction F (literal F 999 1000)
  pub p50_p95 : F.lt (literal F 50 100) (literal F 95 100) ≡ true
  pub p95_p99 : F.lt (literal F 95 100) (literal F 99 100) ≡ true
  pub p99_p999 : F.lt (literal F 99 100) (literal F 999 1000) ≡ true

module _ (F : Floats) where
  -- The index that `percentile` reads.
  abbrev index : F.Double → ℕ → ℕ
  index p size =
      let idx = pos_part (F.to_int (F.mul p (F.of_int (pos size)))) in
      if leb size idx then size - 1 else idx

  index_mono :
      IsMonotone F
      → (p q : F.Double) (n : ℕ) → n < 2 ^ 53
      → IsFraction F p
      → IsFraction F q
      → F.lt p q ≡ true
      → index p n ≤ index q n
  index_mono m p q n small f g h = let k = m p q n small f g h in ground (arith, k)

  percentile-total :
      (p : F.Double) (x : ℕ) (xs : List ℕ)
      → (a : ℕ) × (percentile F p (x ∷ xs) ≡ some a)
        × (get_elem? (x ∷ xs) (index p (suc (length xs))) ≡ some a)
  unfolding percentile
  percentile-total p x xs =
      let (a, e) = get_elem?-total (x ∷ xs) (index p (suc (length xs))) (ground arith) in (a, e, e)

  -- The figures of a report are in order, and every latency is between the least and the greatest.
  pub record IsOrdered (r : Report F) (ls : List ℕ) : Type 0 where
    pub least_p50 : r.least ≤ r.p50
    pub p50_p95 : r.p50 ≤ r.p95
    pub p95_p99 : r.p95 ≤ r.p99
    pub p99_p999 : r.p99 ≤ r.p999
    pub p999_greatest : r.p999 ≤ r.greatest
    pub bounds : All (λ x. (r.least ≤ x) × (x ≤ r.greatest)) ls

  -- The report on latencies that sort to a list with a first element.
  figures :
      {G : Generator F} (ms : ℕ) (s : Shared F G) (x : ℕ) (xs : List ℕ)
      → IsMonotone F
      → HasOrder F
      → suc (length xs) < 2 ^ 53
      → sort s.all_latencies ≡ x ∷ xs
      → IsSorted (x ∷ xs)
      → (r : Report F) × (report F ms s ≡ some r) × IsOrdered r (x ∷ xs)
  unfolding report
  figures ms s x xs m o small e h =
      let n = suc (length xs) in
      let (a, a1, a2) = percentile-total (literal F 50 100) x xs in
      let (b, b1, b2) = percentile-total (literal F 95 100) x xs in
      let (c, c1, c2) = percentile-total (literal F 99 100) x xs in
      let (d, d1, d2) = percentile-total (literal F 999 1000) x xs in
      let (g, g1, g2) = last-get_elem? x xs in
      let r : Report F = record {
        total_orders = num_orders;
        total_trades = s.total_trades;
        throughput =
            F.div (F.mul (F.of_int (pos num_orders)) (F.of_int (pos 1000))) (F.of_int (pos ms));
        least = x;
        p50 = a;
        p95 = b;
        p99 = c;
        p999 = d;
        greatest = g;
        average = F.div (F.of_int (pos (sum (x ∷ xs)))) (F.of_int (pos n));
        book = shown F (get_snapshot aapl (pos 5) s.exchange.engine);
      } in
      let between : (i j u v : ℕ)
          → i ≤ j
          → get_elem? (x ∷ xs) i ≡ some u
          → get_elem? (x ∷ xs) j ≡ some v
          → u ≤ v =
        λ i j u v k p q. get_elem?-mono (x ∷ xs) i j u v h k p q in
      (
        r,
        rw (e, a1, b1, c1, d1, g1) refl,
        record {
          least_p50 = between 0 _ x a (omega arith) refl a2;
          p50_p95 =
              between _ _ a b
                (index_mono m (literal F 50 100) (literal F 95 100) n small o.p50 o.p95 o.p50_p95)
                a2 b2;
          p95_p99 =
              between _ _ b c
                (index_mono m (literal F 95 100) (literal F 99 100) n small o.p95 o.p99 o.p95_p99)
                b2 c2;
          p99_p999 =
              between _ _ c d
                (index_mono m (literal F 99 100) (literal F 999 1000) n small o.p99 o.p999
                  o.p99_p999)
                c2 d2;
          p999_greatest = between _ (length xs) d g (ground arith) d2 g2;
          bounds = within x xs g h g1;
        },
      )

  -- If the products of fractions with a number below 2^53, cut to an integer, follow the order of
  -- the fractions, and the literals 0.50, 0.95, 0.99 and 0.999 are fractions in order, the report
  -- on one latency or more, and fewer than 2^53, reads no element that is not there, its figures
  -- from the least to the greatest are in order, and every latency is between those two.
  pub report-IsOrdered :
      {G : Generator F} (ms : ℕ) (s : Shared F G)
      → IsMonotone F
      → HasOrder F
      → 0 < length s.all_latencies
      → length s.all_latencies < 2 ^ 53
      → (r : Report F) × (report F ms s ≡ some r) × IsOrdered r s.all_latencies
  report-IsOrdered {G = G} ms s m o h small =
      nonempty (sort s.all_latencies) refl (rw (length-sort s.all_latencies) h)
        (rw (length-sort s.all_latencies) small) (sort-IsSorted s.all_latencies)
    where
      nonempty :
          (ls : List ℕ)
          → sort s.all_latencies ≡ ls
          → 0 < length ls
          → length ls < 2 ^ 53
          → IsSorted ls
          → (r : Report F) × (report F ms s ≡ some r) × IsOrdered r s.all_latencies
      nonempty [] e h j k = absurd (omega (arith, h))
      nonempty (x ∷ xs) e h j k =
          let (r, run, v) = figures ms s x xs m o j e k in
          (
            r,
            run,
            record {
              least_p50 = v.least_p50;
              p50_p95 = v.p50_p95;
              p95_p99 = v.p95_p99;
              p99_p999 = v.p99_p999;
              p999_greatest = v.p999_greatest;
              bounds =
                  All-sort (λ y. (r.least ≤ y) × (y ≤ r.greatest)) s.all_latencies (rw e v.bounds);
            },
          )
