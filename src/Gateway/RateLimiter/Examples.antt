-- ===== src/Gateway/RateLimiter/Examples.antt =====
-- Bursts on a standard bucket.
use titan_x.Prelude.{refl, ◌+◌, ◌-◌, ◌*◌, ◌≤◌, [], ◌∷◌, arith}
use titan_x.Prelude.Int.{pos, ◌-ℤ◌}
use titan_x.Gateway.RateLimiter.{TokenBucket}
use titan_x.Gateway.RateLimiter.Race.{
  Runs, copies, begun, granted, reads_clock, loads_last, returns_early, loads, takes, here, next,
  moves,
}
use titan_x.Gateway.RateLimiter.Race.Overdraft.{empty_at, all-granted}
use titan_x.Gateway.RateLimiter.Race.Bounds.{IsCount, Runs-IsCount}
use titan_x.Gateway.RateLimiter.Rate.{bucket, grants, grants_le}

grants_example : 10 * grants (1000 ∷ 1005 ∷ 1020 ∷ []) (bucket 1 1000) ≤ 10 * 1 + (1020 - 1000)
grants_example =
    grants_le (1000 ∷ 1005 ∷ 1020 ∷ []) 1 1000 1020 (omega arith, (omega arith, (omega arith, tt)))
      (omega arith) (omega arith) (omega arith)

all-granted_example : (b : TokenBucket) × Runs (empty_at 1000) (copies 3 begun) b (copies 3 granted)
all-granted_example = all-granted 1000 3 (omega arith)

-- One request, at the time of the last refill, takes the only token.
one-request : Runs (bucket 1 1000) (copies 1 begun) (bucket 0 1000) (granted ∷ [])
unfolding copies ◌-ℤ◌
one-request =
    next
      (next
        (next
          (next (next here (moves [] [] (reads_clock (pos 1000))))
            (moves [] [] (loads_last (pos 1000))))
          (moves [] [] (returns_early (pos 1000) (pos 1000) refl)))
        (moves [] [] loads))
      (moves [] [] (takes (pos 1) refl refl))

Runs-IsCount_example : IsCount (pos 0)
Runs-IsCount_example =
    Runs-IsCount (bucket 1 1000) (bucket 0 1000) 1 (granted ∷ []) refl (1, refl, omega arith)
      one-request
