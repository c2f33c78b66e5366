-- ===== src/Model/World.antt =====
-- What the program reads from outside: the 64-bit draws of std::mt19937_64 and the clocks. Both are
-- arbitrary sequences, and the state counts how much of each was read.
use titan_x.Prelude.{ℕ, ◌+◌}

pub record World : Type 0 where
  pub random : ℕ → ℕ
  pub clock : ℕ → ℕ
  pub drawn : ℕ
  pub ticks : ℕ

-- `dist(rng)`
unfoldable pub draw : World → ℕ × World
draw w = (w.random w.drawn, record w { drawn = w.drawn + 1 })

-- `SystemClock::now()`, in the clock's own unit since its epoch.
unfoldable pub now : World → ℕ × World
now w = (w.clock w.ticks, record w { ticks = w.ticks + 1 })
