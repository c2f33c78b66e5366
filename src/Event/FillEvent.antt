-- ===== src/Event/FillEvent.antt =====
-- struct FillEvent, with its constructor. The JSON form is in Serialization/Events.
use titan_x.Prelude.{ℕ}
use titan_x.Model.World.{World, now}
use titan_x.Model.Trade.{Trade}

pub record FillEvent : Type 0 where
  pub trade : Trade
  pub matching_latency_micros : ℕ
  pub published_at : ℕ

unfoldable pub create : Trade → ℕ → World → FillEvent × World
unfolding now
create t latency_micros w =
    let (p, w1) = now w in
    (record { trade = t; matching_latency_micros = latency_micros; published_at = p }, w1)
