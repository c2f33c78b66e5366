-- ===== src/Simulation/Soundness.antt =====
-- The engine of the load test stays sound, and its submissions return.
use titan_x.Prelude.{
  ◌+◌, ◌%◌, ◌^◌, length, ℕ, ◌-◌, ◌/◌, ◌≡◌, refl, subst, false, List, [], ◌∷◌, ◌++◌, some, arith,
  >>=-eq-some,
}
use titan_x.Prelude.Floats.{Floats}
use titan_x.Prelude.Map.{lookup}
use titan_x.Model.World.{World, now}
use titan_x.Model.Trade.{Trade}
use titan_x.Risk.RiskEngine.History.{Remembers, Remembers-refl}
use titan_x.Engine.MatchingEngine.{Exchange, no_consumers, submit}
use titan_x.Engine.MatchingEngine.Soundness.{IsSound}
use titan_x.Engine.MatchingEngine.Submission.{IsKeeping, submit-IsSound}
use titan_x.Engine.MatchingEngine.Answers.{submit-returns}
use titan_x.Simulation.{
  Generator, IsUniform, HasPrices, next_order, Worker, Shared, pass, hand_over, Simulation, Step,
  Reach, launched, passes, ends, here, next,
}
use titan_x.Simulation.Orders.{next_order-IsAcceptable}
use titan_x.Simulation.Breaker.{submit-breaker}

no_consumers-IsKeeping : IsKeeping no_consumers
no_consumers-IsKeeping f at r s z h =
    let same : r ≡ z.0 = ground (arith, h) in subst (Remembers r) same (Remembers-refl r)

module _ (F : Floats) (G : Generator F) where
  -- The submission of one pass.
  pub record Submitted (v v' : Worker F G) (s s' : Shared F G) : Type 0 where
    pub trades : List Trade
    pub after : Exchange (Unit {0})
    pub returned :
        let drawn = next_order F G v.account_id v.rng s.exchange.world in
        submit no_consumers drawn.0 (record s.exchange { world = (now drawn.2).1 })
        ≡ some (trades, after)
    pub left : v'.left ≡ v.left - 1
    pub lap : (l : ℕ) × (v'.latencies ≡ v.latencies ++ l ∷ [])
    pub exchange : s'.exchange ≡ record after { world = (now after.world).1 }
    pub all_latencies : s'.all_latencies ≡ s.all_latencies

  pub pass-Submitted :
      (v v' : Worker F G) (s s' : Shared F G) → pass F G v s ≡ some (v', s') → Submitted v v' s s'
  unfolding pass
  pass-Submitted v v' s s' h =
      let drawn = next_order F G v.account_id v.rng s.exchange.world in
      let started = now drawn.2 in
      let (done, e, f) =
        >>=-eq-some (submit no_consumers drawn.0 (record s.exchange { world = started.1 })) _ h in
      let ended = now done.1.world in
      record {
        trades = done.0;
        after = done.1;
        returned = e;
        left = ground (arith, f);
        lap = ((ended.0 - started.0) / 1000, ground (arith, f));
        exchange = ground (arith, f);
        all_latencies = ground (arith, f);
      }

  -- While the breaker's mutex is free, a pass returns.
  pub pass-returns :
      (v : Worker F G) (s : Shared F G)
      → s.exchange.risk.circuit_breaker.held ≡ false
      → (v' : Worker F G) × (s' : Shared F G) × (pass F G v s ≡ some (v', s'))
  unfolding pass
  pass-returns v s free =
      let drawn = next_order F G v.account_id v.rng s.exchange.world in
      let started = now drawn.2 in
      let (ts, x, e) =
        submit-returns no_consumers drawn.0 (record s.exchange { world = started.1 }) free
          (λ f at z. (z, refl)) in
      let ended = now x.world in
      (
        record v {
          left = v.left - 1;
          rng = drawn.1;
          latencies = v.latencies ++ ((ended.0 - started.0) / 1000) ∷ [];
        },
        record s {
          exchange = record x { world = ended.1 };
          total_trades = (s.total_trades + length ts) % 2 ^ 32;
        },
        rw e refl,
      )

  pub Step-free :
      (s s' : Simulation F G)
      → Step F G s s'
      → s.shared.exchange.risk.circuit_breaker.held ≡ false
      → s'.shared.exchange.risk.circuit_breaker.held ≡ false
  unfolding hand_over
  Step-free s s' (passes before after v v' shared n at some_left run e) free =
      let p = pass-Submitted v v' s.shared shared run in
      let kept = submit-breaker _ _ p.trades p.after p.returned in rw (e, p.exchange, kept) free
  Step-free s s' (ends before after v at none_left e) free = rw e free

  pub Reach-free :
      (s t : Simulation F G) (n : ℕ)
      → Reach F G s n t
      → s.shared.exchange.risk.circuit_breaker.held ≡ false
      → t.shared.exchange.risk.circuit_breaker.held ≡ false
  Reach-free s t n here free = free
  Reach-free s u n (next {t = t} r st) free = Step-free t u st (Reach-free s t _ r free)

module _ (F : Floats) (G : Generator F) (prices : HasPrices F) (uniform : IsUniform G) where
  Step-IsSound :
      (s s' : Simulation F G)
      → Step F G s s'
      → IsSound s.shared.exchange.engine s.shared.exchange.risk
      → IsSound s'.shared.exchange.engine s'.shared.exchange.risk
  unfolding hand_over
  Step-IsSound s s' (passes before after v v' shared n at some_left run e) h =
      let p = pass-Submitted F G v v' s.shared shared run in
      let acceptable =
        next_order-IsAcceptable F G prices uniform v.account_id v.rng s.shared.exchange.world in
      rw (e, p.exchange)
        (submit-IsSound no_consumers _ _ p.trades p.after no_consumers-IsKeeping acceptable h
          p.returned)
  Step-IsSound s s' (ends before after v at none_left e) h = rw e h

  -- If the distributions draw from their intervals and the two prices are what the comments beside
  -- them say, the engine of the load test is sound after any number of steps of its threads, in any
  -- order.
  pub launched-IsSound :
      (w : World) (n : ℕ) (t : Simulation F G)
      → Reach F G (launched F G w) n t
      → IsSound t.shared.exchange.engine t.shared.exchange.risk
  unfolding lookup
  launched-IsSound w n t here = record { valid = λ s b h. cc; known = λ s b h. cc; no_stops = refl }
  launched-IsSound w n u (next {t = t} r st) = Step-IsSound t u st (launched-IsSound w _ t r)
