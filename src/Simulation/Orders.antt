-- ===== src/Simulation/Orders.antt =====
-- What the load test submits.
use titan_x.Prelude.{◌≡◌, false, arith, Bool-cases, inl, inr}
use titan_x.Prelude.Int.{ℤ, pos, negsuc, eqb_ℤ, ◌≤ℤ◌, ◌+ℤ◌, ◌*ℤ◌, wrap}
use titan_x.Prelude.Text.{Text}
use titan_x.Prelude.Floats.{Floats}
use titan_x.Model.World.{World}
use titan_x.Model.OrderType.{limit, ioc}
use titan_x.Model.Order
use titan_x.Engine.MatchingEngine.Soundness.{IsAcceptable}
use titan_x.Simulation.{
  Generator, IsUniform, HasPrices, base_price, tick_size, literal, draw_type, next_order,
}

price-nonzero :
    (t : ℤ)
    → negsuc 49 ≤ℤ t
    → t ≤ℤ pos 50
    → eqb_ℤ (pos 15000000000 +ℤ t *ℤ pos 1000000) (pos 0) ≡ false
unfolding ◌+ℤ◌ ◌*ℤ◌ wrap
price-nonzero (pos n) h k = ground arith
price-nonzero (negsuc n) h k = ground arith

module _ (F : Floats) (G : Generator F) (prices : HasPrices F) (uniform : IsUniform G) where
  -- LIMIT and IOC come with a price.
  draw_type-priced :
      (r : G.Rng)
      → ((draw_type F G r).0 ≡ limit → eqb_ℤ (draw_type F G r).1 (pos 0) ≡ false)
        × ((draw_type F G r).0 ≡ ioc → eqb_ℤ (draw_type F G r).1 (pos 0) ≡ false)
  unfolding draw_type
  draw_type-priced r =
      let roll = G.uniform_real (F.of_int (pos 0)) (F.of_int (pos 1)) r in
      let ticks = G.uniform_int (negsuc 49) (pos 50) roll.1 in
      let within = uniform (negsuc 49) (pos 50) roll.1 (omega arith) in
      let nonzero : eqb_ℤ (base_price F +ℤ ticks.0 *ℤ tick_size F) (pos 0) ≡ false =
        rw (prices.base, prices.tick) (price-nonzero ticks.0 within.0 within.1) in
      elim (Bool-cases (F.lt roll.0 (literal F 60 100))) [
        | inl a ↦ rw a (λ e. nonzero, λ e. nonzero)
        | inr a ↦ elim (Bool-cases (F.lt roll.0 (literal F 85 100))) [
          | inl b ↦ rw (a, b) (λ e. cc, λ e. cc)
          | inr b ↦ elim (Bool-cases (F.lt roll.0 (literal F 93 100))) [
            | inl c ↦ rw (a, b, c) (λ e. nonzero, λ e. nonzero)
            | inr c ↦ rw (a, b, c) (λ e. cc, λ e. cc)
          ]
        ]
      ]

  -- If the distributions draw from their intervals and the two prices are what the comments beside
  -- them say, every order of the load test has a quantity below 2^63 and, if LIMIT or IOC, a price
  -- other than 0.
  pub next_order-IsAcceptable :
      (a : Text) (r : G.Rng) (w : World) → IsAcceptable (next_order F G a r w).0
  unfolding next_order Order.create
  next_order-IsAcceptable a r w =
      let kind = draw_type F G r in
      let coin = G.uniform_int (pos 0) (pos 1) kind.2 in
      let within = uniform (pos 1) (pos 500) coin.1 (omega arith) in
      let priced = draw_type-priced r in
      record { small = ground (arith, within); priced_limit = priced.0; priced_ioc = priced.1 }
