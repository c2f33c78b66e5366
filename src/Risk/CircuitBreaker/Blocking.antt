-- ===== src/Risk/CircuitBreaker/Blocking.antt =====
-- What the calls of the breaker do to its flags, and when a call never returns.
use titan_x.Prelude.{
  ℕ, ◌+◌, ◌*◌, ◌-◌, ◌/◌, ◌^◌, ◌<◌, ◌≤◌, ◌≡◌, ◌↔◌, true, false, none, some, if◌then◌else◌, arith,
  Option-cases, inl, inr,
}
use titan_x.Prelude.Int.{ℤ, pos, ltb_ℤ}
use titan_x.Prelude.Text.{Text, text_eq, text_eq_iff}
use titan_x.Prelude.Map.{lookup, insert, erase, lookup-insert}
use titan_x.Risk.CircuitBreaker.{
  CircuitBreaker, halt_threshold_bps, clear_flag, halt_symbol, resume_symbol, is_halted, move_bps,
  record_trade,
}
use titan_x.Risk.RiskEngine.{deviation_bps}
use titan_x.Risk.RiskEngine.Limits.{deviation_lem}

-- The price of a symbol has moved by 501 basis points or more from its positive reference price,
-- within 61 seconds of the start of its window, which the code cuts to 60 whole ones.
pub record Moved (symbol : Text) (price : ℕ) (now : ℕ) (c : CircuitBreaker) : Type 0 where
  pub ref : ℕ
  pub start : ℕ
  pub referenced : lookup symbol c.reference_price ≡ some (pos ref)
  pub started : lookup symbol c.window_start ≡ some start
  pub inside : now < start + 61 * 10 ^ 9
  pub nonzero : 0 < ref
  pub far : 501 * ref ≤ ((price - ref) + (ref - price)) * 10000

move_bps_lem :
    (p r : ℕ)
    → p < 2 ^ 49
    → r < 2 ^ 49
    → move_bps (pos p) (pos r) ≡ pos (((p - r) + (r - p)) * 10000 / r)
unfolding move_bps deviation_bps
move_bps_lem p r h k = deviation_lem p r h k

over_iff : (x r : ℕ) → 0 < r → (x / r ≤ 500) ↔ (x < 501 * r)
over_iff x r h = (λ k. grind arith, λ k. grind arith)

-- The code's test of the move in exact arithmetic.
far_iff :
    (p r : ℕ)
    → p < 2 ^ 49
    → r < 2 ^ 49
    → 0 < r
    → (ltb_ℤ halt_threshold_bps (move_bps (pos p) (pos r)) ≡ true)
      ↔ (501 * r ≤ ((p - r) + (r - p)) * 10000)
far_iff p r h k z = rw (move_bps_lem p r h k) (over (((p - r) + (r - p)) * 10000))
  where
    over : (x : ℕ) → (ltb_ℤ halt_threshold_bps (pos (x / r)) ≡ true) ↔ (501 * r ≤ x)
    over x = (λ e. ground (arith, e, over_iff x r z), λ e. ground (arith, e, over_iff x r z))

module _ (symbol : Text) (price : ℕ) (now : ℕ) (c : CircuitBreaker) (fits : price < 2 ^ 49)
    (ordinary : (ref : ℤ)
      → lookup symbol c.reference_price ≡ some ref
      → (r : ℕ) × (ref ≡ pos r) × (r < 2 ^ 49)) where
  blocks_if_Moved :
      c.held ≡ false → Moved symbol price now c → record_trade symbol (pos price) now c ≡ none
  unfolding record_trade halt_symbol
  blocks_if_Moved free m =
      let (r, same, small) = ordinary (pos m.ref) m.referenced in
      let below : m.ref < 2 ^ 49 = ground (arith, same, small) in
      ground (
        arith,
        m.referenced,
        m.started,
        m.inside,
        (far_iff price m.ref fits below m.nonzero).1 m.far,
        m.nonzero,
      )

  Moved-if_blocks :
      c.held ≡ false → record_trade symbol (pos price) now c ≡ none → Moved symbol price now c
  unfolding record_trade halt_symbol
  Moved-if_blocks free h = elim (Option-cases (lookup symbol c.reference_price)) [
    | inl e ↦ ground (arith, e)
    | inr (ref, e) ↦ elim (Option-cases (lookup symbol c.window_start)) [
      | inl d ↦ ground (arith, e, d)
      | inr (start, d) ↦
          let (r, same, small) = ordinary ref e in
          let here : lookup symbol c.reference_price ≡ some (pos r) = rw (← same) e in
          let nonzero : 0 < r = ground (arith, here, d) in
          record {
            ref = r;
            start = start;
            referenced = here;
            started = d;
            inside = ground (arith, here, d);
            nonzero = nonzero;
            far = (far_iff price r fits small nonzero).0 (ground (arith, here, d));
          }
    ]
  ]

  -- On a breaker whose mutex is free, for a price of at least 0 and below 2^49, where the reference
  -- price of the symbol, if it has one, is such a price, too: `recordTrade` never returns exactly
  -- when the reference price is positive, the price has moved from it by 501 basis points or more,
  -- and less than 61 seconds have passed since the start of the window: `haltSymbol` locks the
  -- mutex again.
  pub record_trade-eq-none_iff :
      c.held ≡ false → (record_trade symbol (pos price) now c ≡ none) ↔ Moved symbol price now c
  record_trade-eq-none_iff free = (Moved-if_blocks free, blocks_if_Moved free)

-- On a breaker whose mutex is free, `haltSymbol` and `resumeSymbol` return; then the symbol reads
-- as halted or as running, and every other symbol as before.
pub is_halted_lem :
    (symbol : Text) (c : CircuitBreaker)
    → c.held ≡ false
    → ((c' : CircuitBreaker) × (halt_symbol symbol c ≡ some c')
        × ((other : Text)
            → is_halted other c' ≡ (if text_eq symbol other then some true else is_halted other c)))
      × ((c' : CircuitBreaker) × (resume_symbol symbol c ≡ some c')
          × ((other : Text)
              → is_halted other c'
                ≡ (if text_eq symbol other then some false else is_halted other c)))
unfolding halt_symbol resume_symbol is_halted
is_halted_lem symbol c free = (
  (
    record {
      symbol_halts = insert symbol true c.symbol_halts;
      reference_price = c.reference_price;
      window_start = c.window_start;
      held = false;
    },
    ground (arith, free),
    λ other. ground (arith, free, lookup-insert symbol other true c.symbol_halts),
  ),
  (
    record {
      symbol_halts = clear_flag symbol c.symbol_halts;
      reference_price = erase symbol c.reference_price;
      window_start = erase symbol c.window_start;
      held = false;
    },
    ground (arith, free),
    λ other.
        ground
          (arith, free, lookup-insert symbol other false c.symbol_halts, text_eq_iff symbol other),
  ),
)
