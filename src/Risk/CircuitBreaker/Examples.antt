-- ===== src/Risk/CircuitBreaker/Examples.antt =====
-- A breaker with a window, and the properties at it.
use titan_x.Prelude.{◌≡◌, ◌↔◌, refl, arith, true, false, [], ◌∷◌, none, some, if◌then◌else◌}
use titan_x.Prelude.Int.{pos}
use titan_x.Prelude.Text.{Text, codes, text_eq}
use titan_x.Prelude.Map.{lookup}
use titan_x.Risk.CircuitBreaker.{
  CircuitBreaker, record_trade, halt_symbol, resume_symbol, is_halted,
}
use titan_x.Risk.CircuitBreaker.Blocking.{Moved, is_halted_lem, record_trade-eq-none_iff}

abbrev breaker : CircuitBreaker
breaker = record {
  symbol_halts = (codes "AAPL", false) ∷ (codes "TSLA", true) ∷ [];
  reference_price = (codes "AAPL", pos 1000) ∷ [];
  window_start = (codes "AAPL", 5000000000) ∷ [];
  held = false;
}

record_trade-eq-none_example :
    (record_trade (codes "AAPL") (pos 1060) 9000000000 breaker ≡ none)
    ↔ Moved (codes "AAPL") 1060 9000000000 breaker
unfolding lookup text_eq
record_trade-eq-none_example =
    record_trade-eq-none_iff (codes "AAPL") 1060 9000000000 breaker (omega arith)
      (λ ref h. (1000, ground (arith, h), omega arith)) refl

is_halted_example :
    ((c' : CircuitBreaker) × (halt_symbol (codes "AAPL") breaker ≡ some c')
      × ((other : Text)
          → is_halted other c'
            ≡ (if text_eq (codes "AAPL") other then some true else is_halted other breaker)))
    × ((c' : CircuitBreaker) × (resume_symbol (codes "AAPL") breaker ≡ some c')
        × ((other : Text)
            → is_halted other c'
              ≡ (if text_eq (codes "AAPL") other then some false else is_halted other breaker)))
is_halted_example = is_halted_lem (codes "AAPL") breaker refl
