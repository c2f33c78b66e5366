-- ===== src/Risk/CircuitBreaker.antt =====
-- class CircuitBreaker. Its mutex is part of the state: std::mutex is not recursive, so a call that
-- locks it while it is held never returns, which is `none`. Times are steady_clock readings in
-- nanoseconds and arguments of the calls; the logging is left out.
pub mod Blocking
mod Examples
use titan_x.Prelude.{
  ℕ, ◌-◌, ◌/◌, ◌^◌, Bool, true, false, [], Option, none, some, ltb, if◌then◌else◌, ◌>>=◌,
}
use titan_x.Prelude.Int.{ℤ, pos, ltb_ℤ, eqb_ℤ, ◌-ℤ◌, ◌*ℤ◌, ◌/ℤ◌, abs}
use titan_x.Prelude.Text.{Text}
use titan_x.Prelude.Map.{Map, lookup, insert, erase}

pub record CircuitBreaker : Type 0 where
  pub symbol_halts : Map Bool
  pub reference_price : Map ℤ
  pub window_start : Map ℕ
  pub held : Bool

abbrev pub empty : CircuitBreaker
empty = record { symbol_halts = []; reference_price = []; window_start = []; held = false }

abbrev pub halt_threshold_bps : ℤ
halt_threshold_bps = pos 500

abbrev pub window_seconds : ℕ
window_seconds = 60

-- `std::lock_guard<std::mutex> guard(mutex_)`, and the end of its scope.
abbrev pub lock : CircuitBreaker → Option CircuitBreaker
lock c = if c.held then none else some (record c { held = true })

abbrev pub unlock : CircuitBreaker → CircuitBreaker
unlock c = record c { held = false }

-- A missing flag is created before it is set.
unfoldable pub halt_symbol : Text → CircuitBreaker → Option CircuitBreaker
halt_symbol symbol c = do
  c1 ← lock c
  some (unlock (record c1 { symbol_halts = insert symbol true c1.symbol_halts }))

abbrev pub clear_flag : Text → Map Bool → Map Bool
clear_flag symbol halts = elim (lookup symbol halts) [
  | none ↦ halts
  | some _ ↦ insert symbol false halts
]

unfoldable pub resume_symbol : Text → CircuitBreaker → Option CircuitBreaker
resume_symbol symbol c = do
  c1 ← lock c
  some (
      unlock (record c1 {
        symbol_halts = clear_flag symbol c1.symbol_halts;
        reference_price = erase symbol c1.reference_price;
        window_start = erase symbol c1.window_start;
      }))

abbrev flag : Text → Map Bool → Bool
flag symbol halts = elim (lookup symbol halts) [ none ↦ false | some halted ↦ halted ]

unfoldable pub is_halted : Text → CircuitBreaker → Option Bool
is_halted symbol c = do c1 ← lock c; some (flag symbol c1.symbol_halts)

abbrev start_window : Text → ℤ → ℕ → CircuitBreaker → CircuitBreaker
start_window symbol price now c = record c {
  reference_price = insert symbol price c.reference_price;
  window_start = insert symbol now c.window_start;
}

-- The move from the reference price in basis points.
unfoldable pub move_bps : ℤ → ℤ → ℤ
move_bps price ref = (abs (price -ℤ ref) *ℤ pos 10000) /ℤ ref

-- The rest of `recordTrade` once the symbol has a window, with the mutex held.
unfoldable pub record_in_window : Text → ℤ → ℕ → ℤ → ℕ → CircuitBreaker → Option CircuitBreaker
record_in_window symbol price now ref start c =
    if ltb window_seconds ((now - start) / 10 ^ 9)
    then some (start_window symbol price now c)
    else if eqb_ℤ ref (pos 0)
    then some c
    else if ltb_ℤ halt_threshold_bps (move_bps price ref)
    then halt_symbol symbol c
    else some c

unfoldable pub record_locked : Text → ℤ → ℕ → CircuitBreaker → Option CircuitBreaker
unfolding record_in_window
record_locked symbol price now c = elim (lookup symbol c.reference_price) [
  | none ↦ some (start_window symbol price now c)
  | some ref ↦ elim (lookup symbol c.window_start) [
    | none ↦ some (start_window symbol price now c)
    | some start ↦ record_in_window symbol price now ref start c
  ]
]

unfoldable pub record_trade : Text → ℤ → ℕ → CircuitBreaker → Option CircuitBreaker
unfolding record_locked
record_trade symbol price now c = do
  c1 ← lock c
  c2 ← record_locked symbol price now c1
  some (unlock c2)

unfoldable pub halt_status : CircuitBreaker → Option (Map Bool)
halt_status c = do c1 ← lock c; some c1.symbol_halts
