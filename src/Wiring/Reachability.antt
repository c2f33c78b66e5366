-- ===== src/Wiring/Reachability.antt =====
-- The exchange as `main` sets it up, over any sequence of its operations: each runs as a whole,
-- under the lock of its symbol.
use titan_x.Prelude.{◌≡◌, refl, List, some}
use titan_x.Prelude.Text.{Text}
use titan_x.Prelude.Map.{lookup}
use titan_x.Model.World.{World}
use titan_x.Model.Order.{Order}
use titan_x.Model.Trade.{Trade}
use titan_x.Risk.CircuitBreaker.{CircuitBreaker}
use titan_x.Engine.MatchingEngine.{init, Exchange, submit, cancel, halt, resume}
use titan_x.Engine.MatchingEngine.Soundness.{IsSound, IsAcceptable}
use titan_x.Engine.MatchingEngine.Cancellation.{cancel-IsSound}
use titan_x.Wiring.{Calls, consumers}
use titan_x.Wiring.Fills.{submit-consumers}

pub data Step (x x' : Exchange Calls) : Type 0 where
  submits :
      (o : Order) (ts : List Trade)
      → IsAcceptable o
      → submit consumers o x ≡ some (ts, x')
      → Step x x'
  cancels :
      (symbol id : Text) → x' ≡ record x { engine = (cancel symbol id x.engine).1 } → Step x x'
  halts : x' ≡ record x { engine = halt x.engine } → Step x x'
  resumes : x' ≡ record x { engine = resume x.engine } → Step x x'
  breaks :
      (c : CircuitBreaker)
      → x' ≡ record x { risk = record x.risk { circuit_breaker = c } }
      → Step x x'
  -- A reading of a clock, or a draw of a random number, outside of the engine.
  reads : (w : World) → x' ≡ record x { world = w } → Step x x'

pub data Reach (x : Exchange Calls) : Exchange Calls → Type 0 where
  here : Reach x x
  next : {y z : Exchange Calls} → Reach x y → Step y z → Reach x z

Step-IsSound :
    {x x' : Exchange Calls} → Step x x' → IsSound x.engine x.risk → IsSound x'.engine x'.risk
unfolding halt resume
Step-IsSound {x} {x'} (submits o ts a h) s = submit-consumers o x ts x' a s h
Step-IsSound {x} (cancels symbol id e) s = rw e (cancel-IsSound symbol id x.engine x.risk s)
Step-IsSound (halts e) s = rw e (record { valid = s.valid; known = s.known; no_stops = s.no_stops })
Step-IsSound (resumes e) s =
    rw e (record { valid = s.valid; known = s.known; no_stops = s.no_stops })
Step-IsSound (breaks c e) s =
    rw e (record { valid = s.valid; known = s.known; no_stops = s.no_stops })
Step-IsSound (reads w e) s = rw e s

-- From an engine without books, every sequence of submissions that return (of orders with a
-- remaining quantity below 2^63 and, if LIMIT or IOC, a price other than 0), cancellations, halts,
-- resumptions, changes of the breaker and readings of the clocks leads to a sound engine: every
-- book is valid, holds only ids that the risk engine has seen, accounts that it has on record for
-- their side and no price 0, and no stop order is ever pending.
pub Reach-IsSound : (x y : Exchange Calls) → x.engine ≡ init → Reach x y → IsSound y.engine y.risk
unfolding lookup
Reach-IsSound x y e here =
    rw e (record { valid = λ t b h. cc; known = λ t b h. cc; no_stops = refl })
Reach-IsSound x y e (next r s) = Step-IsSound s (Reach-IsSound x _ e r)
