-- ===== src/Wiring/SelfTrade.antt =====
-- Every trade that was ever published, against the self-trade check.
use titan_x.Prelude.{◌≡◌, ◌≢◌, sym, subst, List, [], ◌∷◌, map, All, All-append}
use titan_x.Prelude.Text.{Text}
use titan_x.Model.Trade.{Trade}
use titan_x.Engine.MatchingEngine.{Exchange, init}
use titan_x.Engine.MatchingEngine.SelfTrade.{AreApart, submit-AreApart}
use titan_x.Wiring.{Calls, consumers}
use titan_x.Wiring.Journal.{submit-Tells}
use titan_x.Wiring.Reachability.{
  Step, Reach, Reach-IsSound, submits, cancels, halts, resumes, breaks, reads, here, next,
}

-- A published trade has two accounts.
abbrev pub HasTwo : Text × Trade → Type 0
HasTwo m = m.1.aggressor_account_id ≢ m.1.passive_account_id

pub published-HasTwo : (ts : List Trade) → AreApart ts → All HasTwo (map (λ t. (t.symbol, t)) ts)
published-HasTwo [] h = tt
published-HasTwo (t ∷ ts) h = (h.0, published-HasTwo ts h.1)

Step-HasTwo :
    (x y z : Exchange Calls)
    → x.engine ≡ init
    → Reach x y
    → Step y z
    → All HasTwo y.outside.published
    → All HasTwo z.outside.published
Step-HasTwo x y z e r (submits o ts a h) k =
    subst (λ ms. All HasTwo ms) (sym (submit-Tells o y ts z h).messages)
      (All-append HasTwo y.outside.published _ k
        (published-HasTwo ts (submit-AreApart consumers o y ts z (Reach-IsSound x y e r) h)))
Step-HasTwo x y z e r (cancels symbol id h) k = rw h k
Step-HasTwo x y z e r (halts h) k = rw h k
Step-HasTwo x y z e r (resumes h) k = rw h k
Step-HasTwo x y z e r (breaks c h) k = rw h k
Step-HasTwo x y z e r (reads w h) k = rw h k

-- From an engine without books, when nothing was published, after every sequence of submissions
-- that return (of orders with a remaining quantity below 2^63 and, if LIMIT or IOC, a price other
-- than 0), cancellations, halts, resumptions, changes of the breaker and readings of the clocks, no
-- published trade has the same account on both sides.
pub Reach-HasTwo :
    (x y : Exchange Calls)
    → x.engine ≡ init
    → x.outside.published ≡ []
    → Reach x y
    → All HasTwo y.outside.published
Reach-HasTwo x y e f here = rw f tt
Reach-HasTwo x z e f (next {y} r st) = Step-HasTwo x y z e r st (Reach-HasTwo x y e f r)
