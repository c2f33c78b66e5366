-- ===== src/Wiring/Balance.antt =====
-- What one account buys another sells: the moves that the position cache is told.
use titan_x.Prelude.{
  ◌≡◌, refl, ap, ◌∙◌, List, [], ◌∷◌, ◌++◌, if◌then◌else◌, arith, Bool-cases, inl, inr,
}
use titan_x.Prelude.Int.{ℤ, pos, negsuc, wrap, ◌+ℤ◌, ◌-ℤ◌, IsInt64}
use titan_x.Prelude.Text.{Text, text_eq}
use titan_x.Model.Trade.{Trade}
use titan_x.Engine.MatchingEngine.{Exchange}
use titan_x.Wiring.{Calls, signed}
use titan_x.Wiring.Tells.{moves}
use titan_x.Wiring.Journal.{submit-Tells}
use titan_x.Wiring.Reachability.{
  Step, Reach, submits, cancels, halts, resumes, breaks, reads, here, next,
}

-- The moves in a symbol, of all accounts, added up in 64 bits.
unfoldable pub net : Text → ℤ → List (Text × Text × ℤ) → ℤ
net s total [] = total
net s total (m ∷ ms) = net s (if text_eq s m.1 then total +ℤ m.2 else total) ms

wrap-IsInt64 : (z : ℤ) → IsInt64 (wrap z)
unfolding wrap
wrap-IsInt64 (pos n) = ground arith
wrap-IsInt64 (negsuc n) = ground arith

add-back : (a d : ℤ) → IsInt64 a → a +ℤ d +ℤ (pos 0 -ℤ d) ≡ a
unfolding ◌+ℤ◌ ◌-ℤ◌ wrap
add-back (pos a) (pos d) h = ground arith
add-back (pos a) (negsuc d) h = ground arith
add-back (negsuc a) (pos d) h = ground arith
add-back (negsuc a) (negsuc d) h = ground arith

net-append :
    (s : Text) (total : ℤ) (xs ys : List (Text × Text × ℤ))
    → net s total (xs ++ ys) ≡ net s (net s total xs) ys
unfolding net
net-append s total [] ys = refl
net-append s total (x ∷ xs) ys = net-append s (if text_eq s x.1 then total +ℤ x.2 else total) xs ys

two_moves :
    (s : Text) (total : ℤ) (t : Trade) → IsInt64 total → net s total (moves (t ∷ [])) ≡ total
unfolding net moves
two_moves s total t h = elim (Bool-cases (text_eq s t.symbol)) [
  | inl y ↦ rw y (add-back total (signed t.aggressor_side t.quantity) h)
  | inr n ↦ rw n refl
]

net-moves :
    (s : Text) (total : ℤ) (ts : List Trade) → IsInt64 total → net s total (moves ts) ≡ total
unfolding net moves
net-moves s total [] h = refl
net-moves s total (t ∷ ts) h =
    ap (λ a. net s a (moves ts)) (two_moves s total t h) ∙ net-moves s total ts h

Step-net :
    (s : Text) (x y : Exchange Calls)
    → Step x y
    → net s (pos 0) x.outside.position_updates ≡ pos 0
    → net s (pos 0) y.outside.position_updates ≡ pos 0
Step-net s x y (submits o ts a h) e =
    ap (net s (pos 0)) (submit-Tells o x ts y h).updates
    ∙ net-append s (pos 0) x.outside.position_updates (moves ts)
    ∙ ap (λ t. net s t (moves ts)) e
    ∙ net-moves s (pos 0) ts (omega arith, omega arith)
Step-net s x y (cancels symbol id k) e = rw k e
Step-net s x y (halts k) e = rw k e
Step-net s x y (resumes k) e = rw k e
Step-net s x y (breaks c k) e = rw k e
Step-net s x y (reads w k) e = rw k e

-- Before anything is traded and after every sequence of submissions that return (of orders with a
-- remaining quantity below 2^63 and, if LIMIT or IOC, a price other than 0), cancellations, halts,
-- resumptions, changes of the breaker and readings of the clocks, the moves that the position cache
-- was told add up to zero in each symbol.
pub Reach-net :
    (s : Text) (x y : Exchange Calls)
    → x.outside.position_updates ≡ []
    → Reach x y
    → net s (pos 0) y.outside.position_updates ≡ pos 0
unfolding net
Reach-net s x y e here = rw e refl
Reach-net s x y e (next r st) = Step-net s _ y st (Reach-net s x _ e r)
