-- ===== src/Engine/OrderBook/Counterparties.antt =====
-- Whom an order trades with: the accounts of the orders on the opposite side of the book.
use titan_x.Prelude.{if◌then◌else◌, Bool, true, List, [], ◌∷◌, All, Bool-cases, inl, inr}
use titan_x.Prelude.Int.{ℤ, ltb_ℤ, pos}
use titan_x.Prelude.Text.{Text}
use titan_x.Model.World.{World}
use titan_x.Model.OrderSide.{OrderSide, buy, sell}
use titan_x.Model.OrderType.{OrderType, market, limit, ioc, fok, stop_limit}
use titan_x.Model.Order.{Order, is_buy}
use titan_x.Engine.Levels.{Level}
use titan_x.Engine.Sweep.Sides.{IsSide, IsResting}
use titan_x.Engine.Sweep.Passive.{AreOwned, AreTradesOf, match_levels-AreTradesOf}
use titan_x.Engine.OrderBook.{
  OrderBook, opposite, start, sweep, crosses, match_market, match_limit, match_ioc, match_fok,
  match_as, match, available_quantity_at_or_better,
}
use titan_x.Engine.OrderBook.Validity.{IsValid}
use titan_x.Engine.OrderBook.Contents.{HasOnly, InLevels, InQueue}

-- The side that an order matches against.
abbrev pub other_side : Order → OrderSide
other_side o = if is_buy o then sell else buy

module _ (Q : Text → Type 0) (a : Order) (b : OrderBook) (w : World)
    (h : AreOwned Q (opposite a b)) where
  sweep-AreTradesOf : (c : ℤ → Bool) → AreTradesOf Q a (sweep c a b w).0.trades
  unfolding sweep
  sweep-AreTradesOf c = match_levels-AreTradesOf Q c a (opposite a b) (start a b w) h tt

  match_limit-AreTradesOf : AreTradesOf Q a (match_limit a b w).0
  unfolding match_limit
  match_limit-AreTradesOf =
      let k = sweep-AreTradesOf (crosses a) in
      elim (Bool-cases (ltb_ℤ (pos 0) (sweep (crosses a) a b w).0.remaining)) [
        | inl e ↦ rw e k
        | inr e ↦ rw e k
      ]

  match_as-AreTradesOf : (t : OrderType) → AreTradesOf Q a (match_as t a b w).0
  unfolding match_as match_market match_ioc match_fok
  match_as-AreTradesOf market = sweep-AreTradesOf (λ _. true)
  match_as-AreTradesOf limit = match_limit-AreTradesOf
  match_as-AreTradesOf ioc = match_limit-AreTradesOf
  match_as-AreTradesOf fok =
      let k = sweep-AreTradesOf (λ _. true) in
      elim (Bool-cases (ltb_ℤ (available_quantity_at_or_better a b) a.quantity)) [
        | inl e ↦ rw e tt
        | inr e ↦ rw e k
      ]
  match_as-AreTradesOf stop_limit = tt

  pub match-AreTradesOf : AreTradesOf Q a (match a b w).0
  unfolding match
  match-AreTradesOf = match_as-AreTradesOf a.type

module _ (P : OrderSide → Text → Text → ℤ → Type 0) (Q : Text → Type 0) (side : OrderSide)
    (weaken : (id account : Text) (p : ℤ) → P side id account p → Q account) where
  queue-AreOwned :
      (p : ℤ) (q : List Order)
      → All (IsResting side p) q
      → InQueue P q
      → All (λ (o : Order). Q o.account_id) q
  queue-AreOwned p [] h k = tt
  queue-AreOwned p (o ∷ q) h k =
      (weaken o.order_id o.account_id o.price (rw h.0.1 at k.0), queue-AreOwned p q h.1 k.1)

  pub side-AreOwned : (ls : List Level) → IsSide side ls → InLevels P ls → AreOwned Q ls
  side-AreOwned [] h k = tt
  side-AreOwned (l ∷ ls) h k = (queue-AreOwned l.price l.queue h.0 k.0, side-AreOwned ls h.2 k.1)

-- What holds of the accounts on the opposite side of a valid book.
pub opposite-AreOwned :
    (P : OrderSide → Text → Text → ℤ → Type 0) (Q : Text → Type 0) (a : Order) (b : OrderBook)
    → ((id account : Text) (p : ℤ) → P (other_side a) id account p → Q account)
    → IsValid b
    → HasOnly P b
    → AreOwned Q (opposite a b)
opposite-AreOwned P Q a b weaken v h = elim (Bool-cases (is_buy a)) [
  | inl e ↦ rw e (side-AreOwned P Q sell (rw e at weaken) b.asks v.asks h.asks)
  | inr e ↦ rw e (side-AreOwned P Q buy (rw e at weaken) b.bids v.bids h.bids)
]
