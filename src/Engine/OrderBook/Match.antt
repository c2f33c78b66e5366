-- ===== src/Engine/OrderBook/Match.antt =====
-- `OrderBook::match` for every type of order.
use titan_x.Prelude.{◌^◌, ◌<◌, ◌≡◌, refl, inl, inr, false, none, Bool-cases}
use titan_x.Prelude.Int.{pos, pos_part, eqb_ℤ, ltb_ℤ}
use titan_x.Prelude.Map.{lookup}
use titan_x.Model.World.{World}
use titan_x.Model.OrderType.{OrderType, market, limit, ioc, fok, stop_limit}
use titan_x.Model.Order.{Order}
use titan_x.Engine.OrderBook.{
  OrderBook, match, match_as, match_fok, available_quantity_at_or_better,
}
use titan_x.Engine.OrderBook.Validity.{IsValid}
use titan_x.Engine.OrderBook.Matching.{match_market-IsValid, match_limit-IsValid}
use titan_x.Engine.OrderBook.Ioc.{match_ioc_lem}

module _ (a : Order) (b : OrderBook) (w : World) (v : IsValid b)
    (small : pos_part a.remaining_quantity < 2 ^ 63)
    (fresh : lookup a.order_id b.order_index ≡ none) where
  match_fok-IsValid : IsValid (match_fok a b w).1
  unfolding match_fok
  match_fok-IsValid = elim (Bool-cases (ltb_ℤ (available_quantity_at_or_better a b) a.quantity)) [
    | inl e ↦ rw (e, match_fok) v
    | inr e ↦ rw (e, match_fok) (match_market-IsValid a b w v small)
  ]

  match_as-IsValid :
      (t : OrderType) → (t ≡ ioc → eqb_ℤ a.price (pos 0) ≡ false) → IsValid (match_as t a b w).1
  unfolding match_as
  match_as-IsValid market h = match_market-IsValid a b w v small
  match_as-IsValid limit h = match_limit-IsValid a b w v small fresh
  match_as-IsValid ioc h = (match_ioc_lem a b w v small fresh (h refl)).1
  match_as-IsValid fok h = match_fok-IsValid
  match_as-IsValid stop_limit h = v

  -- Matching an order of any type in a valid book leaves a valid book, if the order's id is not in
  -- the index, its remaining quantity is below 2^63 and, if it is IOC, its price is not 0.
  pub match-IsValid : (a.type ≡ ioc → eqb_ℤ a.price (pos 0) ≡ false) → IsValid (match a b w).1
  unfolding match
  match-IsValid h = match_as-IsValid a.type h
