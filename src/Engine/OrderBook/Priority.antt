-- ===== src/Engine/OrderBook/Priority.antt =====
-- Market and limit orders against the execution of Engine.Sweep.Execution: price-time priority.
use titan_x.Prelude.{
  ℕ, ◌^◌, ◌<◌, ◌≡◌, refl, sym, subst, ap, List, if◌then◌else◌, ◌∙◌, inl, inr, Bool, true, false,
  map, some, none, arith, Bool-cases,
}
use titan_x.Prelude.Int.{ℤ, pos, negsuc, pos_part, ltb_ℤ, leb_ℤ}
use titan_x.Prelude.Text.{text_eq_refl}
use titan_x.Prelude.Map.{lookup, lookup-insert}
use titan_x.Model.World.{World}
use titan_x.Model.OrderSide.{OrderSide, buy, sell}
use titan_x.Model.Order
use titan_x.Model.Order.{Order, is_buy}
use titan_x.Engine.Levels.{Level, flat, push_back}
use titan_x.Engine.Sweep.Execution.{entries, filled, execute, remainder, unfilled}
use titan_x.Engine.Sweep.Refinement.{match_levels-refines}
use titan_x.Engine.Sweep.Sides.{IsSide, IsSide-AreFillable}
use titan_x.Engine.OrderBook.{
  OrderBook, start, sweep, opposite, insert_into_book, crosses, match_limit, match_market,
}
use titan_x.Engine.OrderBook.Insertion.{IsPlaced, push_back-IsPlaced}
use titan_x.Engine.OrderBook.Validity.{IsValid, sweep-IsValid}
use titan_x.Engine.OrderBook.Matching.{sweep-fresh}

-- The side that an order rests on.
abbrev pub own : Order → OrderBook → List Level
own o b = if is_buy o then b.bids else b.asks

-- The prices at which an order with a limit trades.
abbrev pub accepts_at : OrderSide → ℤ → ℤ → Bool
accepts_at buy limit p = leb_ℤ p limit
accepts_at sell limit p = leb_ℤ limit p

crosses-accepts_at : (a : Order) → crosses a ≡ accepts_at a.side a.price
crosses-accepts_at a = λ i. λ p. at_price a.side refl p i
  where
    at_price : (s : OrderSide) → a.side ≡ s → (p : ℤ) → crosses a p ≡ accepts_at a.side a.price p
    at_price buy h p = rw h refl
    at_price sell h p = rw h refl

own-insert_into_book :
    (a r : Order) (c : OrderBook)
    → r.side ≡ a.side
    → own a (insert_into_book r c) ≡ push_back a.side r.price r (own a c)
unfolding insert_into_book
own-insert_into_book a r c same = by_side a.side refl
  where
    by_side :
        (s : OrderSide)
        → a.side ≡ s
        → own a (insert_into_book r c) ≡ push_back a.side r.price r (own a c)
    by_side buy h = rw (same, h) refl
    by_side sell h = rw (same, h) refl

module _ (a : Order) (b : OrderBook) (w : World) (v : IsValid b)
    (small : pos_part a.remaining_quantity < 2 ^ 63) where
  -- The fills, what is left of the side that is matched, and what is left of the order.
  pub sweep-refines :
      (cross : ℤ → Bool)
      → let (s, b') = sweep cross a b w in
        let n = pos_part a.remaining_quantity in
        let es = entries (opposite a b) in
        (map filled s.trades ≡ execute cross n es)
        × (entries (opposite a b') ≡ remainder cross n es)
        × (pos_part s.remaining ≡ unfilled cross n es)
  unfolding sweep
  sweep-refines cross = elim (Bool-cases (is_buy a)) [
    | inl e ↦
        rw (e, sweep)
          (match_levels-refines cross a b.asks (start a b w) (IsSide-AreFillable sell b.asks v.asks)
            v.full_asks small)
    | inr e ↦
        rw (e, sweep)
          (match_levels-refines cross a b.bids (start a b w) (IsSide-AreFillable buy b.bids v.bids)
            v.full_bids small)
  ]

  sweep-own : (cross : ℤ → Bool) → own a (sweep cross a b w).1 ≡ own a b
  unfolding sweep
  sweep-own cross = elim (Bool-cases (is_buy a)) [
    | inl e ↦ rw (e, sweep) refl
    | inr e ↦ rw (e, sweep) refl
  ]

  own-IsSide : IsSide a.side (own a b)
  own-IsSide = by_side a.side refl
    where
      by_side : (s : OrderSide) → a.side ≡ s → IsSide a.side (own a b)
      by_side buy h = rw h v.bids
      by_side sell h = rw h v.asks

  -- In a valid book, a market order with a remaining quantity below 2^63 takes the best entries of
  -- the other side, in their order, at any price, and leaves the rest of that side.
  pub match_market-refines :
      let (trades, b', _) = match_market a b w in
      let n = pos_part a.remaining_quantity in
      let es = entries (opposite a b) in
      (map filled trades ≡ execute (λ _. true) n es)
      × (entries (opposite a b') ≡ remainder (λ _. true) n es)
  unfolding match_market
  match_market-refines = let r = sweep-refines (λ _. true) in (r.0, r.1)

  -- The order that rests after a limit order, if any, and its place among the orders of its side.
  abbrev Rests : OrderBook → ℕ → Type 0
  Rests b' k =
      (k ≡ 0 → (lookup a.order_id b'.order_index ≡ none) × (flat (own a b') ≡ flat (own a b)))
      × (0 < k
          → (o : Order) × (lookup a.order_id b'.order_index ≡ some o)
            × (o.order_id ≡ a.order_id)
            × (o.side ≡ a.side)
            × (o.price ≡ a.price)
            × (pos_part o.remaining_quantity ≡ k)
            × IsPlaced a.side o (flat (own a b)) (flat (own a b')))

  pub match_limit_lem :
      lookup a.order_id b.order_index ≡ none
      → let (trades, b', _) = match_limit a b w in
        let n = pos_part a.remaining_quantity in
        let es = entries (opposite a b) in
        (map filled trades ≡ execute (crosses a) n es)
        × (entries (opposite a b') ≡ remainder (crosses a) n es)
        × Rests b' (unfilled (crosses a) n es)
  unfolding match_limit insert_into_book Order.with_remaining_quantity
  match_limit_lem fresh =
      let (s, b') = sweep (crosses a) a b w in
      let (fills, left, rest) = sweep-refines (crosses a) in
      let v' = sweep-IsValid (crosses a) a b w v small in
      let kept : own a b' ≡ own a b = sweep-own (crosses a) in
      let new : lookup a.order_id b'.order_index ≡ none =
        v'.agrees.finds a.order_id
        ∙ sweep-fresh a b w v small (crosses a) a.order_id
            (sym (v.agrees.finds a.order_id) ∙ fresh) in
      elim (Bool-cases (ltb_ℤ (pos 0) s.remaining)) [
        | inr e ↦
            rw (e, match_limit)
              (
                fills,
                left,
                (
                  λ _. (new, ap flat kept),
                  λ h. absurd (not_positive s.remaining e (omega (arith, h, rest))),
                ),
              )
        | inl e ↦
            let r = (Order.with_remaining_quantity a s.remaining s.world).0 in
            rw (e, match_limit)
              (
                fills,
                same_side b' r refl ∙ left,
                (
                  λ z. absurd (is_positive s.remaining e (omega (arith, z, rest))),
                  λ _. (
                    r,
                    known b' r,
                    refl,
                    refl,
                    refl,
                    rest,
                    subst (λ ls. IsPlaced a.side r (flat ls) (flat (own a (insert_into_book r b'))))
                        kept (placed b' r refl (subst (IsSide a.side) (sym kept) own-IsSide)),
                  ),
                ),
              )
      ]
    where
      not_positive : (x : ℤ) → ltb_ℤ (pos 0) x ≡ false → 0 < pos_part x → ⊥
      not_positive (pos n) e h = ground arith
      not_positive (negsuc n) e h = omega arith

      is_positive : (x : ℤ) → ltb_ℤ (pos 0) x ≡ true → pos_part x ≡ 0 → ⊥
      is_positive (pos n) e h = ground arith
      is_positive (negsuc n) e h = ground arith

      known :
          (c : OrderBook) (r : Order)
          → lookup r.order_id (insert_into_book r c).order_index ≡ some r
      known c r =
          ground
            (arith, lookup-insert r.order_id r.order_id r c.order_index, text_eq_refl r.order_id)

      same_side :
          (c : OrderBook) (r : Order)
          → is_buy r ≡ is_buy a
          → entries (opposite a (insert_into_book r c)) ≡ entries (opposite a c)
      same_side c r same = elim (Bool-cases (is_buy a)) [
        | inl e ↦ rw (same, e)
        | inr e ↦ rw (same, e)
      ]

      placed :
          (c : OrderBook) (r : Order)
          → r.side ≡ a.side
          → IsSide a.side (own a c)
          → IsPlaced a.side r (flat (own a c)) (flat (own a (insert_into_book r c)))
      placed c r same h =
          subst (λ ls. IsPlaced a.side r (flat (own a c)) (flat ls))
            (sym (own-insert_into_book a r c same)) (push_back-IsPlaced a.side r (own a c) h)

  -- In a valid book, a limit order with an id that is not in the index and a remaining quantity
  -- below 2^63 takes the best entries of the other side at its price or better, in their order, and
  -- leaves the rest of that side. If it could not take its whole quantity, exactly what is left
  -- rests under its id, side and price, in the index and on its side of the book: behind all orders
  -- at its price or a better one, and before those at a worse one. Otherwise its side stays as it
  -- was, and its id is not in the index.
  pub match_limit-refines :
      lookup a.order_id b.order_index ≡ none
      → let (trades, b', _) = match_limit a b w in
        let n = pos_part a.remaining_quantity in
        let es = entries (opposite a b) in
        let limit = accepts_at a.side a.price in
        (map filled trades ≡ execute limit n es)
        × (entries (opposite a b') ≡ remainder limit n es)
        × Rests b' (unfilled limit n es)
  match_limit-refines fresh =
      let (trades, b', _) = match_limit a b w in
      let n = pos_part a.remaining_quantity in
      let es = entries (opposite a b) in
      subst
        (λ cross.
          (map filled trades ≡ execute cross n es)
          × (entries (opposite a b') ≡ remainder cross n es)
          × Rests b' (unfilled cross n es))
        (crosses-accepts_at a) (match_limit_lem fresh)
