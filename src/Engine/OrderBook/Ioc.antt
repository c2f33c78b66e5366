-- ===== src/Engine/OrderBook/Ioc.antt =====
-- IOC orders: the limit match, and the removal of what it put in the book.
use titan_x.Prelude.{
  ◌^◌, ◌<◌, ◌≡◌, refl, sym, ap, ◌∙◌, inl, inr, false, List, ◌∷◌, ◌++◌, append_assoc, some, none,
  arith, Bool-cases,
}
use titan_x.Prelude.Int.{pos, pos_part, eqb_ℤ, ltb_ℤ}
use titan_x.Prelude.Text.{text_eq_refl}
use titan_x.Prelude.Map.{lookup, lookup-insert}
use titan_x.Model.World.{World}
use titan_x.Model.OrderSide.{buy, sell}
use titan_x.Model.Order
use titan_x.Model.Order.{Order, is_buy}
use titan_x.Engine.Levels.{flat, without}
use titan_x.Engine.Sweep.Index.{find}
use titan_x.Engine.OrderBook.{
  OrderBook, sweep, insert_into_book, remove_from_book, crosses, match_limit, match_ioc,
}
use titan_x.Engine.OrderBook.Insertion.{flat-push_back}
use titan_x.Engine.OrderBook.Removal.{without-append, without-absent}
use titan_x.Engine.OrderBook.Validity.{IsValid, orders, sweep-IsValid}
use titan_x.Engine.OrderBook.Matching.{match_limit-IsValid, sweep-fresh}
use titan_x.Engine.OrderBook.Cancel.{remove_from_book-Removed}

without_middle :
    (o : Order) (xs ys : List Order)
    → find o.order_id (xs ++ ys) ≡ none
    → without o.order_id (xs ++ o ∷ ys) ≡ xs ++ ys
unfolding without
without_middle o xs ys h =
    rw (without-append o.order_id xs (o ∷ ys), text_eq_refl o.order_id)
      (sym (without-append o.order_id xs ys) ∙ without-absent o.order_id (xs ++ ys) h)

-- Removing an order that was just put in.
without-insert :
    (o : Order) (b : OrderBook)
    → find o.order_id (orders b) ≡ none
    → without o.order_id (orders (insert_into_book o b)) ≡ orders b
unfolding insert_into_book
without-insert o b h = elim (Bool-cases (is_buy o)) [
  | inl e ↦
      let (xs, ys, old, new) = flat-push_back buy o.price o b.bids in
      let join : orders b ≡ xs ++ (ys ++ flat b.asks) =
        ap (λ zs. zs ++ flat b.asks) old ∙ append_assoc xs ys (flat b.asks) in
      rw (e, insert_into_book)
        (rw (new, append_assoc)
          (without_middle o xs (ys ++ flat b.asks) (ap (find o.order_id) (sym join) ∙ h)
            ∙ sym join))
  | inr e ↦
      let (xs, ys, old, new) = flat-push_back sell o.price o b.asks in
      let join : orders b ≡ (flat b.bids ++ xs) ++ ys =
        ap (◌++◌ (flat b.bids)) old ∙ sym (append_assoc (flat b.bids) xs ys) in
      rw (e, insert_into_book)
        (rw (new, ← append_assoc)
          (without_middle o (flat b.bids ++ xs) ys (ap (find o.order_id) (sym join) ∙ h)
            ∙ sym join))
]

remove_unknown :
    (b : OrderBook) (a : Order)
    → lookup a.order_id b.order_index ≡ none
    → (remove_from_book a.order_id b).0 ≡ b
unfolding remove_from_book
remove_unknown b a h = rw (h, remove_from_book)

lookup-insert_into_book :
    (o : Order) (b : OrderBook) → lookup o.order_id (insert_into_book o b).order_index ≡ some o
unfolding insert_into_book
lookup-insert_into_book o b =
    ground (arith, lookup-insert o.order_id o.order_id o b.order_index, text_eq_refl o.order_id)

module _ (a : Order) (b : OrderBook) (w : World) (v : IsValid b)
    (small : pos_part a.remaining_quantity < 2 ^ 63)
    (fresh : lookup a.order_id b.order_index ≡ none) (priced : eqb_ℤ a.price (pos 0) ≡ false) where
  -- In a valid book, an IOC order with a new id, a price other than 0 and a remaining quantity
  -- below 2^63 never rests: its trades are those of the limit order, and the book is valid and
  -- holds what the matching loop left.
  pub match_ioc_lem :
      let (trades, b', _) = match_ioc a b w in
      (trades ≡ (match_limit a b w).0)
      × IsValid b'
      × (orders b' ≡ orders (sweep (crosses a) a b w).1)
      × (lookup a.order_id b'.order_index ≡ none)
  unfolding match_ioc match_limit Order.with_remaining_quantity
  match_ioc_lem =
      let (s, b') = sweep (crosses a) a b w in
      let v' = sweep-IsValid (crosses a) a b w v small in
      let new : find a.order_id (orders b') ≡ none =
        sweep-fresh a b w v small (crosses a) a.order_id
          (sym (v.agrees.finds a.order_id) ∙ fresh) in
      let new' : lookup a.order_id b'.order_index ≡ none = v'.agrees.finds a.order_id ∙ new in
      let limit_valid = match_limit-IsValid a b w v small fresh in
      elim (Bool-cases (ltb_ℤ (pos 0) s.remaining)) [
        | inr e ↦ rw (e, match_limit) (rw (remove_unknown b' a new') (refl, v', refl, new'))
        | inl e ↦
            let r = (Order.with_remaining_quantity a s.remaining s.world).0 in
            let put = insert_into_book r b' in
            let put_valid : IsValid put = rw (e, match_limit) at limit_valid in
            let known = lookup-insert_into_book r b' in
            let (_, removed) = remove_from_book-Removed a.order_id r put put_valid known priced in
            let back = removed.rest ∙ without-insert r b' new in
            rw (e, match_limit)
              (
                refl,
                removed.valid,
                back,
                removed.valid.agrees.finds a.order_id ∙ ap (find a.order_id) back ∙ new,
              )
      ]
