-- ===== src/Engine/OrderBook/Contents.antt =====
-- What a book holds: no operation brings in a side, an id, an account or a price but
-- those of the order that it is given.
use titan_x.Prelude.{
  ℕ, zero, suc, ◌≡◌, refl, Bool, true, List, [], ◌∷◌, some, All, All-append, length, arith,
  Bool-cases, Option-cases, inl, inr,
}
use titan_x.Prelude.Int.{ℤ, pos, ltb_ℤ, eqb_ℤ, ◌-ℤ◌, min_ℤ}
use titan_x.Prelude.Text.{Text, text_eq_iff}
use titan_x.Prelude.Map.{Map, lookup, insert, erase, lookup-insert, lookup-erase}
use titan_x.Model.World.{World}
use titan_x.Model.OrderSide.{OrderSide}
use titan_x.Model.OrderType.{OrderType, market, limit, ioc, fok, stop_limit}
use titan_x.Model.Order
use titan_x.Model.Order.{Order, is_buy}
use titan_x.Engine.Levels.{Level, push_back, put_back, remove_at, without}
use titan_x.Engine.Sweep.{Sweep, fill, match_level, match_levels}
use titan_x.Engine.OrderBook.{
  OrderBook, sweep, insert_into_book, remove_from_book, remove_order, match_market, match_limit,
  match_ioc, available_quantity_at_or_better, match_fok, match_as, match, crosses, start,
}

module _ (P : OrderSide → Text → Text → ℤ → Type 0) where
  abbrev pub InQueue : List Order → Type 0
  InQueue q = All (λ (o : Order). P o.side o.order_id o.account_id o.price) q

  abbrev pub InLevels : List Level → Type 0
  InLevels ls = All (λ (l : Level). InQueue l.queue) ls

  abbrev pub InIndex : Map Order → Type 0
  InIndex m = (id : Text) (o : Order) → lookup id m ≡ some o → P o.side id o.account_id o.price

  -- The predicate holds for the side, the id, the account and the price of each order of the book.
  pub record HasOnly (b : OrderBook) : Type 0 where
    pub bids : InLevels b.bids
    pub asks : InLevels b.asks
    pub index : InIndex b.order_index

  index-insert :
      (k : Text) (o : Order) (m : Map Order)
      → P o.side k o.account_id o.price
      → InIndex m
      → InIndex (insert k o m)
  index-insert k o m p h id o' e = ground (arith, lookup-insert k id o m, text_eq_iff k id, h id o')

  index-erase : (k : Text) (m : Map Order) → InIndex m → InIndex (erase k m)
  index-erase k m h id o' e = ground (arith, lookup-erase k id m, h id o')

  fill-HasOnly :
      (a : Order) (p : ℤ) (o : Order) (q : List Order) (s : Sweep)
      → InQueue (o ∷ q)
      → InIndex s.index
      → InIndex (fill a p o q s).0.index × InQueue (fill a p o q s).1
  unfolding fill Order.with_remaining_quantity
  fill-HasOnly a p o q s h i =
      elim (Bool-cases
        (ltb_ℤ (pos 0) (o.remaining_quantity -ℤ min_ℤ s.remaining o.remaining_quantity))) [
          | inl e ↦ rw e (index-insert o.order_id _ s.index h.0 i, h)
          | inr e ↦ rw e (index-erase o.order_id s.index i, h.1)
        ]

  match_level-HasOnly :
      (fuel : ℕ) (a : Order) (p : ℤ) (s : Sweep) (q : List Order)
      → InQueue q
      → InIndex s.index
      → InIndex (match_level fuel a p s q).0.index × InQueue (match_level fuel a p s q).1
  unfolding match_level
  match_level-HasOnly zero a p s q h i = (i, h)
  match_level-HasOnly (suc fuel) a p s [] h i = (i, h)
  match_level-HasOnly (suc fuel) a p s (o ∷ q) h i = elim (Bool-cases (ltb_ℤ (pos 0) s.remaining)) [
    | inr e ↦ rw e (i, h)
    | inl e ↦
        let f = fill-HasOnly a p o q s h i in
        rw e (match_level-HasOnly fuel a p (fill a p o q s).0 (fill a p o q s).1 f.1 f.0)
  ]

  put_back-InLevels :
      (p : ℤ) (q : List Order) (ls : List Level)
      → InQueue q
      → InLevels ls
      → InLevels (put_back p q ls)
  unfolding put_back
  put_back-InLevels p [] ls h k = k
  put_back-InLevels p (o ∷ q) ls h k = (h, k)

  match_levels-HasOnly :
      (fuel : ℕ) (c : ℤ → Bool) (a : Order) (s : Sweep) (ls : List Level)
      → InLevels ls
      → InIndex s.index
      → InIndex (match_levels fuel c a s ls).0.index × InLevels (match_levels fuel c a s ls).1
  unfolding match_levels
  match_levels-HasOnly zero c a s ls h i = (i, h)
  match_levels-HasOnly (suc fuel) c a s [] h i = (i, h)
  match_levels-HasOnly (suc fuel) c a s (l ∷ ls) h i =
      let m = match_level-HasOnly (suc (length l.queue)) a l.price s l.queue h.0 i in
      let r = match_level (suc (length l.queue)) a l.price s l.queue in
      let next =
        match_levels-HasOnly fuel c a r.0 (put_back l.price r.1 ls)
          (put_back-InLevels l.price r.1 ls m.1 h.1) m.0 in
      elim (Bool-cases (ltb_ℤ (pos 0) s.remaining)) [
        | inr e ↦ rw e (i, h)
        | inl e ↦ elim (Bool-cases (c l.price)) [
          | inl d ↦ rw (e, d) next
          | inr d ↦ rw (e, d) (i, h)
        ]
      ]

  sweep-HasOnly :
      (c : ℤ → Bool) (a : Order) (b : OrderBook) (w : World) → HasOnly b → HasOnly (sweep c a b w).1
  unfolding sweep
  sweep-HasOnly c a b w h = elim (Bool-cases (is_buy a)) [
    | inl e ↦
        let m =
          match_levels-HasOnly (suc (length b.asks)) c a (start a b w) b.asks h.asks h.index in
        record { bids = rw e h.bids; asks = rw e m.1; index = rw e m.0 }
    | inr e ↦
        let m =
          match_levels-HasOnly (suc (length b.bids)) c a (start a b w) b.bids h.bids h.index in
        record { bids = rw e m.1; asks = rw e h.asks; index = rw e m.0 }
  ]

  push_back-InLevels :
      (d : OrderSide) (p : ℤ) (o : Order) (ls : List Level)
      → P o.side o.order_id o.account_id o.price
      → InLevels ls
      → InLevels (push_back d p o ls)
  unfolding push_back
  push_back-InLevels d p o [] h k = ((h, tt), tt)
  push_back-InLevels d p o (l ∷ ls) h k =
      let rest = push_back-InLevels d p o ls h k.1 in
      let appended =
        All-append (λ (o : Order). P o.side o.order_id o.account_id o.price) l.queue (o ∷ []) k.0
          (h, tt) in
      ground arith

  insert_into_book-HasOnly :
      (o : Order) (b : OrderBook)
      → P o.side o.order_id o.account_id o.price
      → HasOnly b
      → HasOnly (insert_into_book o b)
  unfolding insert_into_book
  insert_into_book-HasOnly o b p h =
      let i = index-insert o.order_id o b.order_index p h.index in
      elim (Bool-cases (is_buy o)) [
        | inl e ↦ record {
          bids = rw e (push_back-InLevels OrderSide.buy o.price o b.bids p h.bids);
          asks = rw e h.asks;
          index = i;
        }
        | inr e ↦ record {
          bids = rw e h.bids;
          asks = rw e (push_back-InLevels OrderSide.sell o.price o b.asks p h.asks);
          index = i;
        }
      ]

  without-InQueue : (id : Text) (q : List Order) → InQueue q → InQueue (without id q)
  unfolding without
  without-InQueue id [] h = tt
  without-InQueue id (o ∷ q) h = let rest = without-InQueue id q h.1 in ground arith

  remove_at-InLevels :
      (p : ℤ) (id : Text) (ls : List Level) → InLevels ls → InLevels (remove_at p id ls)
  unfolding remove_at
  remove_at-InLevels p id [] h = tt
  remove_at-InLevels p id (l ∷ ls) h =
      let here =
        put_back-InLevels l.price (without id l.queue) ls (without-InQueue id l.queue h.0) h.1 in
      let rest = remove_at-InLevels p id ls h.1 in
      elim (Bool-cases (eqb_ℤ p l.price)) [ inl e ↦ rw e here | inr e ↦ rw e (h.0, rest) ]

  remove_order-HasOnly :
      (o : Order) (id : Text) (b : OrderBook) → HasOnly b → HasOnly (remove_order o id b).0
  unfolding remove_order
  remove_order-HasOnly o id b h =
      let x = remove_at-InLevels o.price id b.bids h.bids in
      let y = remove_at-InLevels o.price id b.asks h.asks in
      let i = h.index in
      let u = h.bids in
      let v = h.asks in
      record { bids = ground arith; asks = ground arith; index = λ j k. ground (arith, i j k) }

  pub remove_from_book-HasOnly :
      (id : Text) (b : OrderBook) → HasOnly b → HasOnly (remove_from_book id b).0
  unfolding remove_from_book
  remove_from_book-HasOnly id b h = elim (Option-cases (lookup id b.order_index)) [
    | inl e ↦ rw (e, remove_from_book) h
    | inr (o, e) ↦
        let erased : OrderBook = record b { order_index = erase id b.order_index } in
        rw (e, remove_from_book)
          (remove_order-HasOnly o id erased
            (record { bids = h.bids; asks = h.asks; index = index-erase id b.order_index h.index }))
  ]

  match_limit-HasOnly :
      (a : Order) (b : OrderBook) (w : World)
      → P a.side a.order_id a.account_id a.price
      → HasOnly b
      → HasOnly (match_limit a b w).1
  unfolding match_limit Order.with_remaining_quantity
  match_limit-HasOnly a b w p h =
      let k = sweep-HasOnly (crosses a) a b w h in
      let s = (sweep (crosses a) a b w).0 in
      let rests =
        insert_into_book-HasOnly (Order.with_remaining_quantity a s.remaining s.world).0
          (sweep (crosses a) a b w).1 p k in
      elim (Bool-cases (ltb_ℤ (pos 0) s.remaining)) [ inl e ↦ rw e rests | inr e ↦ rw e k ]

  match_as-HasOnly :
      (t : OrderType) (a : Order) (b : OrderBook) (w : World)
      → (t ≡ limit → P a.side a.order_id a.account_id a.price)
      → (t ≡ ioc → P a.side a.order_id a.account_id a.price)
      → HasOnly b
      → HasOnly (match_as t a b w).1
  unfolding match_as match_market match_ioc match_fok
  match_as-HasOnly market a b w p r h = sweep-HasOnly (λ _. true) a b w h
  match_as-HasOnly limit a b w p r h = match_limit-HasOnly a b w (p refl) h
  match_as-HasOnly ioc a b w p r h =
      remove_from_book-HasOnly a.order_id (match_limit a b w).1
        (match_limit-HasOnly a b w (r refl) h)
  match_as-HasOnly fok a b w p r h =
      let k = sweep-HasOnly (λ _. true) a b w h in
      elim (Bool-cases (ltb_ℤ (available_quantity_at_or_better a b) a.quantity)) [
        | inl e ↦ rw e h
        | inr e ↦ rw e k
      ]
  match_as-HasOnly stop_limit a b w p r h = h

  pub match-HasOnly :
      (a : Order) (b : OrderBook) (w : World)
      → (a.type ≡ limit → P a.side a.order_id a.account_id a.price)
      → (a.type ≡ ioc → P a.side a.order_id a.account_id a.price)
      → HasOnly b
      → HasOnly (match a b w).1
  unfolding match
  match-HasOnly a b w p r h = match_as-HasOnly a.type a b w p r h

-- A weaker predicate holds, too.
pub HasOnly-weaken :
    (P Q : OrderSide → Text → Text → ℤ → Type 0) (b : OrderBook)
    → ((d : OrderSide) (id account : Text) (p : ℤ) → P d id account p → Q d id account p)
    → HasOnly P b
    → HasOnly Q b
HasOnly-weaken P Q b f h = record {
  bids = levels b.bids h.bids;
  asks = levels b.asks h.asks;
  index = λ id o e. f o.side id o.account_id o.price (h.index id o e);
}
  where
    queue : (q : List Order) → InQueue P q → InQueue Q q
    queue [] k = tt
    queue (o ∷ q) k = (f o.side o.order_id o.account_id o.price k.0, queue q k.1)

    levels : (ls : List Level) → InLevels P ls → InLevels Q ls
    levels [] k = tt
    levels (l ∷ ls) k = (queue l.queue k.0, levels ls k.1)
