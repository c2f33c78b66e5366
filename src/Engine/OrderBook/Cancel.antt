-- ===== src/Engine/OrderBook/Cancel.antt =====
-- `removeFromBook`: what it takes out, and the orders at price 0 that it does not.
use titan_x.Prelude.{
  ◌≡◌, refl, sym, subst, ◌∙◌, ◌⊎◌, inl, inr, true, false, List, [], ◌∷◌, ◌++◌, some, none,
  Option-cases, arith, All,
}
use titan_x.Prelude.Int.{ℤ, pos, eqb_ℤ, ◌<ℤ◌}
use titan_x.Prelude.Text.{Text, text_eq_refl}
use titan_x.Prelude.Map.{lookup, erase, lookup-erase}
use titan_x.Model.OrderSide.{buy, sell}
use titan_x.Model.Order.{Order, is_buy}
use titan_x.Engine.Levels.{Level, flat, remove_at, without}
use titan_x.Engine.Sweep.Index.{find, find-append, find-distinct, AreDistinct, Agrees}
use titan_x.Engine.OrderBook.{OrderBook, remove_from_book}
use titan_x.Engine.OrderBook.Removal.{
  without-append, without-absent, without-Agrees, find-price, flat-remove_at, remove_at-All,
  remove_at-IsSide, remove_at-AreFull, rest_distinct,
}
use titan_x.Engine.OrderBook.Validity.{IsValid, orders, AreBelow, any_price}

-- What a removal that succeeds leaves.
pub record Removed (id : Text) (b b' : OrderBook) : Type 0 where
  pub valid : IsValid b'
  pub rest : orders b' ≡ without id (orders b)
  pub last : b'.last_trade_price ≡ b.last_trade_price

below_remove :
    (p : ℤ) (id : Text) (bids asks : List Level)
    → AreBelow bids asks
    → AreBelow bids (remove_at p id asks)
below_remove p id [] asks h = tt
below_remove p id (l ∷ bids) asks h =
    (remove_at-All p id (λ q. l.price <ℤ q) asks h.0, below_remove p id bids asks h.1)

front_distinct : (xs ys : List Order) → AreDistinct (xs ++ ys) → AreDistinct xs
front_distinct [] ys d = tt
front_distinct (x ∷ xs) ys d =
    (ground (arith, find-append x.order_id xs ys), front_distinct xs ys d.1)

module _ (id : Text) (o : Order) (b : OrderBook) (v : IsValid b)
    (known : lookup id b.order_index ≡ some o) where
  here : find id (orders b) ≡ some o
  here = sym (v.agrees.finds id) ∙ known

  gone : Agrees (erase id b.order_index) (without id (orders b))
  gone = without-Agrees id b.order_index (orders b) v.agrees

  -- The order is a bid or an ask, as its side says.
  placed :
      ((is_buy o ≡ true) × (find id (flat b.bids) ≡ some o) × (find id (flat b.asks) ≡ none))
      ⊎ ((is_buy o ≡ false) × (find id (flat b.bids) ≡ none) × (find id (flat b.asks) ≡ some o))
  placed = elim (Option-cases (find id (flat b.bids))) [
    | inl absent ↦
        let there : find id (flat b.asks) ≡ some o =
          ground (arith, here, find-append id (flat b.bids) (flat b.asks)) in
        let side =
          (find-price sell id (λ q. Unit {0}) b.asks o v.asks (any_price b.asks) there).1 in
        inr (rw side refl, absent, there)
    | inr (x, e) ↦
        let same : find id (flat b.bids) ≡ some o =
          ground (arith, here, find-append id (flat b.bids) (flat b.asks)) in
        let side = (find-price buy id (λ q. Unit {0}) b.bids o v.bids (any_price b.bids) same).1 in
        inl (
          rw side refl,
          same,
          find-distinct id (flat b.bids) (flat b.asks) o v.agrees.distinct same,
        )
  ]

  -- Removing an order that the index of a valid book has, with a price other than 0, returns true,
  -- takes out exactly that order and leaves a valid book with the same last price.
  pub remove_from_book-Removed :
      eqb_ℤ o.price (pos 0) ≡ false
      → let (b', removed) = remove_from_book id b in (removed ≡ true) × Removed id b b'
  unfolding remove_from_book
  remove_from_book-Removed priced =
      rw (known, remove_from_book)
        (elim placed [
          | inl (side, there, absent) ↦
              let at_level =
                (find-price buy id (λ q. Unit {0}) b.bids o v.bids (any_price b.bids) there).2 in
              let flat_bids =
                flat-remove_at buy id b.bids o v.bids
                  (front_distinct (flat b.bids) (flat b.asks) v.agrees.distinct) there in
              let all : flat (remove_at o.price id b.bids) ++ flat b.asks ≡ without id (orders b) =
                rw
                  (
                    flat_bids,
                    without-append id (flat b.bids) (flat b.asks),
                    without-absent id (flat b.asks) absent,
                  )
                  refl in
              rw (priced, side, at_level)
                (
                  refl,
                  record {
                    valid = record {
                      bids = remove_at-IsSide o.price id buy b.bids v.bids;
                      asks = v.asks;
                      full_bids = remove_at-AreFull o.price id b.bids v.full_bids;
                      full_asks = v.full_asks;
                      uncrossed =
                          remove_at-All o.price id (λ q. All (λ m. q <ℤ m.price) b.asks) b.bids
                            v.uncrossed;
                      agrees = subst (Agrees (erase id b.order_index)) (sym all) gone;
                    };
                    rest = all;
                    last = refl;
                  },
                )
          | inr (side, absent, there) ↦
              let at_level =
                (find-price sell id (λ q. Unit {0}) b.asks o v.asks (any_price b.asks) there).2 in
              let flat_asks =
                flat-remove_at sell id b.asks o v.asks
                  (rest_distinct (flat b.bids) (flat b.asks) v.agrees.distinct) there in
              let all : flat b.bids ++ flat (remove_at o.price id b.asks) ≡ without id (orders b) =
                rw
                  (
                    flat_asks,
                    without-append id (flat b.bids) (flat b.asks),
                    without-absent id (flat b.bids) absent,
                  )
                  refl in
              rw (priced, side, at_level)
                (
                  refl,
                  record {
                    valid = record {
                      bids = v.bids;
                      asks = remove_at-IsSide o.price id sell b.asks v.asks;
                      full_bids = v.full_bids;
                      full_asks = remove_at-AreFull o.price id b.asks v.full_asks;
                      uncrossed = below_remove o.price id b.bids b.asks v.uncrossed;
                      agrees = subst (Agrees (erase id b.order_index)) (sym all) gone;
                    };
                    rest = all;
                    last = refl;
                  },
                )
        ])

  -- Removing an order at price 0 that the index of a valid book has returns false: the order loses
  -- its index entry and stays on its level, so that the book is no longer valid.
  pub remove_from_book_at_zero :
      eqb_ℤ o.price (pos 0) ≡ true
      → let (b', removed) = remove_from_book id b in
        (removed ≡ false)
        × (lookup id b'.order_index ≡ none)
        × (orders b' ≡ orders b)
        × (find id (orders b') ≡ some o)
        × (¬ IsValid b')
  unfolding remove_from_book
  remove_from_book_at_zero free =
      let lost : lookup id (erase id b.order_index) ≡ none =
        ground (arith, lookup-erase id id b.order_index, text_eq_refl id) in
      rw (known, remove_from_book)
        (rw free
          (refl, lost, refl, here, λ v'. some≢none (sym here ∙ sym (v'.agrees.finds id) ∙ lost)))
    where
      some≢none : some o ≡ none → ⊥
      some≢none e = cc
