-- ===== src/Engine/OrderBook/Validity.antt =====
-- The invariant of the book, and that the operations which add and remove orders keep it.
use titan_x.Prelude.{
  suc, ◌^◌, ◌<◌, ◌≡◌, refl, sym, subst, ap, ◌∙◌, inl, inr, Bool, true, false, List, [], ◌∷◌, ◌++◌,
  append_assoc, none, length, All, if◌then◌else◌, Bool-cases,
}
use titan_x.Prelude.Int.{ℤ, pos_part, ◌<ℤ◌, IsQuantity}
use titan_x.Prelude.Text.{Text}
use titan_x.Prelude.Map.{lookup, insert}
use titan_x.Model.World.{World}
use titan_x.Model.OrderSide.{OrderSide, buy, sell, is_buy_side}
use titan_x.Model.Order.{Order, is_buy}
use titan_x.Engine.Levels.{Level, push_back, flat}
use titan_x.Engine.Sweep.{match_levels}
use titan_x.Engine.Sweep.Refinement.{AreFull}
use titan_x.Engine.Sweep.Sides.{IsSide, match_levels-IsSide, match_levels-AreFull}
use titan_x.Engine.Sweep.Index.{find, Agrees, Agrees-swap, insert-Agrees, match_levels-Agrees}
use titan_x.Engine.OrderBook.Insertion.{
  flat-push_back, push_back-All, push_back-IsSide, push_back-AreFull,
}
use titan_x.Engine.OrderBook.{OrderBook, init, start, sweep, insert_into_book}

-- All resting orders: the bids, then the asks.
abbrev pub orders : OrderBook → List Order
orders b = flat b.bids ++ flat b.asks

-- Every price of the one list is below every price of the other.
abbrev pub AreBelow : List Level → List Level → Type 0
AreBelow bids asks = All (λ l. All (λ m. l.price <ℤ m.price) asks) bids

pub record IsValid (b : OrderBook) : Type 0 where
  pub bids : IsSide buy b.bids
  pub asks : IsSide sell b.asks
  pub full_bids : AreFull b.bids
  pub full_asks : AreFull b.asks
  pub uncrossed : AreBelow b.bids b.asks
  pub agrees : Agrees b.order_index (orders b)

pub init-IsValid : (symbol : Text) → IsValid (init symbol)
unfolding init lookup flat find
init-IsValid symbol = record {
  bids = tt;
  asks = tt;
  full_bids = tt;
  full_asks = tt;
  uncrossed = tt;
  agrees = record { finds = λ id. refl; distinct = tt };
}

-- Whether an order can rest: it would not cross.
abbrev pub Fits : Order → OrderBook → Type 0
Fits o b =
    if is_buy o then All (λ m. o.price <ℤ m.price) b.asks else All (λ l. l.price <ℤ o.price) b.bids

below_push :
    (o : Order) (bids asks : List Level)
    → All (λ l. l.price <ℤ o.price) bids
    → AreBelow bids asks
    → AreBelow bids (push_back sell o.price o asks)
below_push o [] asks h k = tt
below_push o (l ∷ bids) asks h k =
    (push_back-All sell o.price o (λ q. l.price <ℤ q) asks h.0 k.0, below_push o bids asks h.1 k.1)

insert-buy :
    (o : Order) (b : OrderBook)
    → IsValid b
    → o.side ≡ buy
    → IsQuantity o.remaining_quantity
    → find o.order_id (orders b) ≡ none
    → All (λ m. o.price <ℤ m.price) b.asks
    → IsValid (record b {
      bids = push_back buy o.price o b.bids;
      order_index = insert o.order_id o b.order_index;
    })
insert-buy o b v s q fresh fits = record {
  bids = push_back-IsSide buy o.price o b.bids (refl, s, q) v.bids;
  asks = v.asks;
  full_bids = push_back-AreFull buy o.price o b.bids v.full_bids;
  full_asks = v.full_asks;
  uncrossed =
      push_back-All buy o.price o (λ p. All (λ m. p <ℤ m.price) b.asks) b.bids fits v.uncrossed;
  agrees =
      let (xs, ys, old, new) = flat-push_back buy o.price o b.bids in
      rw (new, append_assoc)
        (insert-Agrees b.order_index xs (ys ++ flat b.asks) o
          (subst (Agrees b.order_index) (ap (λ zs. zs ++ flat b.asks) old ∙ append_assoc xs ys _)
            v.agrees)
          (sym (ap (find o.order_id) (ap (λ zs. zs ++ flat b.asks) old ∙ append_assoc xs ys _))
            ∙ fresh));
}

insert-sell :
    (o : Order) (b : OrderBook)
    → IsValid b
    → o.side ≡ sell
    → IsQuantity o.remaining_quantity
    → find o.order_id (orders b) ≡ none
    → All (λ l. l.price <ℤ o.price) b.bids
    → IsValid (record b {
      asks = push_back sell o.price o b.asks;
      order_index = insert o.order_id o b.order_index;
    })
insert-sell o b v s q fresh fits = record {
  bids = v.bids;
  asks = push_back-IsSide sell o.price o b.asks (refl, s, q) v.asks;
  full_bids = v.full_bids;
  full_asks = push_back-AreFull sell o.price o b.asks v.full_asks;
  uncrossed = below_push o b.bids b.asks fits v.uncrossed;
  agrees =
      let (xs, ys, old, new) = flat-push_back sell o.price o b.asks in
      let join : orders b ≡ (flat b.bids ++ xs) ++ ys =
        ap (◌++◌ (flat b.bids)) old ∙ sym (append_assoc (flat b.bids) xs ys) in
      rw (new, ← append_assoc)
        (insert-Agrees b.order_index (flat b.bids ++ xs) ys o
          (subst (Agrees b.order_index) join v.agrees) (sym (ap (find o.order_id) join) ∙ fresh));
}

abbrev Choice : Order → OrderBook → Bool → Type 0
Choice o b t =
    if t then All (λ m. o.price <ℤ m.price) b.asks else All (λ l. l.price <ℤ o.price) b.bids

pub side_buy : (s : OrderSide) → is_buy_side s ≡ true → s ≡ buy
side_buy buy e = refl
side_buy sell e = cc

pub side_sell : (s : OrderSide) → is_buy_side s ≡ false → s ≡ sell
side_sell buy e = cc
side_sell sell e = refl

-- An order that fits goes in: the book stays valid.
pub insert_into_book-IsValid :
    (o : Order) (b : OrderBook)
    → IsValid b
    → IsQuantity o.remaining_quantity
    → find o.order_id (orders b) ≡ none
    → Fits o b
    → IsValid (insert_into_book o b)
unfolding insert_into_book
insert_into_book-IsValid o b v q fresh fits = elim (Bool-cases (is_buy o)) [
  | inl e ↦
      rw (e, insert_into_book)
        (insert-buy o b v (side_buy o.side e) q fresh (subst (Choice o b) e fits))
  | inr e ↦
      rw (e, insert_into_book)
        (insert-sell o b v (side_sell o.side e) q fresh (subst (Choice o b) e fits))
]

pub any_price : (ls : List Level) → All (λ l. Unit {0}) ls
any_price [] = tt
any_price (l ∷ ls) = (tt, any_price ls)

module _ (cross : ℤ → Bool) (a : Order) (b : OrderBook) (w : World) (v : IsValid b)
    (small : pos_part a.remaining_quantity < 2 ^ 63) where
  below_match :
      (bids : List Level)
      → AreBelow bids b.asks
      → AreBelow bids (match_levels (suc (length b.asks)) cross a (start a b w) b.asks).1
  below_match [] h = tt
  below_match (l ∷ bids) h = (
    (match_levels-IsSide sell cross a (λ q. l.price <ℤ q) b.asks (start a b w) small v.asks h.0).2,
    below_match bids h.1,
  )

  -- Matching keeps the book valid.
  pub sweep-IsValid : IsValid (sweep cross a b w).1
  unfolding sweep
  sweep-IsValid = elim (Bool-cases (is_buy a)) [
    | inl e ↦
        rw (e, sweep)
          (record {
            bids = v.bids;
            asks =
                (match_levels-IsSide sell cross a (λ q. Unit {0}) b.asks (start a b w) small v.asks
                  (any_price b.asks)).1;
            full_bids = v.full_bids;
            full_asks = match_levels-AreFull cross a b.asks (start a b w) v.full_asks;
            uncrossed = below_match b.bids v.uncrossed;
            agrees = Agrees-swap _ _ (flat b.bids) (
                match_levels-Agrees cross a (flat b.bids) b.asks (start a b w)
                  (Agrees-swap b.order_index (flat b.bids) (flat b.asks) v.agrees));
          })
    | inr e ↦
        rw (e, sweep)
          (record {
            bids =
                (match_levels-IsSide buy cross a (λ q. Unit {0}) b.bids (start a b w) small v.bids
                  (any_price b.bids)).1;
            asks = v.asks;
            full_bids = match_levels-AreFull cross a b.bids (start a b w) v.full_bids;
            full_asks = v.full_asks;
            uncrossed =
                (match_levels-IsSide buy cross a (λ q. All (λ m. q <ℤ m.price) b.asks) b.bids
                  (start a b w) small v.bids v.uncrossed).2;
            agrees = match_levels-Agrees cross a (flat b.asks) b.bids (start a b w) v.agrees;
          })
  ]
