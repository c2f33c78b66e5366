-- ===== src/Engine/OrderBook/Matching.antt =====
-- Every way of matching keeps the book valid.
use titan_x.Prelude.{
  ℕ, ◌^◌, ◌<◌, ◌≡◌, ◌≢◌, refl, sym, ◌∙◌, inl, inr, Bool, true, false, List, [], ◌∷◌, none, arith,
  All, if◌then◌else◌, Bool-cases,
}
use titan_x.Prelude.Int.{ℤ, pos, negsuc, pos_part, ltb_ℤ, ◌<ℤ◌}
use titan_x.Prelude.Text.{Text}
use titan_x.Prelude.Map.{lookup}
use titan_x.Model.World.{World}
use titan_x.Model.OrderSide.{buy, sell}
use titan_x.Model.Order
use titan_x.Model.Order.{Order, is_buy}
use titan_x.Engine.Levels.{Level, flat, before}
use titan_x.Engine.Sweep.Execution.{IsDone, entries}
use titan_x.Engine.Sweep.Refinement.{AreFull, match_levels-IsDone}
use titan_x.Engine.Sweep.Sides.{IsSide, match_levels-IsSide, match_levels-AreFull}
use titan_x.Engine.Sweep.Index.{find, match_levels-fresh, find-swap_none}
use titan_x.Engine.OrderBook.{OrderBook, start, sweep, crosses, match_market, match_limit}
use titan_x.Engine.OrderBook.Validity.{
  IsValid, orders, Fits, insert_into_book-IsValid, sweep-IsValid, any_price,
}

-- A limit order that is not used up stops before the first level that it does not cross.
beyond_ask :
    (a : Order) (p : ℤ) (ls : List Level)
    → All (λ m. p <ℤ m.price) ls
    → a.price <ℤ p
    → All (λ m. a.price <ℤ m.price) ls
beyond_ask a p [] h c = tt
beyond_ask a p (l ∷ ls) h c = (omega (arith, h.0), beyond_ask a p ls h.1 c)

positive : (x : ℤ) → ltb_ℤ (pos 0) x ≡ true → 0 < pos_part x
positive (pos n) h = ground arith
positive (negsuc n) h = ground arith

beyond_bid :
    (a : Order) (p : ℤ) (ls : List Level)
    → All (λ m. m.price <ℤ p) ls
    → p <ℤ a.price
    → All (λ m. m.price <ℤ a.price) ls
beyond_bid a p [] h c = tt
beyond_bid a p (l ∷ ls) h c = (omega (arith, h.0), beyond_bid a p ls h.1 c)

asks_ahead :
    (p : ℤ) (ls : List Level)
    → All (λ m. before sell p m.price ≡ true) ls
    → All (λ m. p <ℤ m.price) ls
asks_ahead p [] h = tt
asks_ahead p (l ∷ ls) h = (ground arith, asks_ahead p ls h.1)

bids_ahead :
    (p : ℤ) (ls : List Level)
    → All (λ m. before buy p m.price ≡ true) ls
    → All (λ m. m.price <ℤ p) ls
bids_ahead p [] h = tt
bids_ahead p (l ∷ ls) h = (ground arith, bids_ahead p ls h.1)

head_blocked :
    (cross : ℤ → Bool) (n : ℕ) (l : Level) (ls : List Level)
    → 0 < n
    → l.queue ≢ []
    → IsDone cross n (entries (l ∷ ls))
    → cross l.price ≡ false
head_blocked cross n l ls h f d = go l.queue f d
  where
    go :
        (q : List Order)
        → q ≢ []
        → IsDone cross n (entries (record { price = l.price; queue = q } ∷ ls))
        → cross l.price ≡ false
    go [] f d = absurd (f refl)
    go (o ∷ q) f (inl z) = absurd (omega arith)
    go (o ∷ q) f (inr c) = c

asks_beyond :
    (cross : ℤ → Bool) (a : Order) (n : ℕ) (ls : List Level)
    → ((p : ℤ) → cross p ≡ false → a.price <ℤ p)
    → 0 < n
    → IsSide sell ls
    → AreFull ls
    → IsDone cross n (entries ls)
    → All (λ m. a.price <ℤ m.price) ls
asks_beyond cross a n [] stop h s f d = tt
asks_beyond cross a n (l ∷ ls) stop h s f d =
    let ahead = stop l.price (head_blocked cross n l ls h f.0 d) in
    (ahead, beyond_ask a l.price ls (asks_ahead l.price ls s.1) ahead)

bids_beyond :
    (cross : ℤ → Bool) (a : Order) (n : ℕ) (ls : List Level)
    → ((p : ℤ) → cross p ≡ false → p <ℤ a.price)
    → 0 < n
    → IsSide buy ls
    → AreFull ls
    → IsDone cross n (entries ls)
    → All (λ m. m.price <ℤ a.price) ls
bids_beyond cross a n [] stop h s f d = tt
bids_beyond cross a n (l ∷ ls) stop h s f d =
    let ahead = stop l.price (head_blocked cross n l ls h f.0 d) in
    (ahead, beyond_bid a l.price ls (bids_ahead l.price ls s.1) ahead)

module _ (a : Order) (b : OrderBook) (w : World) (v : IsValid b)
    (small : pos_part a.remaining_quantity < 2 ^ 63) where
  -- The orders at rest keep their ids: what was not in the book is not in it after a sweep.
  pub sweep-fresh :
      (cross : ℤ → Bool) (id : Text)
      → find id (orders b) ≡ none
      → find id (orders (sweep cross a b w).1) ≡ none
  unfolding sweep
  sweep-fresh cross id h = elim (Bool-cases (is_buy a)) [
    | inl e ↦
        rw (e, sweep)
          (find-swap_none id _ (flat b.bids) (
            match_levels-fresh cross a id (flat b.bids) b.asks (start a b w)
              (find-swap_none id (flat b.bids) (flat b.asks) h)))
    | inr e ↦ rw (e, sweep) (match_levels-fresh cross a id (flat b.asks) b.bids (start a b w) h)
  ]

  -- What is left of an order does not cross the book that the sweep leaves, if the sweep went on as
  -- far as prices cross.
  sweep-Fits :
      (cross : ℤ → Bool)
      → ((p : ℤ) → cross p ≡ false → (if is_buy a then a.price <ℤ p else p <ℤ a.price))
      → 0 < pos_part (sweep cross a b w).0.remaining
      → Fits a (sweep cross a b w).1
  unfolding sweep
  sweep-Fits cross stop h = elim (Bool-cases (is_buy a)) [
    | inl e ↦
        rw (e, sweep)
          (asks_beyond cross a _ _ (λ p c. rw e at (stop p c)) (rw (e, sweep) at h)
            (match_levels-IsSide sell cross a (λ q. Unit {0}) b.asks (start a b w) small v.asks
              (any_price b.asks)).1
            (match_levels-AreFull cross a b.asks (start a b w) v.full_asks)
            (match_levels-IsDone cross a b.asks (start a b w) v.full_asks))
    | inr e ↦
        rw (e, sweep)
          (bids_beyond cross a _ _ (λ p c. rw e at (stop p c)) (rw (e, sweep) at h)
            (match_levels-IsSide buy cross a (λ q. Unit {0}) b.bids (start a b w) small v.bids
              (any_price b.bids)).1
            (match_levels-AreFull cross a b.bids (start a b w) v.full_bids)
            (match_levels-IsDone cross a b.bids (start a b w) v.full_bids))
  ]

  pub sweep-small : (cross : ℤ → Bool) → pos_part (sweep cross a b w).0.remaining < 2 ^ 63
  unfolding sweep
  sweep-small cross = elim (Bool-cases (is_buy a)) [
    | inl e ↦
        rw (e, sweep)
          (match_levels-IsSide sell cross a (λ q. Unit {0}) b.asks (start a b w) small v.asks
            (any_price b.asks)).0
    | inr e ↦
        rw (e, sweep)
          (match_levels-IsSide buy cross a (λ q. Unit {0}) b.bids (start a b w) small v.bids
            (any_price b.bids)).0
  ]

  stop_crosses : (p : ℤ) → crosses a p ≡ false → (if is_buy a then a.price <ℤ p else p <ℤ a.price)
  stop_crosses p c = elim (Bool-cases (is_buy a)) [
    | inl e ↦ rw e (ground arith)
    | inr e ↦ rw e (ground arith)
  ]

  pub match_market-IsValid : IsValid (match_market a b w).1
  unfolding match_market
  match_market-IsValid = sweep-IsValid (λ _. true) a b w v small

  -- A limit order of a new id leaves a valid book, above all one that is not crossed.
  pub match_limit-IsValid : lookup a.order_id b.order_index ≡ none → IsValid (match_limit a b w).1
  unfolding match_limit Order.with_remaining_quantity
  match_limit-IsValid fresh =
      let (s, b') = sweep (crosses a) a b w in
      let v' = sweep-IsValid (crosses a) a b w v small in
      elim (Bool-cases (ltb_ℤ (pos 0) s.remaining)) [
        | inr e ↦ rw (e, match_limit) v'
        | inl e ↦
            let some_left : 0 < pos_part s.remaining = positive s.remaining e in
            rw (e, match_limit)
              (insert_into_book-IsValid (Order.with_remaining_quantity a s.remaining s.world).0 b'
                v' (some_left, sweep-small (crosses a))
                (sweep-fresh (crosses a) a.order_id (sym (v.agrees.finds a.order_id) ∙ fresh))
                (sweep-Fits (crosses a) stop_crosses some_left))
      ]
