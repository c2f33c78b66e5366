-- ===== src/Engine/OrderBook/Removal.antt =====
-- The removal of an order from its level, as in `removeFromBook`.
use titan_x.Prelude.{
  ◌≡◌, refl, subst, ap, true, List, [], ◌∷◌, ◌++◌, some, none, Option-cases, arith, All,
  if◌then◌else◌, Bool-cases, inl, inr,
}
use titan_x.Prelude.Int.{ℤ, eqb_ℤ}
use titan_x.Prelude.Text.{Text, text_eq, text_eq_iff}
use titan_x.Prelude.Map.{Map, erase, lookup-erase}
use titan_x.Model.OrderSide.{OrderSide, buy, sell}
use titan_x.Model.Order.{Order}
use titan_x.Engine.Levels.{Level, before, put_back, without, remove_at, contains, flat}
use titan_x.Engine.Sweep.Refinement.{AreFull}
use titan_x.Engine.Sweep.Sides.{IsResting, IsSide}
use titan_x.Engine.Sweep.Index.{find, find-append, find-distinct, AreDistinct, Agrees}
use titan_x.Engine.OrderBook.Insertion.{eqb_sound}

module _ (id : Text) where
  pub without-append : (xs ys : List Order) → without id (xs ++ ys) ≡ without id xs ++ without id ys
  unfolding without
  without-append [] ys = refl
  without-append (x ∷ xs) ys = ground (arith, without-append xs ys)

  pub without-absent : (xs : List Order) → find id xs ≡ none → without id xs ≡ xs
  unfolding without find
  without-absent [] h = refl
  without-absent (x ∷ xs) h = ground (arith, without-absent xs)

  pub find-without :
      (j : Text) (xs : List Order)
      → find j (without id xs) ≡ (if text_eq id j then none else find j xs)
  unfolding without find
  find-without j [] = ground arith
  find-without j (x ∷ xs) = ground (
    arith,
    find-without j xs,
    text_eq_iff id j,
    text_eq_iff x.order_id j,
    text_eq_iff x.order_id id,
  )

  pub without-AreDistinct : (xs : List Order) → AreDistinct xs → AreDistinct (without id xs)
  unfolding without
  without-AreDistinct [] h = tt
  without-AreDistinct (x ∷ xs) h =
      ground (arith, without-AreDistinct xs h.1, find-without x.order_id xs)

  pub without-Agrees :
      (index : Map Order) (xs : List Order)
      → Agrees index xs
      → Agrees (erase id index) (without id xs)
  without-Agrees index xs h = record {
    finds = λ j. ground (arith, lookup-erase id j index, h.finds j, find-without j xs);
    distinct = without-AreDistinct xs h.distinct;
  }

flat-put_back : (p : ℤ) (q : List Order) (ls : List Level) → flat (put_back p q ls) ≡ q ++ flat ls
unfolding put_back flat
flat-put_back p [] ls = refl
flat-put_back p (o ∷ q) ls = refl

eqb_refl : (p : ℤ) → eqb_ℤ p p ≡ true
eqb_refl p = ground arith

pub rest_distinct : (xs ys : List Order) → AreDistinct (xs ++ ys) → AreDistinct ys
rest_distinct [] ys d = d
rest_distinct (x ∷ xs) ys d = rest_distinct xs ys d.1

before_irrefl : (side : OrderSide) (p : ℤ) → before side p p ≡ true → ⊥
before_irrefl buy p h = ground arith
before_irrefl sell p h = ground arith

module _ (side : OrderSide) (id : Text) where
  pub find-queue :
      (p : ℤ) (q : List Order) (o : Order)
      → All (IsResting side p) q
      → find id q ≡ some o
      → IsResting side p o
  unfolding find
  find-queue p [] o h e = cc
  find-queue p (x ∷ q) o h e = ground (arith, find-queue p q o h.1)

  -- An order that is found rests at the price of a level.
  pub find-price :
      (C : ℤ → Type 0) (ls : List Level) (o : Order)
      → IsSide side ls
      → All (λ l. C l.price) ls
      → find id (flat ls) ≡ some o
      → C o.price × (o.side ≡ side) × (contains o.price ls ≡ true)
  unfolding flat contains
  find-price C [] o h c e = unfold find in cc
  find-price C (l ∷ ls) o h c e = elim (Option-cases (find id l.queue)) [
    | inl absent ↦ ground (arith, find-append id l.queue (flat ls), find-price C ls o h.2 c.1)
    | inr (x, here) ↦
        let same : find id l.queue ≡ some o = ground (arith, find-append id l.queue (flat ls)) in
        let r = find-queue l.price l.queue o h.0 same in rw r.0 (c.0, r.1, ground arith)
  ]

  -- The removal takes the order out of the queues, and nothing else.
  pub flat-remove_at :
      (ls : List Level) (o : Order)
      → IsSide side ls
      → AreDistinct (flat ls)
      → find id (flat ls) ≡ some o
      → flat (remove_at o.price id ls) ≡ without id (flat ls)
  unfolding flat remove_at without
  flat-remove_at [] o h d e = unfold find in cc
  flat-remove_at (l ∷ ls) o h d e = elim (Option-cases (find id l.queue)) [
    | inl absent ↦
        let there : find id (flat ls) ≡ some o = ground (arith, find-append id l.queue (flat ls)) in
        let ahead = find-price (λ p. before side l.price p ≡ true) ls o h.2 h.1 there in
        elim (Bool-cases (eqb_ℤ o.price l.price)) [
          | inl same ↦ absurd (
              before_irrefl side l.price (
                subst (λ p. before side l.price p ≡ true) (eqb_sound o.price l.price same) ahead.0))
          | inr other ↦
              rw
                (
                  other,
                  remove_at,
                  without-append id l.queue (flat ls),
                  without-absent id l.queue absent,
                  flat,
                )
                (ap (◌++◌ l.queue)
                  (flat-remove_at ls o h.2 (rest_distinct l.queue (flat ls) d) there))
        ]
    | inr (x, here) ↦
        let same : find id l.queue ≡ some o = ground (arith, find-append id l.queue (flat ls)) in
        let r = find-queue l.price l.queue o h.0 same in
        let gone = find-distinct id l.queue (flat ls) o d same in
        rw (r.0, remove_at)
          (rw
            (
              without-append id l.queue (flat ls),
              without-absent id (flat ls) gone,
              eqb_refl l.price,
            )
            (flat-put_back l.price (without id l.queue) ls))
  ]

without-All {ℓ} : (P : Order → Type ℓ) (id : Text) (q : List Order) → All P q → All P (without id q)
unfolding without
without-All P id [] h = tt
without-All P id (o ∷ q) h = ground (arith, without-All P id q h.1)

module _ (p : ℤ) (id : Text) where
  put_back-All :
      (C : ℤ → Type 0) (q : ℤ) (os : List Order) (ls : List Level)
      → C q
      → All (λ l. C l.price) ls
      → All (λ l. C l.price) (put_back q os ls)
  unfolding put_back
  put_back-All C q [] ls c h = h
  put_back-All C q (o ∷ os) ls c h = (c, h)

  pub remove_at-All :
      (C : ℤ → Type 0) (ls : List Level)
      → All (λ l. C l.price) ls
      → All (λ l. C l.price) (remove_at p id ls)
  unfolding remove_at
  remove_at-All C [] h = tt
  remove_at-All C (l ∷ ls) h = elim (Bool-cases (eqb_ℤ p l.price)) [
    | inl e ↦ rw (e, remove_at) (put_back-All C l.price (without id l.queue) ls h.0 h.1)
    | inr e ↦ rw (e, remove_at) (h.0, remove_at-All C ls h.1)
  ]

  put_back-IsSide :
      (side : OrderSide) (q : ℤ) (os : List Order) (ls : List Level)
      → All (IsResting side q) os
      → All (λ m. before side q m.price ≡ true) ls
      → IsSide side ls
      → IsSide side (put_back q os ls)
  unfolding put_back
  put_back-IsSide side q [] ls r a h = h
  put_back-IsSide side q (o ∷ os) ls r a h = (r, a, h)

  pub remove_at-IsSide :
      (side : OrderSide) (ls : List Level) → IsSide side ls → IsSide side (remove_at p id ls)
  unfolding remove_at
  remove_at-IsSide side [] h = tt
  remove_at-IsSide side (l ∷ ls) h = elim (Bool-cases (eqb_ℤ p l.price)) [
    | inl e ↦
        rw (e, remove_at)
          (put_back-IsSide side l.price (without id l.queue) ls
            (without-All (IsResting side l.price) id l.queue h.0) h.1 h.2)
    | inr e ↦
        rw (e, remove_at)
          (
            h.0,
            remove_at-All (λ q. before side l.price q ≡ true) ls h.1,
            remove_at-IsSide side ls h.2,
          )
  ]

  put_back-AreFull :
      (q : ℤ) (os : List Order) (ls : List Level) → AreFull ls → AreFull (put_back q os ls)
  unfolding put_back
  put_back-AreFull q [] ls h = h
  put_back-AreFull q (o ∷ os) ls h = (λ e. cc, h)

  pub remove_at-AreFull : (ls : List Level) → AreFull ls → AreFull (remove_at p id ls)
  unfolding remove_at
  remove_at-AreFull [] h = tt
  remove_at-AreFull (l ∷ ls) h = elim (Bool-cases (eqb_ℤ p l.price)) [
    | inl e ↦ rw (e, remove_at) (put_back-AreFull l.price (without id l.queue) ls h.1)
    | inr e ↦ rw (e, remove_at) (h.0, remove_at-AreFull ls h.1)
  ]
