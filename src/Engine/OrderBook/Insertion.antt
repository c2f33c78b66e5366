-- ===== src/Engine/OrderBook/Insertion.antt =====
-- `side[price].push_back(order)` on an ordered side.
use titan_x.Prelude.{
  ◌≡◌, refl, sym, subst, true, false, List, [], ◌∷◌, ◌++◌, append_assoc, arith, All, All-append,
  Bool-cases, inl, inr,
}
use titan_x.Prelude.Int.{ℤ, eqb_ℤ, eq_of_parts, ◌<ℤ◌, ◌≤ℤ◌}
use titan_x.Model.OrderSide.{OrderSide, buy, sell}
use titan_x.Model.Order.{Order}
use titan_x.Engine.Levels.{Level, before, push_back, flat}
use titan_x.Engine.Sweep.Refinement.{AreFull}
use titan_x.Engine.Sweep.Sides.{IsResting, IsSide}

pub eqb_sound : (a b : ℤ) → eqb_ℤ a b ≡ true → a ≡ b
eqb_sound a b h = eq_of_parts a b (ground arith)

pub before_trans :
    (side : OrderSide) (a b c : ℤ)
    → before side a b ≡ true
    → before side b c ≡ true
    → before side a c ≡ true
before_trans buy a b c h k = ground arith
before_trans sell a b c h k = ground arith

before_total :
    (side : OrderSide) (a b : ℤ)
    → eqb_ℤ a b ≡ false
    → before side a b ≡ false
    → before side b a ≡ true
before_total buy a b h k = ground arith
before_total sell a b h k = ground arith

ahead_trans :
    (side : OrderSide) (a b : ℤ) (ls : List Level)
    → before side a b ≡ true
    → All (λ m. before side b m.price ≡ true) ls
    → All (λ m. before side a m.price ≡ true) ls
ahead_trans side a b [] h k = tt
ahead_trans side a b (l ∷ ls) h k =
    (before_trans side a b l.price h k.0, ahead_trans side a b ls h k.1)

-- A resting price that a side serves no later than another, and one that it serves later.
abbrev pub IsServed : OrderSide → ℤ → ℤ → Type 0
IsServed buy resting price = price ≤ℤ resting
IsServed sell resting price = resting ≤ℤ price

abbrev pub IsLater : OrderSide → ℤ → ℤ → Type 0
IsLater buy resting price = resting <ℤ price
IsLater sell resting price = price <ℤ resting

served : (side : OrderSide) (p q : ℤ) → before side p q ≡ false → IsServed side q p
served buy p q h = ground arith
served sell p q h = ground arith

later : (side : OrderSide) (p q : ℤ) → before side p q ≡ true → IsLater side q p
later buy p q h = ground arith
later sell p q h = ground arith

unserved : (side : OrderSide) (p q : ℤ) → eqb_ℤ p q ≡ true → before side p q ≡ false
unserved buy p q h = ground arith
unserved sell p q h = ground arith

queue_all :
    (side : OrderSide) (P : ℤ → Type 0) (q : ℤ) (os : List Order)
    → P q
    → All (IsResting side q) os
    → All (λ (x : Order). P x.price) os
queue_all side P q [] h k = tt
queue_all side P q (x ∷ os) h k = (subst P (sym k.0.0) h, queue_all side P q os h k.1)

flat_later :
    (side : OrderSide) (p : ℤ) (ls : List Level)
    → IsSide side ls
    → All (λ m. before side p m.price ≡ true) ls
    → All (λ (x : Order). IsLater side x.price p) (flat ls)
unfolding flat
flat_later side p [] h k = tt
flat_later side p (l ∷ ls) h k =
    All-append (λ (x : Order). IsLater side x.price p) l.queue (flat ls)
      (queue_all side (λ z. IsLater side z p) l.price l.queue (later side p l.price k.0) h.0)
      (flat_later side p ls h.2 k.1)

-- An order has come among others after all that are served no later than its price, and before
-- those that are served later.
pub record IsPlaced (side : OrderSide) (o : Order) (old new : List Order) : Type 0 where
  pub ahead : List Order
  pub behind : List Order
  pub was : old ≡ ahead ++ behind
  pub is : new ≡ ahead ++ o ∷ behind
  pub served_first : All (λ (x : Order). IsServed side x.price o.price) ahead
  pub served_later : All (λ (x : Order). IsLater side x.price o.price) behind

pub push_back-IsPlaced :
    (side : OrderSide) (o : Order) (ls : List Level)
    → IsSide side ls
    → IsPlaced side o (flat ls) (flat (push_back side o.price o ls))
unfolding push_back flat
push_back-IsPlaced side o [] h = record {
  ahead = [];
  behind = [];
  was = refl;
  is = refl;
  served_first = tt;
  served_later = tt;
}
push_back-IsPlaced side o (l ∷ ls) h = elim (Bool-cases (eqb_ℤ o.price l.price)) [
  | inl e ↦ record {
    ahead = l.queue;
    behind = flat ls;
    was = refl;
    is = rw (e, push_back, flat) (append_assoc l.queue (o ∷ []) (flat ls));
    served_first =
        queue_all side (λ z. IsServed side z o.price) l.price l.queue
          (served side o.price l.price (unserved side o.price l.price e)) h.0;
    served_later = flat_later side o.price ls h.2 (
        subst (λ z. All (λ m. before side z m.price ≡ true) ls) (sym (eqb_sound o.price l.price e))
          h.1);
  }
  | inr e ↦ elim (Bool-cases (before side o.price l.price)) [
    | inl b ↦ record {
      ahead = [];
      behind = l.queue ++ flat ls;
      was = refl;
      is = rw (e, b, push_back, flat) refl;
      served_first = tt;
      served_later =
          flat_later side o.price (l ∷ ls) h (b, ahead_trans side o.price l.price ls b h.1);
    }
    | inr b ↦
        let r = push_back-IsPlaced side o ls h.2 in
        record {
          ahead = l.queue ++ r.ahead;
          behind = r.behind;
          was = rw (r.was, append_assoc) refl;
          is = rw (e, b, push_back, flat) (rw (r.is, append_assoc) refl);
          served_first =
              All-append (λ (x : Order). IsServed side x.price o.price) l.queue r.ahead
                (queue_all side (λ z. IsServed side z o.price) l.price l.queue
                  (served side o.price l.price b) h.0)
                r.served_first;
          served_later = r.served_later;
        }
  ]
]

module _ (side : OrderSide) (p : ℤ) (o : Order) where
  -- Where the order ends up among the orders of the side.
  pub flat-push_back :
      (ls : List Level)
      → (xs : List Order) × (ys : List Order) × (flat ls ≡ xs ++ ys)
        × (flat (push_back side p o ls) ≡ xs ++ o ∷ ys)
  unfolding push_back flat
  flat-push_back [] = ([], [], refl, refl)
  flat-push_back (l ∷ ls) = elim (Bool-cases (eqb_ℤ p l.price)) [
    | inl e ↦
        (l.queue, flat ls, refl, rw (e, push_back, flat) (append_assoc l.queue (o ∷ []) (flat ls)))
    | inr e ↦ elim (Bool-cases (before side p l.price)) [
      | inl b ↦ ([], l.queue ++ flat ls, refl, rw (e, b, push_back, flat))
      | inr b ↦
          let (xs, ys, old, new) = flat-push_back ls in
          (
            l.queue ++ xs,
            ys,
            rw (old, append_assoc),
            rw (e, b, push_back, flat) (rw (new, append_assoc)),
          )
    ]
  ]

  pub push_back-All :
      (C : ℤ → Type 0) (ls : List Level)
      → C p
      → All (λ l. C l.price) ls
      → All (λ l. C l.price) (push_back side p o ls)
  unfolding push_back
  push_back-All C [] c h = (c, tt)
  push_back-All C (l ∷ ls) c h = ground (arith, push_back-All C ls c h.1)

  pub push_back-IsSide :
      (ls : List Level) → IsResting side p o → IsSide side ls → IsSide side (push_back side p o ls)
  unfolding push_back
  push_back-IsSide [] r h = ((r, tt), tt, tt)
  push_back-IsSide (l ∷ ls) r h = elim (Bool-cases (eqb_ℤ p l.price)) [
    | inl e ↦
        rw (e, push_back)
          (
            All-append (IsResting side l.price) l.queue (o ∷ []) h.0
                ((rw (← eqb_sound p l.price e) r, tt)),
            h.1,
            h.2,
          )
    | inr e ↦ elim (Bool-cases (before side p l.price)) [
      | inl b ↦ rw (e, b, push_back) ((r, tt), (b, ahead_trans side p l.price ls b h.1), h)
      | inr b ↦
          rw (e, b, push_back)
            (
              h.0,
              push_back-All (λ q. before side l.price q ≡ true) ls (before_total side p l.price e b)
                  h.1,
              push_back-IsSide ls r h.2,
            )
    ]
  ]

  pub push_back-AreFull : (ls : List Level) → AreFull ls → AreFull (push_back side p o ls)
  unfolding push_back
  push_back-AreFull [] h = (λ e. cc, tt)
  push_back-AreFull (l ∷ ls) h = elim (Bool-cases (eqb_ℤ p l.price)) [
    | inl e ↦ rw (e, push_back) (append-ne-nil l.queue, h.1)
    | inr e ↦ elim (Bool-cases (before side p l.price)) [
      | inl b ↦ rw (e, b, push_back) (λ z. cc, h)
      | inr b ↦ rw (e, b, push_back) (h.0, push_back-AreFull ls h.1)
    ]
  ]
    where
      append-ne-nil : (q : List Order) → q ++ o ∷ [] ≡ [] → ⊥
      append-ne-nil [] z = cc
      append-ne-nil (x ∷ q) z = cc
