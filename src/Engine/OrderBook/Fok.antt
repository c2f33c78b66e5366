-- ===== src/Engine/OrderBook/Fok.antt =====
-- FOK orders: the count of what crosses, and the market match that follows if it suffices.
use titan_x.Prelude.{
  ℕ, ◌+◌, ◌-◌, ◌^◌, ◌<◌, ◌≤◌, ◌≡◌, ◌≢◌, refl, ap, ◌∙◌, ◌⊎◌, inl, inr, Bool, true, false, ◌||◌, List,
  [], ◌∷◌, ◌++◌, map, arith, All, if◌then◌else◌, Bool-cases,
}
use titan_x.Prelude.Int.{ℤ, pos, negsuc, pos_part, eqb_ℤ, ltb_ℤ, ◌+ℤ◌, IsQuantity}
use titan_x.Model.World.{World}
use titan_x.Model.Order.{Order, is_buy}
use titan_x.Engine.Levels.{Level}
use titan_x.Engine.Sweep.Execution.{
  Entry, resting, entries, filled, execute, remainder, unfilled, volume, volume-execute,
}
use titan_x.Engine.Sweep.Refinement.{AreFillable, AreFull}
use titan_x.Model.OrderSide.{buy, sell}
use titan_x.Engine.Sweep.Sides.{IsSide-AreFillable}
use titan_x.Engine.OrderBook.Validity.{IsValid}
use titan_x.Engine.OrderBook.Priority.{match_market-refines}
use titan_x.Engine.OrderBook.{
  OrderBook, opposite, crosses, add_queue, count_side, available_quantity_at_or_better, match_fok,
  match_market,
}

-- The amount that rests in front of the first price that does not cross.
unfoldable pub reach : (ℤ → Bool) → List Entry → ℕ
reach cross [] = 0
reach cross (e ∷ es) = let rest = e.amount + reach cross es in if cross e.price then rest else 0

-- The entries of a level in front of others.
reach-level :
    (cross : ℤ → Bool) (p : ℤ) (q : List Order) (es : List Entry)
    → cross p ≡ true
    → reach cross (map (resting p) q ++ es) ≡ volume (map (resting p) q) + reach cross es
unfolding reach volume
reach-level cross p [] es c = omega arith
reach-level cross p (o ∷ q) es c = ground (arith, reach-level cross p q es c)

reach-blocked :
    (cross : ℤ → Bool) (p : ℤ) (q : List Order) (es : List Entry)
    → q ≢ []
    → cross p ≡ false
    → reach cross (map (resting p) q ++ es) ≡ 0
unfolding reach
reach-blocked cross p [] es h c = absurd (h refl)
reach-blocked cross p (o ∷ q) es h c = rw c

pub volume-append : (xs ys : List Entry) → volume (xs ++ ys) ≡ volume xs + volume ys
unfolding volume
volume-append [] ys = omega arith
volume-append (x ∷ xs) ys = omega (arith, volume-append xs ys)

add_one :
    (t : ℕ) (x : ℤ) → IsQuantity x → t + pos_part x < 2 ^ 63 → pos t +ℤ x ≡ pos (t + pos_part x)
unfolding ◌+ℤ◌
add_one t (pos n) q h = ground arith
add_one t (negsuc n) q h = ground arith

pub add_queue_lem :
    (p : ℤ) (t : ℕ) (q : List Order)
    → All (λ o. IsQuantity o.remaining_quantity) q
    → t + volume (map (resting p) q) < 2 ^ 63
    → add_queue (pos t) q ≡ pos (t + volume (map (resting p) q))
unfolding add_queue volume
add_queue_lem p t [] k h = ap pos (omega arith)
add_queue_lem p t (o ∷ q) k h =
    rw (add_one t o.remaining_quantity k.0 (omega arith)) (
      add_queue_lem p (t + pos_part o.remaining_quantity) q k.1 (omega arith)
      ∙ ap pos (omega arith))

-- The count is exact while the volume of the side stays in the range of the type.
count_side_lem :
    (cross : ℤ → Bool) (t : ℕ) (ls : List Level)
    → AreFillable ls
    → AreFull ls
    → t + volume (entries ls) < 2 ^ 63
    → count_side cross (pos t) ls ≡ pos (t + reach cross (entries ls))
unfolding count_side reach
count_side_lem cross t [] k f h = ap pos (omega arith)
count_side_lem cross t (l ∷ ls) k f h = elim (Bool-cases (cross l.price)) [
  | inl c ↦
      rw
        (
          c,
          add_queue_lem l.price t l.queue k.0
              (omega (arith, h, volume-append (map (resting l.price) l.queue) (entries ls))),
        )
        (count_side_lem cross (t + volume (map (resting l.price) l.queue)) ls k.1 f.1
            (omega (arith, h, volume-append (map (resting l.price) l.queue) (entries ls)))
          ∙ ap pos (omega (arith, reach-level cross l.price l.queue (entries ls) c)))
  | inr c ↦ rw c (ap pos (omega (arith, reach-blocked cross l.price l.queue (entries ls) f.0 c)))
]

-- What an amount finds is the amount or the reach, whichever is less.
unfilled-reach :
    (cross : ℤ → Bool) (n : ℕ) (es : List Entry) → unfilled cross n es ≡ n - reach cross es
unfolding unfilled reach
unfilled-reach cross n [] = omega arith
unfilled-reach cross n (e ∷ es) = ground (arith, unfilled-reach cross (n - e.amount) es)

-- Within the reach, a price limit changes nothing.
execute-within :
    (cross : ℤ → Bool) (n : ℕ) (es : List Entry)
    → n ≤ reach cross es
    → (execute (λ _. true) n es ≡ execute cross n es)
      × (remainder (λ _. true) n es ≡ remainder cross n es)
unfolding execute remainder reach
execute-within cross n [] h = (refl, refl)
execute-within cross n (e ∷ es) h = ground (arith, execute-within cross (n - e.amount) es)

short_reach : (x : ℤ) {r : ℕ} → IsQuantity x → ltb_ℤ (pos r) x ≡ true → r < pos_part x
short_reach (pos n) q h = ground arith
short_reach (negsuc n) q h = ground arith

enough_reach : (x : ℤ) {r : ℕ} → IsQuantity x → ltb_ℤ (pos r) x ≡ false → pos_part x ≤ r
enough_reach (pos n) q h = ground arith
enough_reach (negsuc n) q h = ground arith

-- The prices that a FOK order accepts: all of them, if it has no price.
abbrev pub accepts : Order → ℤ → Bool
accepts a p = eqb_ℤ a.price (pos 0) || crosses a p

available_lem :
    (a : Order) (b : OrderBook)
    → IsValid b
    → volume (entries (opposite a b)) < 2 ^ 63
    → available_quantity_at_or_better a b ≡ pos (reach (accepts a) (entries (opposite a b)))
unfolding available_quantity_at_or_better
available_lem a b v h = elim (Bool-cases (is_buy a)) [
  | inl e ↦ side (opposite a b) (rw e (IsSide-AreFillable sell b.asks v.asks)) (rw e v.full_asks) h
  | inr e ↦ side (opposite a b) (rw e (IsSide-AreFillable buy b.bids v.bids)) (rw e v.full_bids) h
]
  where
    side :
        (ls : List Level)
        → AreFillable ls
        → AreFull ls
        → volume (entries ls) < 2 ^ 63
        → count_side (accepts a) (pos 0) ls ≡ pos (reach (accepts a) (entries ls))
    side ls k f h = count_side_lem (accepts a) 0 ls k f (omega (arith, h)) ∙ ap pos (omega arith)

module _ (a : Order) (b : OrderBook) (w : World) (v : IsValid b) (q : IsQuantity a.quantity)
    (whole : a.remaining_quantity ≡ a.quantity)
    (bounded : volume (entries (opposite a b)) < 2 ^ 63) where
  -- In a valid book, a FOK order of positive quantity, of which nothing is filled, is filled
  -- completely, at prices that it accepts and best first, if the other side has so much for it, and
  -- else nothing happens. The volume of the other side must be below 2^63.
  pub match_fok_lem :
      let n = pos_part a.quantity in
      let es = entries (opposite a b) in
      let (trades, b', _) = match_fok a b w in
      ((n ≤ reach (accepts a) es)
        × (map filled trades ≡ execute (accepts a) n es)
        × (volume (map filled trades) ≡ n)
        × (entries (opposite a b') ≡ remainder (accepts a) n es))
      ⊎ ((reach (accepts a) es < n) × (match_fok a b w ≡ ([], b, w)))
  unfolding match_fok
  match_fok_lem =
      let n = pos_part a.quantity in
      let es = entries (opposite a b) in
      let count = available_lem a b v bounded in
      elim (Bool-cases (ltb_ℤ (available_quantity_at_or_better a b) a.quantity)) [
        | inl short ↦ inr (short_reach a.quantity q (rw count at short), rw (short, match_fok))
        | inr enough ↦
            let within : n ≤ reach (accepts a) es =
              enough_reach a.quantity q (rw count at enough) in
            let size : pos_part a.remaining_quantity ≡ n = ap pos_part whole in
            let small : pos_part a.remaining_quantity < 2 ^ 63 = omega (arith, size, q.1) in
            let (fills, left) = match_market-refines a b w v small in
            let (same_fills, same_left) = execute-within (accepts a) n es within in
            let done : map filled (match_market a b w).0 ≡ execute (accepts a) n es =
              fills ∙ ap (λ m. execute (λ _. true) m es) size ∙ same_fills in
            rw (enough, match_fok)
              (inl (
                within,
                done,
                rw done (
                    omega (
                      arith,
                      volume-execute (accepts a) n es,
                      unfilled-reach (accepts a) n es,
                      within,
                    )),
                left ∙ ap (λ m. remainder (λ _. true) m es) size ∙ same_left,
              ))
      ]
