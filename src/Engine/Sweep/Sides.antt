-- ===== src/Engine/Sweep/Sides.antt =====
-- The matching loop keeps the side that it walks in order, and its orders resting orders.
use titan_x.Prelude.{
  suc, ◌^◌, ◌<◌, ◌≡◌, inl, inr, Bool, true, List, [], ◌∷◌, length, arith, All, Bool-cases,
}
use titan_x.Prelude.Int.{ℤ, pos, pos_part, ltb_ℤ, IsQuantity}
use titan_x.Model.OrderSide.{OrderSide}
use titan_x.Model.Order
use titan_x.Model.Order.{Order}
use titan_x.Engine.Levels.{Level, before, put_back}
use titan_x.Engine.Sweep.{Sweep, fill, match_levels}
use titan_x.Engine.Sweep.Structure.{walk, consume, match_levels-eq-walk}
use titan_x.Engine.Sweep.Rule.{match_levels_inv}
use titan_x.Engine.Sweep.Refinement.{AreFillable, AreFull, rest_parts, fill-remaining}

-- An order that rests at a price of a side.
abbrev pub IsResting : OrderSide → ℤ → Order → Type 0
IsResting side p o = (o.price ≡ p) × (o.side ≡ side) × IsQuantity o.remaining_quantity

-- The levels stand in the map's order, and hold orders that rest there.
abbrev pub IsSide : OrderSide → List Level → Type 0
IsSide side [] = Unit
IsSide side (l ∷ ls) =
    All (IsResting side l.price) l.queue
    × All (λ m. before side l.price m.price ≡ true) ls
    × IsSide side ls

fillable_queue :
    (side : OrderSide) (p : ℤ) (q : List Order)
    → All (IsResting side p) q
    → All (λ o. IsQuantity o.remaining_quantity) q
fillable_queue side p [] h = tt
fillable_queue side p (o ∷ q) h = (h.0.2, fillable_queue side p q h.1)

pub IsSide-AreFillable : (side : OrderSide) (ls : List Level) → IsSide side ls → AreFillable ls
IsSide-AreFillable side [] h = tt
IsSide-AreFillable side (l ∷ ls) h =
    (fillable_queue side l.price l.queue h.0, IsSide-AreFillable side ls h.2)

fill-IsResting :
    (side : OrderSide) (a : Order) (p : ℤ) (o : Order) (rest : List Order) (s : Sweep)
    → ltb_ℤ (pos 0) s.remaining ≡ true
    → pos_part s.remaining < 2 ^ 63
    → All (IsResting side p) (o ∷ rest)
    → All (IsResting side p) (fill a p o rest s).1
unfolding fill Order.with_remaining_quantity
fill-IsResting side a p o rest s h b k =
    ground (arith, rest_parts s.remaining o.remaining_quantity h b k.0.2)

module _ (side : OrderSide) (crosses : ℤ → Bool) (a : Order) (C : ℤ → Type 0) where
  abbrev Kept : Sweep → List Level → Type 0
  Kept s ls = (pos_part s.remaining < 2 ^ 63) × IsSide side ls × All (λ l. C l.price) ls

  fill-Kept :
      (p : ℤ) (o : Order) (rest : List Order) (ls : List Level) (s : Sweep)
      → ltb_ℤ (pos 0) s.remaining ≡ true
      → crosses p ≡ true
      → Kept s (record { price = p; queue = o ∷ rest } ∷ ls)
      → Kept (fill a p o rest s).0 (record { price = p; queue = (fill a p o rest s).1 } ∷ ls)
  fill-Kept p o rest ls s h c (b, (q, ahead, rest_side), prices) = (
    rw (fill-remaining a p o rest s)
        (omega (arith, (rest_parts s.remaining o.remaining_quantity h b q.0.2).0)),
    (fill-IsResting side a p o rest s h b q, ahead, rest_side),
    prices,
  )

  -- Whatever holds of each level's price goes on to hold.
  pub match_levels-IsSide :
      (ls : List Level) (s : Sweep)
      → pos_part s.remaining < 2 ^ 63
      → IsSide side ls
      → All (λ l. C l.price) ls
      → let (t, us) = match_levels (suc (length ls)) crosses a s ls in
        (pos_part t.remaining < 2 ^ 63) × IsSide side us × All (λ l. C l.price) us
  match_levels-IsSide ls s b h k =
      match_levels_inv Kept crosses a fill-Kept (λ p us t v. (v.0, v.1.2, v.2.1)) ls s (b, h, k)

module _ (crosses : ℤ → Bool) (a : Order) where
  level-AreFull :
      (p : ℤ) (ls : List Level) (s : Sweep) (q : List Order)
      → AreFull ls
      → AreFull (walk crosses a s ls).1
      → let next : Sweep × List Level = elim q [
        | [] ↦ walk crosses a s ls
        | o ∷ q' ↦ (s, put_back p (o ∷ q') ls)
      ] in
        AreFull next.1
  unfolding put_back
  level-AreFull p ls s [] f d = d
  level-AreFull p ls s (o ∷ q) f d = (λ e. cc, f)

  walk-AreFull : (ls : List Level) (s : Sweep) → AreFull ls → AreFull (walk crosses a s ls).1
  unfolding walk
  walk-AreFull [] s f = tt
  walk-AreFull (l ∷ ls) s f = elim (Bool-cases (ltb_ℤ (pos 0) s.remaining)) [
    | inr e ↦ rw e f
    | inl e ↦ elim (Bool-cases (crosses l.price)) [
      | inr c ↦ rw (e, c) f
      | inl c ↦
          rw (e, c)
            (level-AreFull l.price ls (consume a l.price s l.queue).0
              (consume a l.price s l.queue).1 f.1
              (walk-AreFull ls (consume a l.price s l.queue).0 f.1))
    ]
  ]

  -- No emptied level stays on the side.
  pub match_levels-AreFull :
      (ls : List Level) (s : Sweep)
      → AreFull ls
      → AreFull (match_levels (suc (length ls)) crosses a s ls).1
  match_levels-AreFull ls s f =
      rw (match_levels-eq-walk (suc (length ls)) crosses a s ls (omega arith)) (walk-AreFull ls s f)
