-- ===== src/Engine/Sweep/Refinement.antt =====
-- The matching loop implements the execution of Engine.Sweep.Execution.
use titan_x.Prelude.{
  ℕ, suc, ◌-◌, ◌^◌, ◌<◌, ◌≡◌, ◌≢◌, ◌∙◌, sym, refl, Bool, true, List, [], ◌∷◌, ◌++◌, map, map-append,
  append-nil, ◌⊎◌, append_assoc, min, inl, inr, Bool-cases, false, length, ltb, if◌then◌else◌,
  arith, All,
}
use titan_x.Prelude.Int.{ℤ, pos, negsuc, pos_part, ltb_ℤ, ◌-ℤ◌, min_ℤ, IsQuantity}
use titan_x.Model.Order
use titan_x.Model.Order.{Order}
use titan_x.Model.Trade
use titan_x.Model.Trade.{Trade}
use titan_x.Engine.Levels.{Level, put_back}
use titan_x.Engine.Sweep.{Sweep, fill, match_levels}
use titan_x.Engine.Sweep.Execution.{
  Entry, resting, entries, filled, execute, remainder, unfilled, met, IsDone, done_lem, execute-met,
  remainder-met, unfilled-met,
}
use titan_x.Engine.Sweep.Structure.{is_left, walk, consume, consume-ends, match_levels-eq-walk}
use titan_x.Engine.Sweep.Rule.{match_levels_inv}

-- Every resting order has a positive quantity.
abbrev pub AreFillable : List Level → Type 0
AreFillable = All (λ l. All (λ o. IsQuantity o.remaining_quantity) l.queue)

min_parts :
    (x y : ℤ)
    → ltb_ℤ (pos 0) x ≡ true
    → IsQuantity y
    → pos_part (min_ℤ x y) ≡ min (pos_part x) (pos_part y)
unfolding min_ℤ
min_parts (pos m) (pos n) h k = ground arith
min_parts (negsuc m) y h k = ground arith
min_parts x (negsuc n) h k = ground arith

-- The quantities after a fill, as numbers.
pub rest_parts :
    (x y : ℤ)
    → ltb_ℤ (pos 0) x ≡ true
    → pos_part x < 2 ^ 63
    → IsQuantity y
    → (pos_part (x -ℤ min_ℤ x y) ≡ pos_part x - pos_part y)
      × (pos_part (y -ℤ min_ℤ x y) ≡ pos_part y - pos_part x)
      × (ltb_ℤ (pos 0) (y -ℤ min_ℤ x y) ≡ ltb (pos_part x) (pos_part y))
unfolding min_ℤ ◌-ℤ◌
rest_parts (pos m) (pos n) h b k = ground arith
rest_parts (negsuc m) y h b k = ground arith
rest_parts x (negsuc n) h b k = ground arith

-- One fill, field by field.
module _ (a : Order) (p : ℤ) (o : Order) (rest : List Order) (s : Sweep) where
  abbrev pub qty : ℤ
  qty = min_ℤ s.remaining o.remaining_quantity

  pub fill-remaining : (fill a p o rest s).0.remaining ≡ s.remaining -ℤ qty
  unfolding fill Order.with_remaining_quantity
  fill-remaining = ground arith

  fill-trades :
      map filled (fill a p o rest s).0.trades
      ≡ map filled s.trades ++ record (resting p o) { amount = pos_part qty } ∷ []
  unfolding fill Order.with_remaining_quantity Trade.create
  fill-trades = elim (Bool-cases (is_left s o)) [
    | inl e ↦ rw (e, fill) (map-append filled s.trades _)
    | inr e ↦ rw (e, fill) (map-append filled s.trades _)
  ]

  fill-entries : map (resting p) (fill a p o rest s).1 ≡ (
      if is_left s o
      then record (resting p o) { amount = pos_part (o.remaining_quantity -ℤ qty) }
        ∷ map (resting p) rest
      else map (resting p) rest)
  unfolding fill Order.with_remaining_quantity
  fill-entries = elim (Bool-cases (is_left s o)) [ inl e ↦ rw (e, fill) | inr e ↦ rw (e, fill) ]

-- The side after a fill, as entries.
fill-met :
    (a : Order) (p : ℤ) (o : Order) (rest : List Order) (ls : List Level) (s : Sweep)
    → ltb_ℤ (pos 0) s.remaining ≡ true
    → pos_part s.remaining < 2 ^ 63
    → IsQuantity o.remaining_quantity
    → entries (record { price = p; queue = (fill a p o rest s).1 } ∷ ls)
      ≡ met (pos_part s.remaining) (resting p o) (map (resting p) rest ++ entries ls)
fill-met a p o rest ls s h b k =
    let (_, amount, put) = rest_parts s.remaining o.remaining_quantity h b k in
    elim (Bool-cases (is_left s o)) [
      | inl e ↦ rw (fill-entries a p o rest s, e, sym put, e) (cc amount)
      | inr e ↦ rw (fill-entries a p o rest s, e, sym put, e)
    ]

fill-fillable :
    (a : Order) (p : ℤ) (o : Order) (rest : List Order) (s : Sweep)
    → ltb_ℤ (pos 0) s.remaining ≡ true
    → pos_part s.remaining < 2 ^ 63
    → All (λ u. IsQuantity u.remaining_quantity) (o ∷ rest)
    → All (λ u. IsQuantity u.remaining_quantity) (fill a p o rest s).1
unfolding fill Order.with_remaining_quantity
fill-fillable a p o rest s h b k =
    ground (arith, rest_parts s.remaining o.remaining_quantity h b k.0)

-- During the loop, what was traded and what the specification has yet to do make up a fixed
-- outcome.
module _ (crosses : ℤ → Bool) (a : Order) (done left : List Entry) (open_amount : ℕ) where
  record Inv (s : Sweep) (ls : List Level) : Type 0 where
    fillable : AreFillable ls
    bounded : pos_part s.remaining < 2 ^ 63
    fills : map filled s.trades ++ execute crosses (pos_part s.remaining) (entries ls) ≡ done
    leaves : remainder crosses (pos_part s.remaining) (entries ls) ≡ left
    opens : unfilled crosses (pos_part s.remaining) (entries ls) ≡ open_amount

  fill-Inv :
      (p : ℤ) (o : Order) (rest : List Order) (ls : List Level) (s : Sweep)
      → ltb_ℤ (pos 0) s.remaining ≡ true
      → crosses p ≡ true
      → Inv s (record { price = p; queue = o ∷ rest } ∷ ls)
      → Inv (fill a p o rest s).0 (record { price = p; queue = (fill a p o rest s).1 } ∷ ls)
  fill-Inv p o rest ls s h c v =
      let k = v.fillable.0.0 in
      let es = map (resting p) rest ++ entries ls in
      let e = resting p o in
      let n = pos_part s.remaining in
      let some_left : 0 < n = ground arith in
      let amount : pos_part (fill a p o rest s).0.remaining ≡ n - e.amount =
        rw (fill-remaining a p o rest s)
          (rest_parts s.remaining o.remaining_quantity h v.bounded k).0 in
      let view = fill-met a p o rest ls s h v.bounded k in
      record {
        fillable = (fill-fillable a p o rest s h v.bounded v.fillable.0, v.fillable.1);
        bounded = omega (arith, amount, v.bounded);
        fills =
            rw
              (
                amount,
                view,
                fill-trades a p o rest s,
                min_parts s.remaining o.remaining_quantity h k,
                append_assoc,
              )
              (rw (← execute-met crosses n e es some_left c) v.fills);
        leaves = rw (amount, view) (rw (← remainder-met crosses n e es some_left c) v.leaves);
        opens = rw (amount, view) (rw (← unfilled-met crosses n e es some_left c) v.opens);
      }

  drop-Inv :
      (p : ℤ) (ls : List Level) (s : Sweep)
      → Inv s (record { price = p; queue = [] } ∷ ls)
      → Inv s ls
  drop-Inv p ls s v = record {
    fillable = v.fillable.1;
    bounded = v.bounded;
    fills = v.fills;
    leaves = v.leaves;
    opens = v.opens;
  }

-- No level is empty.
abbrev pub AreFull : List Level → Type 0
AreFull = All (λ l. l.queue ≢ [])

IsDone-ended :
    (crosses : ℤ → Bool) (x : ℤ) (es : List Entry)
    → ltb_ℤ (pos 0) x ≡ false
    → IsDone crosses (pos_part x) es
IsDone-ended crosses x [] h = tt
IsDone-ended crosses (pos n) (e ∷ es) h = ground arith
IsDone-ended crosses (negsuc n) (e ∷ es) h = ground arith

IsDone-blocked :
    (crosses : ℤ → Bool) (n : ℕ) (p : ℤ) (q : List Order) (ls : List Level)
    → q ≢ []
    → crosses p ≡ false
    → IsDone crosses n (entries (record { price = p; queue = q } ∷ ls))
IsDone-blocked crosses n p [] ls h c = absurd (h refl)
IsDone-blocked crosses n p (o ∷ q) ls h c = inr c

module _ (crosses : ℤ → Bool) (a : Order) where
  level-IsDone :
      (p : ℤ) (ls : List Level) (s : Sweep) (q : List Order)
      → ((q ≡ []) ⊎ (ltb_ℤ (pos 0) s.remaining ≡ false))
      → (let (t, us) = walk crosses a s ls in IsDone crosses (pos_part t.remaining) (entries us))
      → let next : Sweep × List Level = elim q [
        | [] ↦ walk crosses a s ls
        | o ∷ q' ↦ (s, put_back p (o ∷ q') ls)
      ] in
        IsDone crosses (pos_part next.0.remaining) (entries next.1)
  unfolding put_back
  level-IsDone p ls s [] e d = d
  level-IsDone p ls s (o ∷ q) (inl e) d = cc
  level-IsDone p ls s (o ∷ q) (inr e) d =
      IsDone-ended crosses s.remaining (entries (put_back p (o ∷ q) ls)) e

  -- The loop ends where the specification has nothing left to do.
  walk-IsDone :
      (ls : List Level) (s : Sweep)
      → AreFull ls
      → let (t, us) = walk crosses a s ls in IsDone crosses (pos_part t.remaining) (entries us)
  unfolding walk
  walk-IsDone [] s f = tt
  walk-IsDone (l ∷ ls) s f = elim (Bool-cases (ltb_ℤ (pos 0) s.remaining)) [
    | inr e ↦ rw e (IsDone-ended crosses s.remaining (entries (l ∷ ls)) e)
    | inl e ↦ elim (Bool-cases (crosses l.price)) [
      | inr c ↦ rw (e, c) (IsDone-blocked crosses (pos_part s.remaining) l.price l.queue ls f.0 c)
      | inl c ↦
          rw (e, c)
            (level-IsDone l.price ls (consume a l.price s l.queue).0 (consume a l.price s l.queue).1
              (consume-ends a l.price s l.queue)
              (walk-IsDone ls (consume a l.price s l.queue).0 f.1))
    ]
  ]

  pub match_levels-IsDone :
      (ls : List Level) (s : Sweep)
      → AreFull ls
      → let (t, us) = match_levels (suc (length ls)) crosses a s ls in
        IsDone crosses (pos_part t.remaining) (entries us)
  match_levels-IsDone ls s f =
      rw (match_levels-eq-walk (suc (length ls)) crosses a s ls (omega arith)) (walk-IsDone ls s f)

  -- What the loop trades, leaves on the side and leaves open is what the specification says.
  pub match_levels-refines :
      (ls : List Level) (s : Sweep)
      → AreFillable ls
      → AreFull ls
      → pos_part s.remaining < 2 ^ 63
      → let (t, us) = match_levels (suc (length ls)) crosses a s ls in
        let n = pos_part s.remaining in
        (map filled t.trades ≡ map filled s.trades ++ execute crosses n (entries ls))
        × (entries us ≡ remainder crosses n (entries ls))
        × (pos_part t.remaining ≡ unfilled crosses n (entries ls))
  match_levels-refines ls s k f b =
      let (t, us) = match_levels (suc (length ls)) crosses a s ls in
      let v =
        match_levels_inv (Inv crosses a _ _ _) crosses a (fill-Inv crosses a _ _ _)
          (drop-Inv crosses a _ _ _) ls s
          (record { fillable = k; bounded = b; fills = refl; leaves = refl; opens = refl }) in
      let d = done_lem crosses (pos_part t.remaining) (entries us) (match_levels-IsDone ls s f) in
      (
        sym (append-nil (map filled t.trades)) ∙ rw (← d.0) v.fills,
        sym d.1 ∙ v.leaves,
        sym d.2 ∙ v.opens,
      )
