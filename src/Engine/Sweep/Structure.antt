-- ===== src/Engine/Sweep/Structure.antt =====
-- The matching loops against the same loops by structural recursion on the queue and on the side.
use titan_x.Prelude.{
  ℕ, zero, suc, ◌<◌, ◌≡◌, refl, Bool, true, false, List, [], ◌∷◌, length, if◌then◌else◌, arith,
  Bool-cases, inl, inr, ◌⊎◌,
}
use titan_x.Prelude.Int.{ℤ, pos, ltb_ℤ, ◌-ℤ◌, min_ℤ}
use titan_x.Model.Order
use titan_x.Model.Order.{Order}
use titan_x.Engine.Levels.{Level, put_back}
use titan_x.Engine.Sweep.{Sweep, fill, match_level, match_levels}

-- Whether the front order is put back after its fill.
abbrev pub is_left : Sweep → Order → Bool
is_left s o = ltb_ℤ (pos 0) (o.remaining_quantity -ℤ min_ℤ s.remaining o.remaining_quantity)

unfoldable pub consume : Order → ℤ → Sweep → List Order → Sweep × List Order
consume a p s [] = (s, [])
consume a p s (o ∷ rest) =
    let r = fill a p o rest s in
    let next = consume a p r.0 rest in
    if ltb_ℤ (pos 0) s.remaining then if is_left s o then r else next else (s, o ∷ rest)

unfoldable pub walk : (ℤ → Bool) → Order → Sweep → List Level → Sweep × List Level
walk crosses a s [] = (s, [])
walk crosses a s (l ∷ ls) =
    let r = consume a l.price s l.queue in
    let next : Sweep × List Level = elim r.1 [
      | [] ↦ walk crosses a r.0 ls
      | o ∷ q ↦ (r.0, put_back l.price (o ∷ q) ls)
    ] in
    if ltb_ℤ (pos 0) s.remaining then if crosses l.price then next else (s, l ∷ ls) else (s, l ∷ ls)

sub_self : (x : ℤ) → ltb_ℤ (pos 0) (x -ℤ x) ≡ false
unfolding ◌-ℤ◌
sub_self x = ground arith

-- An order that is put back has used up the aggressor's quantity.
pub min_left :
    (x y : ℤ) → ltb_ℤ (pos 0) (y -ℤ min_ℤ x y) ≡ true → ltb_ℤ (pos 0) (x -ℤ min_ℤ x y) ≡ false
unfolding min_ℤ
min_left x y h = ground (arith, sub_self x, sub_self y)

pub fill-left :
    (a : Order) (p : ℤ) (o : Order) (rest : List Order) (s : Sweep)
    → is_left s o ≡ true
    → ltb_ℤ (pos 0) (fill a p o rest s).0.remaining ≡ false
unfolding fill Order.with_remaining_quantity
fill-left a p o rest s h = rw (h, fill) (min_left s.remaining o.remaining_quantity h)

pub fill-done :
    (a : Order) (p : ℤ) (o : Order) (rest : List Order) (s : Sweep)
    → is_left s o ≡ false
    → (fill a p o rest s).1 ≡ rest
unfolding fill Order.with_remaining_quantity
fill-done a p o rest s h = rw (h, fill)

match_level-ended :
    (fuel : ℕ) (a : Order) (p : ℤ) (s : Sweep) (q : List Order)
    → ltb_ℤ (pos 0) s.remaining ≡ false
    → match_level fuel a p s q ≡ (s, q)
unfolding match_level
match_level-ended zero a p s q h = refl
match_level-ended (suc fuel) a p s [] h = refl
match_level-ended (suc fuel) a p s (o ∷ rest) h = rw h

match_level-eq-consume :
    (fuel : ℕ) (a : Order) (p : ℤ) (s : Sweep) (q : List Order)
    → length q < fuel
    → match_level fuel a p s q ≡ consume a p s q
unfolding match_level consume
match_level-eq-consume zero a p s q h = absurd (omega arith)
match_level-eq-consume (suc fuel) a p s [] h = refl
match_level-eq-consume (suc fuel) a p s (o ∷ rest) h =
    elim (Bool-cases (ltb_ℤ (pos 0) s.remaining)) [
      | inr e ↦ rw e
      | inl e ↦ elim (Bool-cases (is_left s o)) [
        | inl left ↦
            rw (e, left)
              (match_level-ended fuel a p (fill a p o rest s).0 (fill a p o rest s).1
                (fill-left a p o rest s left))
        | inr done ↦
            rw (e, done, fill-done a p o rest s done)
              (match_level-eq-consume fuel a p (fill a p o rest s).0 rest (omega arith))
      ]
    ]

-- A level is emptied, or the aggressor is used up.
pub consume-ends :
    (a : Order) (p : ℤ) (s : Sweep) (q : List Order)
    → ((consume a p s q).1 ≡ []) ⊎ (ltb_ℤ (pos 0) (consume a p s q).0.remaining ≡ false)
unfolding consume
consume-ends a p s [] = inl refl
consume-ends a p s (o ∷ rest) = elim (Bool-cases (ltb_ℤ (pos 0) s.remaining)) [
  | inr e ↦ inr (rw e e)
  | inl e ↦ elim (Bool-cases (is_left s o)) [
    | inl left ↦ inr (rw (e, left) (fill-left a p o rest s left))
    | inr done ↦ rw (e, done) (consume-ends a p (fill a p o rest s).0 rest)
  ]
]

match_levels-ended :
    (fuel : ℕ) (crosses : ℤ → Bool) (a : Order) (s : Sweep) (ls : List Level)
    → ltb_ℤ (pos 0) s.remaining ≡ false
    → match_levels fuel crosses a s ls ≡ (s, ls)
unfolding match_levels
match_levels-ended zero crosses a s ls h = refl
match_levels-ended (suc fuel) crosses a s [] h = refl
match_levels-ended (suc fuel) crosses a s (l ∷ ls) h = rw h

-- The step of the outer loop after a level was matched.
after_level : (ℤ → Bool) → Order → ℤ → List Level → Sweep × List Order → Sweep × List Level
after_level crosses a p ls r = elim r.1 [
  | [] ↦ walk crosses a r.0 ls
  | o ∷ q ↦ (r.0, put_back p (o ∷ q) ls)
]

match_levels-after :
    (fuel : ℕ) (crosses : ℤ → Bool) (a : Order) (p : ℤ) (ls : List Level) (s : Sweep)
    (q : List Order)
    → match_levels fuel crosses a s ls ≡ walk crosses a s ls
    → ((q ≡ []) ⊎ (ltb_ℤ (pos 0) s.remaining ≡ false))
    → match_levels fuel crosses a s (put_back p q ls) ≡ after_level crosses a p ls (s, q)
unfolding after_level put_back
match_levels-after fuel crosses a p ls s [] ih e = ih
match_levels-after fuel crosses a p ls s (o ∷ q) ih (inl e) = cc
match_levels-after fuel crosses a p ls s (o ∷ q) ih (inr e) =
    match_levels-ended fuel crosses a s _ e

-- With more fuel than the side has levels, the matching loop is the recursion over the levels that
-- consumes each queue in turn: it ends before its fuel does.
pub match_levels-eq-walk :
    (fuel : ℕ) (crosses : ℤ → Bool) (a : Order) (s : Sweep) (ls : List Level)
    → length ls < fuel
    → match_levels fuel crosses a s ls ≡ walk crosses a s ls
unfolding match_levels walk after_level
match_levels-eq-walk zero crosses a s ls h = absurd (omega arith)
match_levels-eq-walk (suc fuel) crosses a s [] h = refl
match_levels-eq-walk (suc fuel) crosses a s (l ∷ ls) h =
    elim (Bool-cases (ltb_ℤ (pos 0) s.remaining)) [
      | inr e ↦ rw e
      | inl e ↦ elim (Bool-cases (crosses l.price)) [
        | inr c ↦ rw (e, c)
        | inl c ↦
            rw
              (
                e,
                c,
                match_level-eq-consume (suc (length l.queue)) a l.price s l.queue (omega arith),
              )
              (match_levels-after fuel crosses a l.price ls (consume a l.price s l.queue).0
                (consume a l.price s l.queue).1
                (match_levels-eq-walk fuel crosses a (consume a l.price s l.queue).0 ls
                  (omega arith))
                (consume-ends a l.price s l.queue))
      ]
    ]
