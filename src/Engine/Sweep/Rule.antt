-- ===== src/Engine/Sweep/Rule.antt =====
-- The invariant rule of the matching loops: what each fill keeps, and what the erasure of an
-- emptied level keeps, the whole loop keeps.
use titan_x.Prelude.{
  ◌≡◌, subst, Bool, true, List, [], ◌∷◌, suc, length, arith, Bool-cases, inl, inr,
}
use titan_x.Prelude.Int.{ℤ, pos, ltb_ℤ}
use titan_x.Model.Order.{Order}
use titan_x.Engine.Levels.{Level, put_back}
use titan_x.Engine.Sweep.{Sweep, fill, match_levels}
use titan_x.Engine.Sweep.Structure.{is_left, consume, walk, fill-done, match_levels-eq-walk}

module _ {ℓ} (P : Sweep → List Level → Type ℓ) (crosses : ℤ → Bool) (a : Order)
    (step : (p : ℤ) (o : Order) (rest : List Order) (ls : List Level) (s : Sweep)
      → ltb_ℤ (pos 0) s.remaining ≡ true
      → crosses p ≡ true
      → P s (record { price = p; queue = o ∷ rest } ∷ ls)
      → P (fill a p o rest s).0 (record { price = p; queue = (fill a p o rest s).1 } ∷ ls))
    (drop : (p : ℤ) (ls : List Level) (s : Sweep)
      → P s (record { price = p; queue = [] } ∷ ls)
      → P s ls) where
  consume_inv :
      (p : ℤ) (ls : List Level) (q : List Order) (s : Sweep)
      → crosses p ≡ true
      → P s (record { price = p; queue = q } ∷ ls)
      → P (consume a p s q).0 (record { price = p; queue = (consume a p s q).1 } ∷ ls)
  unfolding consume
  consume_inv p ls [] s c h = h
  consume_inv p ls (o ∷ rest) s c h = elim (Bool-cases (ltb_ℤ (pos 0) s.remaining)) [
    | inr e ↦ rw e h
    | inl e ↦ elim (Bool-cases (is_left s o)) [
      | inl left ↦ rw (e, left) (step p o rest ls s e c h)
      | inr done ↦
          rw (e, done)
            (consume_inv p ls rest (fill a p o rest s).0 c (
              subst (λ q. P (fill a p o rest s).0 (record { price = p; queue = q } ∷ ls))
                (fill-done a p o rest s done) (step p o rest ls s e c h)))
    ]
  ]

  -- The rest of the walk, after the front level was matched.
  level_inv :
      (p : ℤ) (ls : List Level) (r : Sweep × List Order) (t : Sweep × List Level)
      → P r.0 (record { price = p; queue = r.1 } ∷ ls)
      → (P r.0 ls → P t.0 t.1)
      → let next : Sweep × List Level = elim r.1 [
        | [] ↦ t
        | o ∷ q ↦ (r.0, put_back p (o ∷ q) ls)
      ] in
        P next.0 next.1
  unfolding put_back
  level_inv p ls (s, []) t h k = k (drop p ls s h)
  level_inv p ls (s, o ∷ q) t h k = h

  walk_inv :
      (ls : List Level) (s : Sweep) → P s ls → P (walk crosses a s ls).0 (walk crosses a s ls).1
  unfolding walk
  walk_inv [] s h = h
  walk_inv (l ∷ ls) s h = elim (Bool-cases (ltb_ℤ (pos 0) s.remaining)) [
    | inr e ↦ rw e h
    | inl e ↦ elim (Bool-cases (crosses l.price)) [
      | inr c ↦ rw (e, c) h
      | inl c ↦
          rw (e, c)
            (level_inv l.price ls (consume a l.price s l.queue)
              (walk crosses a (consume a l.price s l.queue).0 ls)
              (consume_inv l.price ls l.queue s c h) (walk_inv ls (consume a l.price s l.queue).0))
    ]
  ]

  -- The rule for the loop as it is called.
  pub match_levels_inv :
      (ls : List Level) (s : Sweep)
      → P s ls
      → let (s', ls') = match_levels (suc (length ls)) crosses a s ls in P s' ls'
  match_levels_inv ls s h =
      rw (match_levels-eq-walk (suc (length ls)) crosses a s ls (omega arith)) (walk_inv ls s h)
