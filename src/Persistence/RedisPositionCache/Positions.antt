-- ===== src/Persistence/RedisPositionCache/Positions.antt =====
-- The cached positions as sums of what was moved.
use titan_x.Prelude.{
  ◌+◌, ◌≡◌, ◌≢◌, refl, sym, ap, ◌∙◌, ◌⊎◌, inl, inr, true, false, ◌&&◌, List, [], ◌∷◌, some,
  if◌then◌else◌, Bool-cases, arith, All,
}
use titan_x.Prelude.Int.{ℤ, pos, pos_part, neg_part, sub_ℕ, IsInt64}
use titan_x.Prelude.Text.{Text, codes, text_eq, text_eq_iff}
use titan_x.Prelude.Decimal
use titan_x.Prelude.Decimal.{stoll, stoll-to_string}
use titan_x.Prelude.Results.{ok}
use titan_x.Persistence.RedisPositionCache.{
  Redis, string, other, RedisPositionCache, position_key, c_str, read_number, update_position,
  get_position,
}
use titan_x.Persistence.RedisPositionCache.Keys.{
  IsName, IsCText, c_str-position_key, position_key-injective, c_str-to_string,
}

-- The sum, which may be out of the range of the type.
abbrev pub plus : ℤ → ℤ → ℤ
plus a b = sub_ℕ (pos_part a + pos_part b) (neg_part a + neg_part b)

-- What Redis documents of two commands while the server answers: on a key that holds a number or
-- nothing, INCRBY adds, within the range of the type, and GET gives the printed number, or no
-- string at 0 if the key was never set; INCRBY touches no other key, whatever that one holds.
pub record Counts (R : Redis) : Type 1 where
  -- The server answers, and the key holds a number or nothing.
  pub IsNumber : R.State → Text → Type 0
  pub value : R.State → Text → ℤ
  pub incr :
      (st : R.State) (k : Text) (d : ℤ)
      → IsNumber st k
      → IsInt64 (plus (value st k) d)
      → value (R.command (codes "INCRBY" ∷ k ∷ Decimal.to_string d ∷ []) st).1 k
        ≡ plus (value st k) d
  pub incr_number :
      (st : R.State) (k k' : Text) (d : ℤ)
      → IsNumber st k'
      → (k ≡ k' → IsInt64 (plus (value st k') d))
      → IsNumber (R.command (codes "INCRBY" ∷ k ∷ Decimal.to_string d ∷ []) st).1 k'
  pub frame :
      (st : R.State) (k k' : Text) (d : ℤ)
      → k ≢ k'
      → value (R.command (codes "INCRBY" ∷ k ∷ Decimal.to_string d ∷ []) st).1 k' ≡ value st k'
  pub get :
      (st : R.State) (k : Text)
      → IsNumber st k
      → (R.command (codes "GET" ∷ k ∷ []) st ≡ (some (string (Decimal.to_string (value st k))), st))
        ⊎ ((value st k ≡ pos 0) × (R.command (codes "GET" ∷ k ∷ []) st ≡ (some other, st)))

-- An account, a symbol, and what is added to the position.
abbrev pub Move : Type 0
Move = Text × Text × ℤ

-- The sum after the moves of one account in one symbol.
unfoldable pub total : Text → Text → ℤ → List Move → ℤ
total a s acc [] = acc
total a s acc (m ∷ ms) =
    let own = total a s (plus acc m.2) ms in
    let rest = total a s acc ms in if text_eq a m.0 && text_eq s m.1 then own else rest

-- Each sum on the way is in the range of the type.
unfoldable pub Fits : Text → Text → ℤ → List Move → Type 0
Fits a s acc [] = Unit {0}
Fits a s acc (m ∷ ms) =
    let own = IsInt64 (plus acc m.2) × Fits a s (plus acc m.2) ms in
    let rest = Fits a s acc ms in if text_eq a m.0 && text_eq s m.1 then own else rest

read_number-to_string :
    (R : Redis) (z : ℤ) → read_number R (some (string (Decimal.to_string z))) ≡ ok z
read_number-to_string R z =
    let e : stoll (c_str (Decimal.to_string z)) ≡ some z =
      rw (c_str-to_string z) (stoll-to_string z) in
    rw (read_number, e) refl

module _ (R : Redis) where
  unfoldable pub update_all : List Move → RedisPositionCache R → RedisPositionCache R
  update_all [] c = c
  update_all (m ∷ ms) c = update_all ms (update_position R m.0 m.1 m.2 c)

  -- The names of a move are those that keep its key apart from others.
  abbrev pub IsProper : Move → Type 0
  IsProper m = IsName m.0 × IsCText m.1

  module _ (counts : Counts R) where
    -- The number that the server holds for a position.
    abbrev pub held : Text → Text → RedisPositionCache R → ℤ
    held a s c = counts.value c.server (position_key a s)

    -- The server answers, and the position's key holds a number or nothing.
    abbrev pub IsPosition : Text → Text → RedisPositionCache R → Type 0
    IsPosition a s c = counts.IsNumber c.server (position_key a s)

    IsPosition-update_position :
        (a s a' s' : Text) (d : ℤ) (c : RedisPositionCache R)
        → IsName a
        → IsName a'
        → IsCText s'
        → c.connected ≡ true
        → IsPosition a s c
        → ((text_eq a a' && text_eq s s') ≡ true → IsInt64 (plus (held a s c) d))
        → IsPosition a s (update_position R a' s' d c)
    unfolding update_position
    IsPosition-update_position a s a' s' d c h h' k' o n i =
        rw (o, c_str-position_key a' s' h' k')
          (counts.incr_number c.server (position_key a' s') (position_key a s) d n (λ e.
            let (x, y) = position_key-injective a' a s' s h' h e in
            i (ground (arith, (text_eq_iff a a').1 (sym x), (text_eq_iff s s').1 (sym y)))))

    held-own :
        (a s : Text) (d : ℤ) (c : RedisPositionCache R)
        → IsName a
        → IsCText s
        → c.connected ≡ true
        → IsPosition a s c
        → IsInt64 (plus (held a s c) d)
        → held a s (update_position R a s d c) ≡ plus (held a s c) d
    unfolding update_position
    held-own a s d c h k o n i =
        rw (o, c_str-position_key a s h k) (counts.incr c.server (position_key a s) d n i)

    held-other :
        (a s a' s' : Text) (d : ℤ) (c : RedisPositionCache R)
        → IsName a
        → IsName a'
        → IsCText s'
        → c.connected ≡ true
        → (text_eq a a' && text_eq s s') ≡ false
        → held a s (update_position R a' s' d c) ≡ held a s c
    unfolding update_position
    held-other a s a' s' d c h h' k' o n =
        let apart : position_key a' s' ≢ position_key a s = λ e.
          let (x, y) = position_key-injective a' a s' s h' h e in
          ground (arith, n, (text_eq_iff a a').1 (sym x), (text_eq_iff s s').1 (sym y)) in
        rw (o, c_str-position_key a' s' h' k')
          (counts.frame c.server (position_key a' s') (position_key a s) d apart)

    matching :
        (a s : Text) (m : Move) → (text_eq a m.0 && text_eq s m.1) ≡ true → (a ≡ m.0) × (s ≡ m.1)
    matching a s m h =
        ((text_eq_iff a m.0).0 (ground (arith, h)), (text_eq_iff s m.1).0 (ground (arith, h)))

    held-step :
        (a s : Text) (m : Move) (c : RedisPositionCache R)
        → IsName a
        → IsCText s
        → a ≡ m.0
        → s ≡ m.1
        → c.connected ≡ true
        → IsPosition a s c
        → IsInt64 (plus (held a s c) m.2)
        → held a s (update_position R m.0 m.1 m.2 c) ≡ plus (held a s c) m.2
    held-step a s m c h k x z o n i = rw (sym x, sym z) (held-own a s m.2 c h k o n i)

    update_position-connected :
        (m : Move) (c : RedisPositionCache R)
        → c.connected ≡ true
        → (update_position R m.0 m.1 m.2 c).connected ≡ true
    unfolding update_position
    update_position-connected m c o = rw o refl

    held-update_all :
        (a s : Text) (ms : List Move) (c : RedisPositionCache R)
        → IsName a
        → IsCText s
        → All IsProper ms
        → c.connected ≡ true
        → IsPosition a s c
        → Fits a s (held a s c) ms
        → (held a s (update_all ms c) ≡ total a s (held a s c) ms)
          × ((update_all ms c).connected ≡ true)
          × IsPosition a s (update_all ms c)
    unfolding update_all total Fits
    held-update_all a s [] c h k p o z f = (refl, o, z)
    held-update_all a s (m ∷ ms) c h k p o z f =
        let c' = update_position R m.0 m.1 m.2 c in
        let o' = update_position-connected m c o in
        elim (Bool-cases (text_eq a m.0 && text_eq s m.1)) [
          | inr n ↦
              let e = held-other a s m.0 m.1 m.2 c h p.0.0 p.0.1 o n in
              let z' =
                IsPosition-update_position a s m.0 m.1 m.2 c h p.0.0 p.0.1 o z
                  (λ y. absurd (ground (arith, n, y))) in
              let (x, y, v) = held-update_all a s ms c' h k p.1 o' z' (rw e (rw n at f)) in
              (rw n (rw e at x), y, v)
          | inl y ↦
              let (x, w) = matching a s m y in
              let (i, f') : IsInt64 (plus (held a s c) m.2) × Fits a s (plus (held a s c) m.2) ms =
                rw y at f in
              let e = held-step a s m c h k x w o z i in
              let z' = IsPosition-update_position a s m.0 m.1 m.2 c h p.0.0 p.0.1 o z (λ _. i) in
              let (x, y', v) = held-update_all a s ms c' h k p.1 o' z' (rw e f') in
              (rw y (rw e at x), y', v)
        ]

    get_position-held :
        (a s : Text) (c : RedisPositionCache R)
        → IsName a
        → IsCText s
        → c.connected ≡ true
        → IsPosition a s c
        → (get_position R a s c).0 ≡ ok (held a s c)
    unfolding get_position
    get_position-held a s c h k o n = elim (counts.get c.server (position_key a s) n) [
      | inl e ↦ rw (o, c_str-position_key a s h k, e) (read_number-to_string R (held a s c))
      | inr (z, e) ↦ rw (o, c_str-position_key a s h k, e, z) refl
    ]

    -- A connected cache on a server that counts: after any updates, the position that is read is
    -- the one that was held before with the sum of the updates of its account and symbol, if its
    -- key held a number or nothing, each sum on the way is in the range of the type, no account has
    -- a colon, and no name has a zero byte.
    pub get_position-total :
        (a s : Text) (ms : List Move) (c : RedisPositionCache R)
        → IsName a
        → IsCText s
        → All IsProper ms
        → c.connected ≡ true
        → IsPosition a s c
        → Fits a s (held a s c) ms
        → (get_position R a s (update_all ms c)).0 ≡ ok (total a s (held a s c) ms)
    get_position-total a s ms c h k p o n f =
        let (e, o', n') = held-update_all a s ms c h k p o n f in
        get_position-held a s (update_all ms c) h k o' n' ∙ ap (λ v. ok v) e
