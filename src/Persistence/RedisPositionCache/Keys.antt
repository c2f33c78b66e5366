-- ===== src/Persistence/RedisPositionCache/Keys.antt =====
-- Which keys are the same.
use titan_x.Prelude.{
  ℕ, zero, suc, ◌+◌, ◌/◌, ◌%◌, ltb, inl, inr, Bool-cases, ◌≡◌, ◌≢◌, refl, sym, ap, ◌∙◌,
  append_assoc, [], ◌∷◌, ◌++◌, arith, All,
}
use titan_x.Prelude.Int.{ℤ, pos, negsuc}
use titan_x.Prelude.Decimal
use titan_x.Prelude.Decimal.{digits, decimal}
use titan_x.Prelude.Text.{Text, codes}
use titan_x.Persistence.RedisPositionCache.{position_key, c_str}

-- A text without a zero byte, which C reads to its end.
abbrev pub IsCText : Text → Type 0
IsCText = All (λ c. c ≢ 0)

-- One that has no colon either.
pub record IsName (t : Text) : Type 0 where
  pub plain : All (λ c. c ≢ b':') t
  pub whole : IsCText t

c_str-IsCText : (t : Text) → IsCText t → c_str t ≡ t
c_str-IsCText [] h = refl
c_str-IsCText (zero ∷ t) h = absurd (h.0 refl)
c_str-IsCText (suc c ∷ t) h = ap (λ u. suc c ∷ u) (c_str-IsCText t h.1)

IsCText-append : (s t : Text) → IsCText s → IsCText t → IsCText (s ++ t)
IsCText-append [] t h k = k
IsCText-append (c ∷ s) t h k = (h.0, IsCText-append s t h.1 k)

digits-IsCText : (fuel n : ℕ) (rest : Text) → IsCText rest → IsCText (digits fuel n rest)
unfolding digits
digits-IsCText zero n rest h = h
digits-IsCText (suc fuel) n rest h = elim (Bool-cases (ltb n 10)) [
  | inl y ↦ rw y (omega arith, h)
  | inr f ↦ rw f (digits-IsCText fuel (n / 10) ((b'0' + n % 10) ∷ rest) (omega arith, h))
]

-- A printed number is read to its end.
pub c_str-to_string : (z : ℤ) → c_str (Decimal.to_string z) ≡ Decimal.to_string z
unfolding Decimal.to_string decimal
c_str-to_string (pos n) = c_str-IsCText (digits (suc n) n []) (digits-IsCText (suc n) n [] tt)
c_str-to_string (negsuc n) =
    ap (λ u. b'-' ∷ u)
      (c_str-IsCText (digits (suc (suc n)) (suc n) []) (digits-IsCText (suc (suc n)) (suc n) [] tt))

-- The first colon ends the account.
first_colon :
    (a a' s s' : Text)
    → All (λ c. c ≢ b':') a
    → All (λ c. c ≢ b':') a'
    → a ++ b':' ∷ s ≡ a' ++ b':' ∷ s'
    → (a ≡ a') × (s ≡ s')
first_colon [] [] s s' h h' e = (refl, cc)
first_colon [] (c ∷ a') s s' h h' e = absurd (h'.0 cc)
first_colon (c ∷ a) [] s s' h h' e = absurd (h.0 cc)
first_colon (c ∷ a) (c' ∷ a') s s' h h' e =
    let (x, y) = first_colon a a' s s' h.1 h'.1 cc in (cc, y)

-- A position's key is read to its end, if neither part has a zero byte.
pub c_str-position_key :
    (a s : Text) → IsName a → IsCText s → c_str (position_key a s) ≡ position_key a s
unfolding position_key
c_str-position_key a s h k =
    let sep : IsCText (codes ":") = (omega arith, tt) in
    let head : IsCText (codes "pos:") =
      (omega arith, (omega arith, (omega arith, (omega arith, tt)))) in
    c_str-IsCText (codes "pos:" ++ a ++ codes ":" ++ s) (
      IsCText-append (codes "pos:" ++ a ++ codes ":") s
        (IsCText-append (codes "pos:" ++ a) (codes ":")
          (IsCText-append (codes "pos:") a head h.whole) sep)
        k)

after_four : Text → Text
after_four (_ ∷ _ ∷ _ ∷ _ ∷ s) = s
after_four _ = []

-- Two accounts without a colon share a position's key only if they are the same, with the same
-- symbol.
pub position_key-injective :
    (a a' s s' : Text)
    → IsName a
    → IsName a'
    → position_key a s ≡ position_key a' s'
    → (a ≡ a') × (s ≡ s')
unfolding position_key after_four
position_key-injective a a' s s' h h' e =
    first_colon a a' s s' h.plain h'.plain
      (sym (append_assoc a (codes ":") s) ∙ ap after_four e ∙ append_assoc a' (codes ":") s')
