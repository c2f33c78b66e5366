-- ===== src/Prelude/Results.antt =====
-- Code that may throw a std::exception: its value, or the exception's `what()`.
use titan_x.Prelude.{◌≡◌, refl, ◌⊎◌, inl, inr}
use titan_x.Prelude.Text.{Text}

pub data Result {ℓ} (A : Type ℓ) : Type ℓ where
  err : Text → Result A
  ok : A → Result A

-- What follows a call that may throw.
infixl 5 ◌>>=◌
abbrev pub ◌>>=◌ {κ ℓ} : {A : Type κ} {B : Type ℓ} → Result A → (A → Result B) → Result B
err what >>= rest = err what
ok value >>= rest = rest value

pub Result-cases {ℓ} :
    {A : Type ℓ} (m : Result A) → ((what : Text) × (m ≡ err what)) ⊎ ((a : A) × (m ≡ ok a))
Result-cases (ok a) = inr (a, refl)
Result-cases (err what) = inl (what, refl)
