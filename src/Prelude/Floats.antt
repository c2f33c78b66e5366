-- ===== src/Prelude/Floats.antt =====
-- The C++ `double` and what the code uses of it: an unknown type with the operations of the
-- processor and of the standard library.
use Prim.Native.Nat.{ℕ}
use titan_x.Prelude.Int.{ℤ}
use titan_x.Prelude.Text.{Text}
use titan_x.Prelude.Results.{Result}
use mathlib.Core.Bool.{Bool}

pub record Floats : Type 1 where
  pub Double : Type 0
  -- `static_cast<double>`, and `static_cast<int64_t>`
  pub of_int : ℤ → Double
  pub to_int : Double → ℤ
  pub add : Double → Double → Double
  pub mul : Double → Double → Double
  pub div : Double → Double → Double
  pub lt : Double → Double → Bool
  pub stod : Text → Result Double
  -- `snprintf` with `%.nf`
  pub print_fixed : ℕ → Double → Text
