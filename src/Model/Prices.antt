-- ===== src/Model/Prices.antt =====
-- The conversions of fixed-point prices in backend/include/titanx/model/Order.hpp.
use titan_x.Prelude.Int.{ℤ, pos}
use titan_x.Prelude.Text.{Text}
use titan_x.Prelude.Results.{Result, ok, ◌>>=◌}
use titan_x.Prelude.Floats.{Floats}

abbrev price_scale : ℤ
price_scale = pos 100000000

module _ (F : Floats) where
  -- `price * PRICE_SCALE + 0.5`, converted to an integer; 0.5 is exactly 1 / 2.
  unfoldable pub price_to_fixed : F.Double → ℤ
  price_to_fixed price =
      F.to_int
        (F.add (F.mul price (F.of_int price_scale)) (F.div (F.of_int (pos 1)) (F.of_int (pos 2))))

  unfoldable pub text_to_fixed : Text → Result ℤ
  unfolding price_to_fixed
  text_to_fixed price_str = do price ← F.stod price_str; ok (price_to_fixed price)

  unfoldable pub fixed_to_price : ℤ → F.Double
  fixed_to_price fixed = F.div (F.of_int fixed) (F.of_int price_scale)

  unfoldable pub price_to_string : ℤ → Text
  unfolding fixed_to_price
  price_to_string fixed = F.print_fixed 2 (fixed_to_price fixed)
