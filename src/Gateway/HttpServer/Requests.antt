-- ===== src/Gateway/HttpServer/Requests.antt =====
-- What the handlers read from a request.
use titan_x.Prelude.{
  ℕ, ◌-◌, Bool, true, ◌&&◌, not, [], ◌∷◌, ◌++◌, map, Option, none, some, leb, ◌==◌, if◌then◌else◌,
}
use titan_x.Prelude.Int.{ℤ, pos, negsuc, leb_ℤ}
use titan_x.Prelude.Text.{Text, codes}
use titan_x.Prelude.Map.{Map}
use titan_x.Prelude.Decimal.{read_digits}
use titan_x.Prelude.Results.{Result, ok, err, ◌>>=◌}
use titan_x.Prelude.Floats.{Floats}
use titan_x.Model.OrderSide
use titan_x.Model.OrderSide.{OrderSide}
use titan_x.Model.OrderType
use titan_x.Model.OrderType.{OrderType}
use titan_x.Model.Prices.{price_to_fixed, text_to_fixed}
use titan_x.Serialization.Library.{JsonLibrary}

-- `authorization` is the header's value, empty if there is none.
pub record Request : Type 0 where
  pub body : Text
  pub authorization : Text
  pub url_params : Map Text

pub record OrderRequest : Type 0 where
  pub symbol : Text
  pub side : OrderSide
  pub type : OrderType
  pub price : ℤ
  pub stop_price : ℤ
  pub quantity : ℤ

-- `::toupper` on ASCII.
abbrev to_upper : ℕ → ℕ
to_upper c = if leb b'a' c && leb c b'z' then c - 32 else c

abbrev pub upper : Text → Text
upper = map to_upper

abbrev is_space : ℕ → Bool
is_space c = if c == 32 then true else leb 9 c && leb c 13

abbrev skip_spaces : Text → Text
skip_spaces [] = []
skip_spaces (c ∷ s) = let rest = skip_spaces s in if is_space c then rest else c ∷ s

-- Zero has no sign.
abbrev negate : ℕ → ℤ
negate n = if n == 0 then pos 0 else negsuc (n - 1)

abbrev signed_digits : Text → ℤ
signed_digits [] = pos 0
signed_digits (c ∷ s) =
    if c == b'-'
    then negate (read_digits 0 s)
    else if c == b'+'
    then pos (read_digits 0 s)
    else pos (read_digits 0 (c ∷ s))

-- `std::atoi`, for values in the range of int.
unfoldable pub atoi : Text → ℤ
atoi s = signed_digits (skip_spaces s)

unfoldable pub read_depth : Option Text → ℤ
unfolding atoi
read_depth none = pos 10
read_depth (some s) = if leb_ℤ (atoi s) (pos 0) then pos 10 else atoi s

-- The exceptions of order_side_from_string and order_type_from_string.
unfoldable pub side_of : Text → Result OrderSide
side_of s = elim (OrderSide.from_string s) [
  | none ↦ err (codes "Invalid OrderSide: " ++ s)
  | some side ↦ ok side
]

unfoldable pub type_of : Text → Result OrderType
type_of s = elim (OrderType.from_string s) [
  | none ↦ err (codes "Invalid OrderType: " ++ s)
  | some type ↦ ok type
]

module _ (F : Floats) (J : JsonLibrary F) where
  -- A price is absent, null, a string, or what converts to a double.
  unfoldable pub read_price : J.Json → Text → Result ℤ
  read_price body name =
      if J.has_member body name && not (J.is_null (J.member body name))
      then (if J.is_string (J.member body name)
          then (do price_str ← J.get_text (J.member body name); text_to_fixed F price_str)
          else (do price ← J.get_double (J.member body name); ok (price_to_fixed F price)))
      else ok (pos 0)

  -- C++ leaves open which of side and type is converted first, if both fail.
  unfoldable pub read_order : Text → Result OrderRequest
  unfolding read_price side_of type_of
  read_order text = do
    body ← J.parse text
    symbol ← J.value_text body (codes "symbol") []
    side ← J.value_text body (codes "side") []
    type ← J.value_text body (codes "type") []
    quantity ← J.value_int body (codes "quantity") (pos 0)
    price ← read_price body (codes "price")
    stop_price ← read_price body (codes "stopPrice")
    order_side ← side_of (upper side)
    order_type ← type_of (upper type)
    ok (record {
      symbol = upper symbol;
      side = order_side;
      type = order_type;
      price = price;
      stop_price = stop_price;
      quantity = quantity;
    })

  unfoldable pub read_login : Text → Result (Text × Text)
  read_login text = do
    body ← J.parse text
    account_id ← J.value_text body (codes "accountId") []
    password ← J.value_text body (codes "password") []
    ok (account_id, password)
