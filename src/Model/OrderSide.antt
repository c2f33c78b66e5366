-- ===== src/Model/OrderSide.antt =====
-- OrderSide.hpp: the enumeration, its names, and the parser, whose std::invalid_argument is `none`.
use titan_x.Prelude.{Bool, true, false, Option, none, some, if◌then◌else◌}
use titan_x.Prelude.Text.{Text, text_eq, codes}

pub data OrderSide : Type 0 where
  buy sell : OrderSide

-- `side == OrderSide::BUY`
abbrev pub is_buy_side : OrderSide → Bool
is_buy_side buy = true
is_buy_side sell = false

unfoldable pub to_string : OrderSide → Text
to_string buy = codes "BUY"
to_string sell = codes "SELL"

-- `order_side_from_string`
unfoldable pub from_string : Text → Option OrderSide
from_string s =
    if text_eq s (codes "BUY")
    then some buy
    else if text_eq s (codes "SELL")
    then some sell
    else none
