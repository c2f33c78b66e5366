-- ===== src/Model/Names.antt =====
-- Round trips of the names of OrderSide.hpp and OrderType.hpp.
use titan_x.Prelude.{◌≡◌, ◌↔◌, refl, some, arith}
use titan_x.Prelude.Text.{Text, text_eq, codes, text_eq_iff}
use titan_x.Model.OrderSide
use titan_x.Model.OrderSide.{OrderSide, buy, sell}
use titan_x.Model.OrderType
use titan_x.Model.OrderType.{OrderType, market, limit, ioc, fok, stop_limit}

side_parses : (x : OrderSide) → OrderSide.from_string (OrderSide.to_string x) ≡ some x
unfolding OrderSide.from_string OrderSide.to_string text_eq
side_parses buy = refl
side_parses sell = refl

type_parses : (x : OrderType) → OrderType.from_string (OrderType.to_string x) ≡ some x
unfolding OrderType.from_string OrderType.to_string text_eq
type_parses market = refl
type_parses limit = refl
type_parses ioc = refl
type_parses fok = refl
type_parses stop_limit = refl

-- Nothing but its name parses as a side.
side_prints :
    (s : Text) (x : OrderSide) → OrderSide.from_string s ≡ some x → s ≡ OrderSide.to_string x
unfolding OrderSide.from_string OrderSide.to_string
side_prints s x h = ground (arith, text_eq_iff s (codes "BUY"), text_eq_iff s (codes "SELL"))

type_prints :
    (s : Text) (x : OrderType) → OrderType.from_string s ≡ some x → s ≡ OrderType.to_string x
unfolding OrderType.from_string OrderType.to_string
type_prints s x h = ground (
  arith,
  text_eq_iff s (codes "MARKET"),
  text_eq_iff s (codes "LIMIT"),
  text_eq_iff s (codes "IOC"),
  text_eq_iff s (codes "FOK"),
  text_eq_iff s (codes "STOP_LIMIT"),
)

-- A text parses as an order side exactly if it is the name that the side is printed with.
side_names_iff :
    (s : Text) (x : OrderSide) → (OrderSide.from_string s ≡ some x) ↔ (s ≡ OrderSide.to_string x)
side_names_iff s x = (side_prints s x, λ e. rw e (side_parses x))

-- A text parses as an order type exactly if it is the name that the type is printed with.
type_names_iff :
    (s : Text) (x : OrderType) → (OrderType.from_string s ≡ some x) ↔ (s ≡ OrderType.to_string x)
type_names_iff s x = (type_prints s x, λ e. rw e (type_parses x))
