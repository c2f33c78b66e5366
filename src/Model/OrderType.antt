-- ===== src/Model/OrderType.antt =====
-- OrderType.hpp: the enumeration, its names, and the parser, whose std::invalid_argument is `none`.
use titan_x.Prelude.{Option, none, some, if◌then◌else◌}
use titan_x.Prelude.Text.{Text, text_eq, codes}

pub data OrderType : Type 0 where
  market limit ioc fok stop_limit : OrderType

unfoldable pub to_string : OrderType → Text
to_string market = codes "MARKET"
to_string limit = codes "LIMIT"
to_string ioc = codes "IOC"
to_string fok = codes "FOK"
to_string stop_limit = codes "STOP_LIMIT"

-- `order_type_from_string`
unfoldable pub from_string : Text → Option OrderType
from_string s =
    if text_eq s (codes "MARKET")
    then some market
    else if text_eq s (codes "LIMIT")
    then some limit
    else if text_eq s (codes "IOC")
    then some ioc
    else if text_eq s (codes "FOK")
    then some fok
    else if text_eq s (codes "STOP_LIMIT")
    then some stop_limit
    else none
