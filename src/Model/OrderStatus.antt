-- ===== src/Model/OrderStatus.antt =====
-- OrderStatus.hpp: the enumeration and its names.
use titan_x.Prelude.Text.{Text, codes}

pub data OrderStatus : Type 0 where
  pending partially_filled filled cancelled rejected : OrderStatus

unfoldable pub to_string : OrderStatus → Text
to_string pending = codes "PENDING"
to_string partially_filled = codes "PARTIALLY_FILLED"
to_string filled = codes "FILLED"
to_string cancelled = codes "CANCELLED"
to_string rejected = codes "REJECTED"
