-- ===== src/Serialization/Orders.antt =====
-- `Order::to_json` and `to_string` (backend/src/model/Order.cpp), `Trade::to_json` and `to_string`
-- (backend/src/model/Trade.cpp).
use titan_x.Prelude.{ℕ, zero, suc, ◌/◌, ◌^◌, [], ◌∷◌, ◌++◌}
use titan_x.Prelude.Int.{ℤ, pos}
use titan_x.Prelude.Text.{Text, codes}
use titan_x.Prelude.Decimal
use titan_x.Prelude.Floats.{Floats}
use titan_x.Model.OrderSide
use titan_x.Model.OrderType
use titan_x.Model.OrderStatus
use titan_x.Model.Order.{Order, is_market}
use titan_x.Model.Trade.{Trade}
use titan_x.Model.Prices.{price_to_string}
use titan_x.Prelude.{if◌then◌else◌}
use titan_x.Serialization.Library.{JsonLibrary}

-- Milliseconds since the epoch, of a reading of the system clock in nanoseconds.
abbrev pub millis : ℕ → ℤ
millis t = pos (t / 10 ^ 6)

-- `substr(0, n)`
abbrev pub front : ℕ → Text → Text
front zero s = []
front (suc n) [] = []
front (suc n) (c ∷ s) = c ∷ front n s

module _ (F : Floats) where
  unfoldable pub order_to_string : Order → Text
  order_to_string o =
      codes "Order{id="
      ++ front 8 o.order_id
      ++ codes ", acct="
      ++ o.account_id
      ++ codes ", "
      ++ OrderSide.to_string o.side
      ++ codes " "
      ++ OrderType.to_string o.type
      ++ codes " "
      ++ o.symbol
      ++ codes " qty="
      ++ Decimal.to_string o.remaining_quantity
      ++ codes "/"
      ++ Decimal.to_string o.quantity
      ++ codes " @ "
      ++ (if is_market o then codes "MKT" else price_to_string F o.price)
      ++ codes "}"

  unfoldable pub trade_to_string : Trade → Text
  trade_to_string t =
      codes "Trade{"
      ++ t.symbol
      ++ codes " "
      ++ OrderSide.to_string t.aggressor_side
      ++ codes " qty="
      ++ Decimal.to_string t.quantity
      ++ codes " @ "
      ++ price_to_string F t.price
      ++ codes ", aggressor="
      ++ front 8 t.aggressor_order_id
      ++ codes ", passive="
      ++ front 8 t.passive_order_id
      ++ codes "}"

  module _ (J : JsonLibrary F) where
    unfoldable pub order_to_json : Order → J.Json
    order_to_json o = J.object (
        (codes "orderId", J.of_text o.order_id)
        ∷ (codes "accountId", J.of_text o.account_id)
        ∷ (codes "symbol", J.of_text o.symbol)
        ∷ (codes "side", J.of_text (OrderSide.to_string o.side))
        ∷ (codes "type", J.of_text (OrderType.to_string o.type))
        ∷ (codes "price", J.of_text (price_to_string F o.price))
        ∷ (codes "stopPrice", J.of_text (price_to_string F o.stop_price))
        ∷ (codes "quantity", J.of_int o.quantity)
        ∷ (codes "remainingQuantity", J.of_int o.remaining_quantity)
        ∷ (codes "status", J.of_text (OrderStatus.to_string o.status))
        ∷ (codes "createdAt", J.of_int (millis o.created_at))
        ∷ (codes "updatedAt", J.of_int (millis o.updated_at))
        ∷ [])

    unfoldable pub trade_to_json : Trade → J.Json
    trade_to_json t = J.object (
        (codes "tradeId", J.of_text t.trade_id)
        ∷ (codes "symbol", J.of_text t.symbol)
        ∷ (codes "aggressorOrderId", J.of_text t.aggressor_order_id)
        ∷ (codes "aggressorAccountId", J.of_text t.aggressor_account_id)
        ∷ (codes "passiveOrderId", J.of_text t.passive_order_id)
        ∷ (codes "passiveAccountId", J.of_text t.passive_account_id)
        ∷ (codes "price", J.of_text (price_to_string F t.price))
        ∷ (codes "quantity", J.of_int t.quantity)
        ∷ (codes "aggressorSide", J.of_text (OrderSide.to_string t.aggressor_side))
        ∷ (codes "executedAt", J.of_int (millis t.executed_at))
        ∷ [])
