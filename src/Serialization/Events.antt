-- ===== src/Serialization/Events.antt =====
-- `OrderEvent::to_json` (backend/src/event/OrderEvent.cpp), `FillEvent::to_json` and the names of
-- event types (backend/include/titanx/event).
use titan_x.Prelude.{[], ◌∷◌, Option, none, some}
use titan_x.Prelude.Int.{pos}
use titan_x.Prelude.Text.{Text, codes}
use titan_x.Prelude.Floats.{Floats}
use titan_x.Event.OrderEvent.{
  EventType, order_received, order_resting, order_partially_filled, order_filled, order_cancelled,
  order_rejected, circuit_breaker_triggered, engine_halted, engine_resumed, OrderEvent,
}
use titan_x.Event.FillEvent.{FillEvent}
use titan_x.Model.Trade.{Trade}
use titan_x.Serialization.Library.{JsonLibrary}
use titan_x.Serialization.Orders.{order_to_json, trade_to_json, millis}

unfoldable pub to_string : EventType → Text
to_string order_received = codes "ORDER_RECEIVED"
to_string order_resting = codes "ORDER_RESTING"
to_string order_partially_filled = codes "ORDER_PARTIALLY_FILLED"
to_string order_filled = codes "ORDER_FILLED"
to_string order_cancelled = codes "ORDER_CANCELLED"
to_string order_rejected = codes "ORDER_REJECTED"
to_string circuit_breaker_triggered = codes "CIRCUIT_BREAKER_TRIGGERED"
to_string engine_halted = codes "ENGINE_HALTED"
to_string engine_resumed = codes "ENGINE_RESUMED"

module _ (F : Floats) (J : JsonLibrary F) where
  abbrev optional_trade : Option Trade → J.Json
  optional_trade none = J.null
  optional_trade (some t) = trade_to_json F J t

  abbrev reason_or_null : Text → J.Json
  reason_or_null [] = J.null
  reason_or_null (c ∷ s) = J.of_text (c ∷ s)

  unfoldable pub event_to_json : OrderEvent → J.Json
  unfolding to_string
  event_to_json e = J.object (
      (codes "eventId", J.of_text e.event_id)
      ∷ (codes "type", J.of_text (to_string e.type))
      ∷ (codes "orderId", J.of_text e.order_id)
      ∷ (codes "accountId", J.of_text e.account_id)
      ∷ (codes "symbol", J.of_text e.symbol)
      ∷ (codes "orderSnapshot", order_to_json F J e.order_snapshot)
      ∷ (codes "trade", optional_trade e.trade)
      ∷ (codes "rejectionReason", reason_or_null e.rejection_reason)
      ∷ (codes "latencyMicros", J.of_int (pos e.latency_micros))
      ∷ (codes "occurredAt", J.of_int (millis e.occurred_at))
      ∷ [])

  unfoldable pub fill_to_json : FillEvent → J.Json
  fill_to_json f = J.object (
      (codes "trade", trade_to_json F J f.trade)
      ∷ (codes "matchingLatencyMicros", J.of_int (pos f.matching_latency_micros))
      ∷ (codes "publishedAt", J.of_int (millis f.published_at))
      ∷ [])
