-- ===== src/Event/OrderEvent.antt =====
-- enum EventType and struct OrderEvent with its factories; the JSON form is in
-- Serialization/Events.
use titan_x.Prelude.{ℕ, [], Option, none, some}
use titan_x.Prelude.Text.{Text}
use titan_x.Model.World.{World, now}
use titan_x.Model.Uuid.{generate_uuid}
use titan_x.Model.Order.{Order}
use titan_x.Model.Trade.{Trade}

pub data EventType : Type 0 where
  order_received : EventType
  order_resting : EventType
  order_partially_filled : EventType
  order_filled : EventType
  order_cancelled : EventType
  order_rejected : EventType
  circuit_breaker_triggered : EventType
  engine_halted : EventType
  engine_resumed : EventType

pub record OrderEvent : Type 0 where
  pub event_id : Text
  pub type : EventType
  pub order_id : Text
  pub account_id : Text
  pub symbol : Text
  pub order_snapshot : Order
  pub trade : Option Trade
  pub rejection_reason : Text
  pub latency_micros : ℕ
  pub occurred_at : ℕ

abbrev pub Build : Type 0
Build = World → OrderEvent × World

unfoldable pub build : EventType → Order → Option Trade → Text → ℕ → Build
unfolding now
build type o trade reason latency_micros w =
    let (id, w1) = generate_uuid w in
    let (t, w2) = now w1 in
    (
      record {
        event_id = id;
        type = type;
        order_id = o.order_id;
        account_id = o.account_id;
        symbol = o.symbol;
        order_snapshot = o;
        trade = trade;
        rejection_reason = reason;
        latency_micros = latency_micros;
        occurred_at = t;
      },
      w2,
    )

abbrev pub received : Order → Build
received o = build order_received o none [] 0

abbrev pub resting : Order → Build
resting o = build order_resting o none [] 0

abbrev pub filled : Order → Trade → Build
filled o t = build order_filled o (some t) [] 0

abbrev pub partially_filled : Order → Trade → Build
partially_filled o t = build order_partially_filled o (some t) [] 0

abbrev pub cancelled : Order → Build
cancelled o = build order_cancelled o none [] 0

abbrev pub rejected : Order → Text → Build
rejected o reason = build order_rejected o none reason 0
