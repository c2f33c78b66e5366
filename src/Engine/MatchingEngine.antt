-- ===== src/Engine/MatchingEngine.antt =====
-- class MatchingEngine (backend/src/engine/MatchingEngine.cpp and its header), with the objects
-- that it refers to: the risk engine, the state S of the two consumers, and the clocks. An
-- operation runs as a whole, under the lock of its symbol. An exception of the event consumer is
-- caught by `emit`: what the consumer did until then is its result. The fill consumer may fail to
-- return, which is `none`.
pub mod Answers
pub mod Cancellation
pub mod Soundness
pub mod Submission
pub mod SelfTrade
pub mod Absence
use titan_x.Prelude.{
  ℕ, ◌+◌, ◌-◌, ◌/◌, Bool, true, false, List, [], ◌∷◌, ◌++◌, Option, none, some, if◌then◌else◌,
  ◌>>=◌,
}
use titan_x.Prelude.Int.{ℤ, pos, leb_ℤ}
use titan_x.Prelude.Text.{Text, codes}
use titan_x.Prelude.Map.{Map, lookup, insert}
use titan_x.Model.World.{World, now}
use titan_x.Model.OrderType.{OrderType, limit}
use titan_x.Model.Order
use titan_x.Model.Order.{Order, is_buy}
use titan_x.Model.Trade.{Trade}
use titan_x.Event.OrderEvent
use titan_x.Event.OrderEvent.{OrderEvent, Build}
use titan_x.Event.FillEvent
use titan_x.Event.FillEvent.{FillEvent}
use titan_x.Risk.RiskEngine.{RiskEngine, check_pre_trade}
use titan_x.Engine.OrderBook
use titan_x.Engine.OrderBook.{OrderBook, OrderBookSnapshot}

pub record MatchingEngine : Type 0 where
  pub books : Map OrderBook
  pub locks : Map (Unit {0})
  pub stop_orders : Map (List Order)
  pub halted : Bool

abbrev pub init : MatchingEngine
init = record { books = []; locks = []; stop_orders = []; halted = false }

-- The engine among what it calls.
pub record Exchange (S : Type 0) : Type 0 where
  pub engine : MatchingEngine
  pub risk : RiskEngine
  pub outside : S
  pub world : World

-- `eventConsumer_` and `fillConsumer_`.
pub record Consumers (S : Type 0) : Type 0 where
  pub on_event : OrderEvent → S → S
  pub on_fill : FillEvent → ℕ → RiskEngine × S → Option (RiskEngine × S)

-- The consumers of an engine on which none was set.
abbrev pub no_consumers : Consumers (Unit {0})
no_consumers = record { on_event = λ e s. s; on_fill = λ f at z. some z }

abbrev pub book_of : Text → MatchingEngine → OrderBook
book_of symbol m = elim (lookup symbol m.books) [ none ↦ OrderBook.init symbol | some b ↦ b ]

-- `getOrCreateBook` and `getOrCreateLock`, which only add what is missing.
unfoldable pub get_or_create : Text → MatchingEngine → OrderBook × MatchingEngine
get_or_create symbol m =
    let b = book_of symbol m in
    (b, record m { books = insert symbol b m.books; locks = insert symbol tt m.locks })

abbrev pub triggered : ℤ → Order → Bool
triggered last_price stop =
    if is_buy stop then leb_ℤ stop.stop_price last_price else leb_ℤ last_price stop.stop_price

-- `remove_if` with its collection of the removed: the kept and the triggered, each in order.
unfoldable pub take_triggered : ℤ → List Order → List Order × List Order
take_triggered last_price [] = ([], [])
take_triggered last_price (stop ∷ stops) =
    let (kept, taken) = take_triggered last_price stops in
    if triggered last_price stop then (kept, stop ∷ taken) else (stop ∷ kept, taken)

-- `for (const auto& stop : toActivate)`; the trades of the activated orders are dropped.
unfoldable pub activate : List Order → OrderBook → World → OrderBook × World
activate [] b w = (b, w)
activate (stop ∷ stops) b w =
    let (o, w1) =
      Order.create stop.account_id stop.symbol stop.side limit stop.price (pos 0)
        stop.remaining_quantity w in
    let (_, b1, w2) = OrderBook.match o b w1 in activate stops b1 w2

unfoldable pub check_stop_triggers :
    Text → OrderBook → Map (List Order) → World → OrderBook × Map (List Order) × World
check_stop_triggers symbol b stop_orders w = elim (lookup symbol stop_orders) [
  | none ↦ (b, stop_orders, w)
  | some pending ↦ elim b.last_trade_price [
    | none ↦ (b, stop_orders, w)
    | some last_price ↦
        let (kept, taken) = take_triggered last_price pending in
        let (b1, w1) = activate taken b w in (b1, insert symbol kept stop_orders, w1)
  ]
]

abbrev pub is_limit : OrderType → Bool
is_limit limit = true
is_limit _ = false

module _ {S : Type 0} (c : Consumers S) where
  unfoldable pub emit : Build → Exchange S → Exchange S
  emit build x =
      let (e, w) = build x.world in record x { outside = c.on_event e x.outside; world = w }

  -- `for (const auto& trade : trades)`; the consumer reads the steady clock in its turn.
  unfoldable pub report_fills : Order → ℕ → List Trade → Exchange S → Option (Exchange S)
  unfolding emit
  report_fills o latency_micros [] x = some x
  report_fills o latency_micros (t ∷ ts) x =
      let (fill, w1) = FillEvent.create t latency_micros x.world in
      let (at, w2) = now w1 in
      elim (c.on_fill fill at (x.risk, x.outside)) [
        | none ↦ none
        | some r ↦
            report_fills o latency_micros ts
              (emit (OrderEvent.filled o t) (record x { risk = r.0; outside = r.1; world = w2 }))
      ]

  -- Steps 5 and 6 of `submit`: the stop triggers after trades, or the confirmation that an order
  -- rests.
  unfoldable pub settle : Order → OrderBook → List Trade → Exchange S → Exchange S
  unfolding emit
  settle o b [] x = if is_limit o.type then emit (OrderEvent.resting o) x else x
  settle o b (t ∷ ts) x =
      let (b', stops, w) = check_stop_triggers o.symbol b x.engine.stop_orders x.world in
      record x {
        engine = record x.engine { books = insert o.symbol b' x.engine.books; stop_orders = stops };
        world = w;
      }

  -- `submit` after the risk check: receipt, the matching under the lock, reports and the last
  -- steps.
  unfoldable pub execute : Order → Exchange S → Option (List Trade × Exchange S)
  unfolding emit report_fills settle
  execute o x = do
    let opened = get_or_create o.symbol x.engine
    let x1 = emit (OrderEvent.received o) (record x { engine = opened.1 })
    let started = now x1.world
    let matched = OrderBook.match o opened.0 started.1
    let ended = now matched.2
    let x2 : Exchange S = record x1 {
      engine = record opened.1 { books = insert o.symbol matched.1 opened.1.books };
      world = ended.1;
    }
    x3 ← report_fills o ((ended.0 - started.0) / 1000) matched.0 x2
    some (matched.0, settle o matched.1 matched.0 x3)

  unfoldable pub submit : Order → Exchange S → Option (List Trade × Exchange S)
  unfolding emit execute
  submit o x =
      if x.engine.halted
      then some ([], emit (OrderEvent.rejected o (codes "ENGINE_HALTED")) x)
      else elim (check_pre_trade o x.risk) [
        | none ↦ none
        | some (r, risk) ↦
            let x1 : Exchange S = record x { risk = risk } in
            if r.approved then execute o x1 else some ([], emit (OrderEvent.rejected o r.reason) x1)
      ]

unfoldable pub cancel : Text → Text → MatchingEngine → Bool × MatchingEngine
cancel symbol order_id m = elim (lookup symbol m.books) [
  | none ↦ (false, m)
  | some b ↦ elim (lookup symbol m.locks) [
    | none ↦ (false, m)
    | some _ ↦
        let (b', removed) = OrderBook.remove_from_book order_id b in
        (removed, record m { books = insert symbol b' m.books })
  ]
]

unfoldable pub get_snapshot : Text → ℤ → MatchingEngine → Option OrderBookSnapshot
get_snapshot symbol depth m = elim (lookup symbol m.books) [
  | none ↦ none
  | some b ↦ elim (lookup symbol m.locks) [
    | none ↦ none
    | some _ ↦ some (OrderBook.snapshot b depth)
  ]
]

unfoldable pub halt : MatchingEngine → MatchingEngine
halt m = record m { halted = true }

unfoldable pub resume : MatchingEngine → MatchingEngine
resume m = record m { halted = false }
