-- ===== src/Wiring/Examples.antt =====
-- An exchange with the consumers of `main`, runs of it, and the properties at them.
use titan_x.Prelude.{◌≡◌, refl, All, true, false, List, [], ◌∷◌, some, none, map, if◌then◌else◌}
use titan_x.Prelude.Int.{pos, ◌+ℤ◌, ◌-ℤ◌, ◌*ℤ◌, abs, min_ℤ}
use titan_x.Prelude.Text.{Text, codes, text_eq}
use titan_x.Prelude.Map.{lookup, insert}
use titan_x.Model.OrderSide.{buy}
use titan_x.Model.Order
use titan_x.Model.Order.{Order}
use titan_x.Engine.Levels.{push_back, put_back}
use titan_x.Model.Trade.{Trade}
use titan_x.Event.FillEvent.{FillEvent}
use titan_x.Risk.CircuitBreaker
use titan_x.Risk.RiskEngine
use titan_x.Risk.RiskEngine.{RiskEngine, get_net_position, check_pre_trade}
use titan_x.Engine.OrderBook
use titan_x.Engine.OrderBook.{OrderBook, opposite, crosses, match_limit, sweep}
use titan_x.Engine.Sweep.{match_levels, match_level, fill}
use titan_x.Engine.OrderBook.Cancel.{Removed}
use titan_x.Engine.Sweep.Execution
use titan_x.Engine.Sweep.Execution.{filled, entries}
use titan_x.Engine.MatchingEngine.{init, Exchange, halt, submit, cancel, book_of, get_or_create}
use titan_x.Engine.MatchingEngine.Soundness.{IsSound}
use titan_x.Engine.MatchingEngine.Answers.{submit-refines}
use titan_x.Engine.MatchingEngine.Cancellation.{cancel-Removed}
use titan_x.Wiring.{Calls, no_calls, consumers, on_fill}
use titan_x.Wiring.Tells.{Tells}
use titan_x.Wiring.Journal.{journal, submit-Tells}
use titan_x.Wiring.Balance.{net, Reach-net}
use titan_x.Wiring.SelfTrade.{HasTwo, Reach-HasTwo}
use titan_x.Wiring.Reachability.{Reach, Reach-IsSound, here, next, submits, halts}
use titan_x.Wiring.Fills.{on_fill_lem, submit-consumers}
use titan_x.Wiring.Samples.{world, ask, bid, ask-IsAcceptable, bid-IsAcceptable}

abbrev opening : Exchange Calls
opening = record {
  engine = init;
  risk = RiskEngine.init CircuitBreaker.empty;
  outside = no_calls;
  world = world;
}

opening-IsSound : IsSound opening.engine opening.risk
unfolding lookup
opening-IsSound = record { valid = λ s b e. cc; known = λ s b e. cc; no_stops = refl }

abbrev answer : Order → Exchange Calls → List Trade × Exchange Calls
answer o x = elim (submit consumers o x) [ none ↦ ([], x) | some r ↦ r ]

abbrev quoted : Exchange Calls
quoted = (answer ask opening).1

abbrev traded : List Trade × Exchange Calls
traded = answer bid quoted

abbrev checked : RiskEngine.RiskResult × RiskEngine
checked = elim (check_pre_trade bid quoted.risk) [
  | none ↦ (record { approved = false; reason = [] }, quoted.risk)
  | some r ↦ r
]

abbrev aapl : OrderBook
aapl = book_of (codes "AAPL") quoted.engine

abbrev resting : Order
resting = elim (lookup (codes "1") aapl.order_index) [ none ↦ ask | some o ↦ o ]

record Runs : Type 0 where
  ask_submitted : submit consumers ask opening ≡ some ([], quoted)
  bid_submitted : submit consumers bid quoted ≡ some (traded.0, traded.1)
  bid_checked : check_pre_trade bid quoted.risk ≡ some (checked.0, checked.1)
  bid_approved : checked.0.approved ≡ true
  quoted_running : quoted.engine.halted ≡ false
  aapl_open : lookup (codes "AAPL") quoted.engine.books ≡ some aapl
  aapl_locked : lookup (codes "AAPL") quoted.engine.locks ≡ some tt
  ask_rests : lookup (codes "1") aapl.order_index ≡ some resting

runs : Runs
unfolding submit check_pre_trade CircuitBreaker.is_halted lookup RiskEngine.over_notional ◌*ℤ◌
    RiskEngine.over_position abs RiskEngine.fat_finger RiskEngine.self_trade OrderBook.match
    match_limit sweep match_levels get_or_create OrderBook.init insert text_eq ◌+ℤ◌
    OrderBook.insert_into_book Order.with_remaining_quantity push_back put_back match_level fill
    min_ℤ consumers on_fill RiskEngine.update_last_trade_price CircuitBreaker.record_trade
    RiskEngine.record_fill
runs = record {
  ask_submitted = refl;
  bid_submitted = refl;
  bid_checked = refl;
  bid_approved = refl;
  quoted_running = refl;
  aapl_open = refl;
  aapl_locked = refl;
  ask_rests = refl;
}

quoted-IsSound : IsSound quoted.engine quoted.risk
quoted-IsSound =
    submit-consumers ask opening [] quoted ask-IsAcceptable opening-IsSound runs.ask_submitted

submit-refines_example :
    map filled traded.0
    ≡ Execution.execute
        (crosses bid)
        7
        (entries (opposite bid (book_of (codes "AAPL") quoted.engine)))
submit-refines_example =
    submit-refines consumers bid quoted checked.0 checked.1 traded.0 traded.1 bid-IsAcceptable
      quoted-IsSound refl runs.quoted_running runs.bid_checked runs.bid_approved runs.bid_submitted

cancel-Removed_example :
    (b' : OrderBook) × (cancel (codes "AAPL") (codes "1") quoted.engine
      ≡ (true, record quoted.engine { books = insert (codes "AAPL") b' quoted.engine.books }))
    × Removed (codes "1") aapl b'
cancel-Removed_example =
    cancel-Removed (codes "AAPL") (codes "1") quoted.engine quoted.risk aapl resting quoted-IsSound
      runs.aapl_open runs.aapl_locked runs.ask_rests

abbrev bought : FillEvent
bought = record {
  trade = record {
    trade_id = codes "t";
    symbol = codes "AAPL";
    aggressor_order_id = codes "2";
    aggressor_account_id = codes "bob";
    passive_order_id = codes "1";
    passive_account_id = codes "ann";
    price = pos 100000000;
    quantity = pos 7;
    aggressor_side = buy;
    executed_at = 3;
  };
  matching_latency_micros = 2;
  published_at = 4;
}

abbrev filled_up : RiskEngine × Calls
filled_up = elim (on_fill bought 9 (opening.risk, no_calls)) [
  | none ↦ (opening.risk, no_calls)
  | some z ↦ z
]

bought_returns : on_fill bought 9 (opening.risk, no_calls) ≡ some (filled_up.0, filled_up.1)
unfolding on_fill RiskEngine.update_last_trade_price CircuitBreaker.record_trade
    RiskEngine.record_fill lookup
bought_returns = refl

on_fill_example :
    ((a y : Text)
      → get_net_position a y filled_up.0 ≡ (
          if text_eq (codes "bob") a
          then if text_eq (codes "AAPL") y
            then get_net_position a y opening.risk +ℤ pos 7
            else get_net_position a y opening.risk
          else get_net_position a y opening.risk))
    × (filled_up.1.position_updates
        ≡ (codes "bob", codes "AAPL", pos 7) ∷ (codes "ann", codes "AAPL", pos 0 -ℤ pos 7) ∷ [])
on_fill_example = on_fill_lem bought 9 opening.risk no_calls filled_up.0 filled_up.1 bought_returns

-- An ask, a bid that takes it, and a halt.
abbrev halted_at_last : Exchange Calls
halted_at_last = record traded.1 { engine = halt traded.1.engine }

session : Reach opening halted_at_last
session =
    next
      (next (next here (submits ask [] ask-IsAcceptable runs.ask_submitted))
        (submits bid traded.0 bid-IsAcceptable runs.bid_submitted))
      (halts refl)

Reach-IsSound_example : IsSound halted_at_last.engine halted_at_last.risk
Reach-IsSound_example = Reach-IsSound opening halted_at_last refl session

Reach-net_example : net (codes "AAPL") (pos 0) halted_at_last.outside.position_updates ≡ pos 0
Reach-net_example = Reach-net (codes "AAPL") opening halted_at_last refl session

submit-Tells_example : Tells quoted.outside traded.1.outside (journal bid quoted traded.0) traded.0
submit-Tells_example = submit-Tells bid quoted traded.0 traded.1 runs.bid_submitted

Reach-HasTwo_example : All HasTwo halted_at_last.outside.published
Reach-HasTwo_example = Reach-HasTwo opening halted_at_last refl refl session
