-- ===== src/Wiring/Interleaving/Examples.antt =====
-- An ask and a bid of two threads: both are checked before either is executed, and the bid is executed
-- first.
use titan_x.Prelude.{◌≡◌, refl, All, true, false, List, [], ◌∷◌, some, none}
use titan_x.Prelude.Int.{◌+ℤ◌, ◌*ℤ◌, abs, min_ℤ}
use titan_x.Prelude.Text.{text_eq}
use titan_x.Prelude.Map.{lookup, insert}
use titan_x.Model.Order
use titan_x.Model.Order.{Order}
use titan_x.Engine.Levels.{push_back, put_back}
use titan_x.Model.Trade.{Trade}
use titan_x.Risk.CircuitBreaker
use titan_x.Risk.RiskEngine
use titan_x.Risk.RiskEngine.{RiskEngine, get_net_position, check_pre_trade}
use titan_x.Engine.OrderBook
use titan_x.Engine.OrderBook.{OrderBook, opposite, crosses, match_limit, sweep}
use titan_x.Engine.Sweep.{match_levels, match_level, fill}
use titan_x.Engine.MatchingEngine.{Exchange, submit, get_or_create}
use titan_x.Wiring.{Calls, consumers, on_fill}
use titan_x.Wiring.SelfTrade.{HasTwo}
use titan_x.Risk.RiskEngine.{RiskResult}
use titan_x.Engine.MatchingEngine.{execute}
use titan_x.Prelude.{All}
use titan_x.Wiring.Samples.{world, ask, bid, ask-IsAcceptable, bid-IsAcceptable}
use titan_x.Wiring.Interleaving.{Race, Reach, approves, executes, IsOrderly}
use titan_x.Wiring.Interleaving.Safety.{start, start-HasTwo}

abbrev opening : Race
opening = start CircuitBreaker.empty world

abbrev checked : Order → RiskEngine → RiskResult × RiskEngine
checked o r = elim (check_pre_trade o r) [
  | none ↦ (record { approved = false; reason = [] }, r)
  | some z ↦ z
]

abbrev executed : Order → Exchange Calls → List Trade × Exchange Calls
executed o x = elim (execute consumers o x) [ none ↦ ([], x) | some z ↦ z ]

abbrev first : RiskResult × RiskEngine
first = checked ask opening.exchange.risk

abbrev second : RiskResult × RiskEngine
second = checked bid first.1

abbrev both_approved : Exchange Calls
both_approved = record opening.exchange { risk = second.1 }

abbrev bid_done : List Trade × Exchange Calls
bid_done = executed bid both_approved

abbrev ask_done : List Trade × Exchange Calls
ask_done = executed ask bid_done.1

record Turns : Type 0 where
  ask_checked : check_pre_trade ask opening.exchange.risk ≡ some (first.0, first.1)
  ask_approved : first.0.approved ≡ true
  bid_checked : check_pre_trade bid first.1 ≡ some (second.0, second.1)
  bid_approved : second.0.approved ≡ true
  bid_executed : execute consumers bid both_approved ≡ some (bid_done.0, bid_done.1)
  ask_executed : execute consumers ask bid_done.1 ≡ some (ask_done.0, ask_done.1)

turns : Turns
unfolding submit check_pre_trade CircuitBreaker.is_halted lookup RiskEngine.over_notional ◌*ℤ◌
    RiskEngine.over_position abs RiskEngine.fat_finger RiskEngine.self_trade OrderBook.match
    match_limit sweep match_levels get_or_create OrderBook.init insert text_eq ◌+ℤ◌
    OrderBook.insert_into_book Order.with_remaining_quantity push_back put_back match_level fill
    min_ℤ consumers on_fill RiskEngine.update_last_trade_price CircuitBreaker.record_trade
    RiskEngine.record_fill
turns = record {
  ask_checked = refl;
  ask_approved = refl;
  bid_checked = refl;
  bid_approved = refl;
  bid_executed = refl;
  ask_executed = refl;
}

abbrev all_done : Race
all_done = record { exchange = ask_done.1; approved = [] }

four_turns : Reach opening all_done
four_turns =
    Reach.next
      (Reach.next
        (Reach.next
          (Reach.next Reach.here (
            approves ask first.0 first.1 ask-IsAcceptable turns.ask_checked turns.ask_approved
              refl))
          (approves bid second.0 second.1 bid-IsAcceptable turns.bid_checked turns.bid_approved
            refl))
        (executes [] (ask ∷ []) bid bid_done.0 bid_done.1 refl turns.bid_executed refl))
      (executes [] [] ask ask_done.0 ask_done.1 refl turns.ask_executed refl)

start-HasTwo_example : IsOrderly all_done × All HasTwo all_done.exchange.outside.published
start-HasTwo_example = start-HasTwo CircuitBreaker.empty world all_done four_turns
