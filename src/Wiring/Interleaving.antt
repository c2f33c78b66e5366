-- ===== src/Wiring/Interleaving.antt =====
-- Submissions of several threads (`MatchingEngine::submit`): between the risk check of an order and
-- the rest of its submission, those of other orders may fall. The check runs under the mutex of the
-- risk engine; the rest, `execute`, is one step here.
pub mod Executions
pub mod Safety
mod Examples
use titan_x.Prelude.{
  ℕ, ◌≡◌, ◌≢◌, refl, sym, subst, true, false, List, [], ◌∷◌, ◌++◌, some, All, arith, Bool-cases,
  inl, inr,
}
use titan_x.Prelude.Text.{Text, codes}
use titan_x.Model.World.{World}
use titan_x.Risk.CircuitBreaker.{CircuitBreaker}
use titan_x.Model.OrderSide.{buy, sell}
use titan_x.Model.Order.{Order, is_buy}
use titan_x.Model.Trade.{Trade}
use titan_x.Event.OrderEvent
use titan_x.Event.FillEvent.{FillEvent}
use titan_x.Risk.RiskEngine.{
  RiskEngine, RiskResult, has, check_pre_trade, record_fill, update_last_trade_price,
}
use titan_x.Risk.RiskEngine.History.{
  Remembers, Remembers-refl, Remembers-trans, has_side, check-Remembers, approved_records,
  refused_if_seen,
}
use titan_x.Risk.RiskEngine.OneSide.{IsOneSided, check-IsOneSided}
use titan_x.Engine.OrderBook.Counterparties.{other_side}
use titan_x.Engine.MatchingEngine.{Exchange, emit, execute, cancel, halt, resume}
use titan_x.Engine.MatchingEngine.Soundness.{IsSound, IsAcceptable, weaken, Remembers-side}
use titan_x.Engine.MatchingEngine.Submission.{execute-IsSound}
use titan_x.Engine.MatchingEngine.Cancellation.{cancel-IsSound}
use titan_x.Engine.MatchingEngine.SelfTrade.{AreApart, execute-AreApart}
use titan_x.Engine.MatchingEngine.Absence.{
  IsAbsent, book_of-absent, execute-IsAbsent, execute_inv, cancel-IsAbsent,
}
use titan_x.Wiring.{Calls, consumers, on_fill}
use titan_x.Wiring.Fills.{consumers-IsKeeping}

-- The exchange, and the orders that were approved and not yet executed.
pub record Race : Type 0 where
  pub exchange : Exchange Calls
  pub approved : List Order

pub data Step (s s' : Race) : Type 0 where
  approves :
      (o : Order) (r : RiskResult) (e : RiskEngine)
      → IsAcceptable o
      → check_pre_trade o s.exchange.risk ≡ some (r, e)
      → r.approved ≡ true
      → s' ≡ record { exchange = record s.exchange { risk = e }; approved = o ∷ s.approved }
      → Step s s'
  refuses :
      (o : Order) (r : RiskResult) (e : RiskEngine)
      → check_pre_trade o s.exchange.risk ≡ some (r, e)
      → s' ≡ record s {
        exchange = emit consumers (OrderEvent.rejected o r.reason) (record s.exchange { risk = e });
      }
      → Step s s'
  executes :
      (before after : List Order) (o : Order) (ts : List Trade) (x : Exchange Calls)
      → s.approved ≡ before ++ o ∷ after
      → execute consumers o s.exchange ≡ some (ts, x)
      → s' ≡ record { exchange = x; approved = before ++ after }
      → Step s s'
  cancels :
      (symbol id : Text)
      → s' ≡ record s {
        exchange = record s.exchange { engine = (cancel symbol id s.exchange.engine).1 };
      }
      → Step s s'
  -- The kill switch: a submission that finds it set.
  turns_away :
      (o : Order)
      → s.exchange.engine.halted ≡ true
      → s' ≡ record s {
        exchange = emit consumers (OrderEvent.rejected o (codes "ENGINE_HALTED")) s.exchange;
      }
      → Step s s'
  halts :
      s' ≡ record s { exchange = record s.exchange { engine = halt s.exchange.engine } } → Step s s'
  resumes :
      s' ≡ record s { exchange = record s.exchange { engine = resume s.exchange.engine } }
      → Step s s'
  breaks :
      (c : CircuitBreaker)
      → s' ≡ record s {
        exchange = record s.exchange { risk = record s.exchange.risk { circuit_breaker = c } };
      }
      → Step s s'
  -- A reading of a clock, or a draw of a random number, outside of the engine.
  reads : (w : World) → s' ≡ record s { exchange = record s.exchange { world = w } } → Step s s'

pub data Reach (s : Race) : Race → Type 0 where
  here : Reach s s
  next : {t u : Race} → Reach s t → Step t u → Reach s u

-- An approved order can be executed.
pub record IsWaiting (x : Exchange Calls) (o : Order) : Type 0 where
  pub acceptable : IsAcceptable o
  pub seen : has o.order_id x.risk.seen_order_ids ≡ true
  pub taken : has_side o.side o.account_id x.risk ≡ true
  pub absent : IsAbsent o.order_id x.engine

abbrev pub AreDistinct : List Order → Type 0
AreDistinct [] = Unit
AreDistinct (o ∷ os) = All (λ (p : Order). o.order_id ≢ p.order_id) os × AreDistinct os

pub record IsOrderly (s : Race) : Type 0 where
  pub sound : IsSound s.exchange.engine s.exchange.risk
  pub one_sided : IsOneSided s.exchange.risk
  pub waiting : All (λ (o : Order). IsWaiting s.exchange o) s.approved
  pub distinct : AreDistinct s.approved

pub on_fill-IsOneSided :
    (f : FillEvent) (at : ℕ) (r : RiskEngine) (s : Calls) (z : RiskEngine × Calls)
    → consumers.on_fill f at (r, s) ≡ some z
    → IsOneSided r
    → IsOneSided z.0
unfolding consumers on_fill record_fill update_last_trade_price
on_fill-IsOneSided f at r s z run h a k = ground (arith, run, h a, k)

-- What holds of each order but one, when that one is taken out.
module _ (P : Order → Type 0) where
  pub without :
      (before after : List Order) (o : Order)
      → All P (before ++ o ∷ after)
      → P o × All P (before ++ after)
  without [] after o h = h
  without (b ∷ before) after o h = let (p, rest) = without before after o h.1 in (p, (h.0, rest))

  pub weaken_all :
      (Q : Order → Type 0) (os : List Order) → ((o : Order) → P o → Q o) → All P os → All Q os
  weaken_all Q [] f h = tt
  weaken_all Q (o ∷ os) f h = (f o h.0, weaken_all Q os f h.1)

pub others :
    (before after : List Order) (o : Order)
    → AreDistinct (before ++ o ∷ after)
    → All (λ (p : Order). o.order_id ≢ p.order_id) (before ++ after) × AreDistinct (before ++ after)
others [] after o h = h
others (b ∷ before) after o h =
    let (d, rest) = without (λ (p : Order). b.order_id ≢ p.order_id) before after o h.0 in
    let (away, apart) = others before after o h.1 in (((λ e. d (sym e)), away), (rest, apart))
