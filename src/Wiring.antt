-- ===== src/Wiring.antt =====
-- backend/src/main.cpp: the consumers that `main` installs in the engine. The state S of the
-- consumers is the calls that they have made on the event store and on the position cache.
pub mod Fills
pub mod Tells
pub mod Journal
pub mod Balance
pub mod SelfTrade
pub mod Interleaving
pub mod Reachability
pub mod Samples
mod Examples
use titan_x.Prelude.{ℕ, List, [], ◌∷◌, ◌++◌, Option, none, some, if◌then◌else◌, ◌>>=◌}
use titan_x.Prelude.Int.{ℤ, pos, ◌-ℤ◌}
use titan_x.Prelude.Text.{Text}
use titan_x.Model.OrderSide.{OrderSide, is_buy_side}
use titan_x.Model.Trade.{Trade}
use titan_x.Event.OrderEvent.{OrderEvent}
use titan_x.Event.FillEvent.{FillEvent}
use titan_x.Risk.RiskEngine.{RiskEngine, record_fill, update_last_trade_price}
use titan_x.Engine.MatchingEngine.{Consumers}

pub record Calls : Type 0 where
  pub appended : List OrderEvent
  pub position_updates : List (Text × Text × ℤ)
  pub published : List (Text × Trade)

abbrev pub no_calls : Calls
no_calls = record { appended = []; position_updates = []; published = [] }

-- The argument of `setEventConsumer`.
unfoldable pub on_event : OrderEvent → Calls → Calls
on_event e s = record s { appended = s.appended ++ e ∷ [] }

abbrev pub signed : OrderSide → ℤ → ℤ
signed side quantity = if is_buy_side side then quantity else pos 0 -ℤ quantity

-- The argument of `setFillConsumer`, at a reading of the steady clock.
unfoldable pub on_fill : FillEvent → ℕ → RiskEngine × Calls → Option (RiskEngine × Calls)
on_fill f now (r, s) = do
  let t = f.trade
  let delta = signed t.aggressor_side t.quantity
  let updates : List (Text × Text × ℤ) =
      (t.aggressor_account_id, t.symbol, delta)
      ∷ (t.passive_account_id, t.symbol, pos 0 -ℤ delta)
      ∷ []
  let s1 : Calls = record s {
    position_updates = s.position_updates ++ updates;
    published = s.published ++ (t.symbol, t) ∷ [];
  }
  let r1 = record_fill t.aggressor_account_id t.symbol t.aggressor_side t.quantity r
  r2 ← update_last_trade_price t.symbol t.price now r1
  some (r2, s1)

unfoldable pub consumers : Consumers Calls
consumers = record { on_event = on_event; on_fill = on_fill }
