-- ===== src/Wiring/Fills.antt =====
-- What the fill consumer of `main` does to the positions, and the engine with that consumer.
use titan_x.Prelude.{
  ℕ, ◌≡◌, refl, subst, List, [], ◌∷◌, ◌++◌, some, if◌then◌else◌, arith, >>=-eq-some,
}
use titan_x.Prelude.Int.{ℤ, pos, ◌-ℤ◌, ◌+ℤ◌}
use titan_x.Prelude.Text.{Text, text_eq}
use titan_x.Model.Order.{Order}
use titan_x.Model.Trade.{Trade}
use titan_x.Event.FillEvent.{FillEvent}
use titan_x.Risk.RiskEngine.{RiskEngine, record_fill, update_last_trade_price, get_net_position}
use titan_x.Risk.RiskEngine.History.{Step, Step-Remembers, Remembers, Remembers-trans}
use titan_x.Risk.RiskEngine.Positions.{get_net_position-record_fill}
use titan_x.Engine.MatchingEngine.{Exchange, submit}
use titan_x.Engine.MatchingEngine.Soundness.{IsSound, IsAcceptable}
use titan_x.Engine.MatchingEngine.Submission.{IsKeeping, submit-IsSound}
use titan_x.Wiring.{Calls, on_fill, consumers, signed}

pub consumers-IsKeeping : IsKeeping consumers
unfolding consumers on_fill
consumers-IsKeeping f at r s z h =
    let t = f.trade in
    let r1 = record_fill t.aggressor_account_id t.symbol t.aggressor_side t.quantity r in
    let (r2, e, d) = >>=-eq-some (update_last_trade_price t.symbol t.price at r1) _ h in
    let a =
      Step-Remembers {e = r} {e' = r1}
        (Step.fills t.aggressor_account_id t.symbol t.aggressor_side t.quantity refl) in
    let b = Step-Remembers (Step.prices t.symbol t.price at e) in
    let same : r2 ≡ z.0 = ground (arith, d) in subst (Remembers r) same (Remembers-trans a b)

prices_only :
    (symbol : Text) (price : ℤ) (at : ℕ) (r r' : RiskEngine)
    → update_last_trade_price symbol price at r ≡ some r'
    → (a s : Text) → get_net_position a s r' ≡ get_net_position a s r
unfolding update_last_trade_price get_net_position
prices_only symbol price at r r' h a s =
    let same : r'.positions ≡ r.positions = ground arith in rw same refl

-- When the fill consumer returns, the risk engine's position of the aggressor in the symbol has
-- moved by the signed quantity and every other position is as it was, that of the passive account
-- included, while the position cache was told to move both accounts.
pub on_fill_lem :
    (f : FillEvent) (at : ℕ) (r : RiskEngine) (s : Calls) (r' : RiskEngine) (s' : Calls)
    → on_fill f at (r, s) ≡ some (r', s')
    → let t = f.trade in
      let delta = signed t.aggressor_side t.quantity in
      ((a y : Text)
        → get_net_position a y r' ≡ (
            if text_eq t.aggressor_account_id a
            then if text_eq t.symbol y
              then get_net_position a y r +ℤ delta
              else get_net_position a y r
            else get_net_position a y r))
      × (s'.position_updates
          ≡ s.position_updates
            ++ (t.aggressor_account_id, t.symbol, delta)
              ∷ (t.passive_account_id, t.symbol, pos 0 -ℤ delta)
              ∷ [])
unfolding on_fill
on_fill_lem f at r s r' s' h =
    let t = f.trade in
    let r1 = record_fill t.aggressor_account_id t.symbol t.aggressor_side t.quantity r in
    let (r2, e, d) = >>=-eq-some (update_last_trade_price t.symbol t.price at r1) _ h in
    let same : r2 ≡ r' = ground (arith, d) in
    (
      (λ a y. rw (rw same at (prices_only t.symbol t.price at r1 r2 e a y)) (
          get_net_position-record_fill t.aggressor_account_id t.symbol a y t.aggressor_side
            t.quantity r)),
      ground (arith, d),
    )

-- With the consumers of `main`, when `submit` returns for an order with a remaining quantity below
-- 2^63 and, if it is LIMIT or IOC, a price other than 0, a sound engine is left sound: every book
-- is valid, with ids that the risk engine has seen, accounts that it has on record for their side
-- and no price 0, and no stop orders are pending.
pub submit-consumers :
    (o : Order) (x : Exchange Calls) (ts : List Trade) (x' : Exchange Calls)
    → IsAcceptable o
    → IsSound x.engine x.risk
    → submit consumers o x ≡ some (ts, x')
    → IsSound x'.engine x'.risk
submit-consumers o x ts x' = submit-IsSound consumers o x ts x' consumers-IsKeeping
