-- ===== src/Risk/RiskEngine/OneSide.antt =====
-- No account is on record for both sides.
use titan_x.Prelude.{◌≡◌, true, false, some, none, arith, Bool-cases, inl, inr, ◌+◌, ◌%◌, ◌^◌, []}
use titan_x.Prelude.Text.{Text, text_eq, text_eq_iff}
use titan_x.Prelude.Map.{Map, lookup, insert, lookup-insert}
use titan_x.Model.OrderSide.{buy, sell}
use titan_x.Model.Order.{Order}
use titan_x.Risk.RiskEngine.{
  RiskEngine, RiskResult, TextSet, active, add_active, reject, track_order, check_order,
  check_pre_trade, self_trade,
}
use titan_x.Risk.RiskEngine.History.{has_side}

abbrev pub IsOneSided : RiskEngine → Type 0
IsOneSided r = (a : Text) → has_side buy a r ≡ true → has_side sell a r ≡ false

active-add_active_other :
    (a b id : Text) (m : Map TextSet)
    → text_eq b a ≡ false
    → active a (add_active b id m) ≡ active a m
active-add_active_other a b id m h =
    let inner : TextSet = elim (lookup b m) [ none ↦ [] | some s ↦ s ] in
    ground (arith, h, lookup-insert b a (insert id tt inner) m)

check_order-IsOneSided :
    (o : Order) (e : RiskEngine) → IsOneSided e → IsOneSided (check_order o e).1
unfolding check_order reject track_order self_trade
check_order-IsOneSided o e h a k = elim (Bool-cases (text_eq o.account_id a)) [
  | inr n ↦
      let b = active-add_active_other a o.account_id o.order_id e.active_buy_orders n in
      let s = active-add_active_other a o.account_id o.order_id e.active_sell_orders n in
      ground (arith, h a, b, s, k)
  | inl y ↦
      let same : o.account_id ≡ a = (text_eq_iff o.account_id a).0 y in ground (arith, h a, same, k)
]

pub check-IsOneSided :
    (o : Order) (e e' : RiskEngine) (r : RiskResult)
    → check_pre_trade o e ≡ some (r, e')
    → IsOneSided e
    → IsOneSided e'
unfolding check_pre_trade reject
check-IsOneSided o e e' r run h a k =
    let counted : RiskEngine = record e { total_checked = (e.total_checked + 1) % 2 ^ 64 } in
    ground (arith, run, h a, check_order-IsOneSided o counted h a, k)
