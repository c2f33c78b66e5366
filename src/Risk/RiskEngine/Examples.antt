-- ===== src/Risk/RiskEngine/Examples.antt =====
-- An engine that has approved an order, and the properties at it.
use titan_x.Prelude.{◌≡◌, ◌↔◌, refl, true, false, [], ◌∷◌, some, arith}
use titan_x.Prelude.Int.{pos, ◌+ℤ◌, ◌*ℤ◌, abs}
use titan_x.Prelude.Text.{Text, codes, text_eq}
use titan_x.Prelude.Map.{lookup, insert}
use titan_x.Model.OrderSide.{OrderSide, buy, sell}
use titan_x.Model.OrderType.{limit}
use titan_x.Model.OrderStatus.{pending}
use titan_x.Model.Order.{Order}
use titan_x.Risk.CircuitBreaker.{empty, is_halted}
use titan_x.Risk.RiskEngine.{
  RiskEngine, RiskResult, init, check_pre_trade, check_order, over_notional, over_position,
  fat_finger, self_trade, get_net_position, reject, track_order,
}
use titan_x.Risk.RiskEngine.History.{Reach, approved_one_side}
use titan_x.Risk.RiskEngine.Approval.{IsOrdinary, IsAllowed, check_pre_trade_lem}

abbrev order : Text → OrderSide → Order
order id side = record {
  order_id = id;
  account_id = codes "acc";
  symbol = codes "AAPL";
  side = side;
  type = limit;
  price = pos 100000000;
  stop_price = pos 0;
  quantity = pos 7;
  remaining_quantity = pos 7;
  status = pending;
  created_at = 0;
  updated_at = 0;
}

abbrev first : Order
first = order (codes "1") buy

abbrev second : Order
second = order (codes "2") sell

abbrev engine : RiskEngine
engine = init empty

abbrev after : RiskEngine
after = record engine {
  total_checked = 1;
  seen_order_ids = (codes "1", tt) ∷ [];
  active_buy_orders = (codes "acc", (codes "1", tt) ∷ []) ∷ [];
}

abbrev approved : RiskResult
approved = record { approved = true; reason = [] }

abbrev refused : Text → RiskResult
refused reason = record { approved = false; reason = reason }

first_approved : check_pre_trade first engine ≡ some (approved, after)
unfolding check_pre_trade check_order over_notional over_position fat_finger self_trade
    get_net_position track_order insert lookup is_halted ◌*ℤ◌ abs ◌+ℤ◌
first_approved = refl

abbrev later : RiskEngine
later = record after { total_checked = 2; total_rejected = 1 }

abbrev opposed : RiskEngine
opposed = record after {
  total_checked = 2;
  total_rejected = 1;
  seen_order_ids = (codes "1", tt) ∷ (codes "2", tt) ∷ [];
}

first_again : check_pre_trade first after ≡ some (refused (codes "DUPLICATE_ORDER_ID"), later)
unfolding check_pre_trade check_order reject lookup text_eq is_halted
first_again = refl

second_rejected :
    check_pre_trade second after ≡ some (refused (codes "SELF_TRADE_PREVENTION"), opposed)
unfolding check_pre_trade check_order over_notional over_position fat_finger self_trade reject
    get_net_position insert lookup text_eq is_halted ◌*ℤ◌ abs
second_rejected = refl

first-IsOrdinary : IsOrdinary first engine
unfolding get_net_position lookup
first-IsOrdinary = record {
  price = refl;
  quantity = refl;
  price_fits = omega arith;
  quantity_fits = omega arith;
  notional_fits = omega arith;
  long_fits = omega arith;
  short_fits = omega arith;
  last_fits = λ last h. cc;
}

check_pre_trade_example :
    (r : RiskResult) × (e' : RiskEngine) × (check_pre_trade first engine ≡ some (r, e'))
    × ((r.approved ≡ true) ↔ IsAllowed first engine)
check_pre_trade_example = check_pre_trade_lem first engine refl first-IsOrdinary

approved_one_side_example : (refused (codes "SELF_TRADE_PREVENTION")).approved ≡ false
approved_one_side_example =
    approved_one_side first engine after approved first_approved refl second after opposed
      (refused (codes "SELF_TRADE_PREVENTION")) Reach.here refl (λ e. cc) second_rejected
