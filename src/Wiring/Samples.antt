-- ===== src/Wiring/Samples.antt =====
-- An ask, and a bid that crosses it.
use titan_x.Prelude.{◌*◌, ◌+◌, refl, arith}
use titan_x.Prelude.Int.{pos}
use titan_x.Prelude.Text.{Text, codes}
use titan_x.Model.World.{World}
use titan_x.Model.OrderSide.{OrderSide, buy, sell}
use titan_x.Model.OrderType.{limit}
use titan_x.Model.OrderStatus.{pending}
use titan_x.Model.Order.{Order}
use titan_x.Engine.MatchingEngine.Soundness.{IsAcceptable}

abbrev pub world : World
world = record { random = λ n. 7 * n; clock = λ n. 1000 + n; drawn = 0; ticks = 0 }

abbrev pub order : Text → Text → OrderSide → Order
order id account side = record {
  order_id = id;
  account_id = account;
  symbol = codes "AAPL";
  side = side;
  type = limit;
  price = pos 100000000;
  stop_price = pos 0;
  quantity = pos 7;
  remaining_quantity = pos 7;
  status = pending;
  created_at = 0;
  updated_at = 0;
}

abbrev pub ask : Order
ask = order (codes "1") (codes "ann") sell

abbrev pub bid : Order
bid = order (codes "2") (codes "bob") buy

pub ask-IsAcceptable : IsAcceptable ask
ask-IsAcceptable = record { small = omega arith; priced_limit = λ e. refl; priced_ioc = λ e. cc }

pub bid-IsAcceptable : IsAcceptable bid
bid-IsAcceptable = record { small = omega arith; priced_limit = λ e. refl; priced_ioc = λ e. cc }
