-- ===== src/Model/Trade.antt =====
-- struct Trade: the record of a fill between an aggressor and a resting order.
use titan_x.Prelude.{ℕ}
use titan_x.Prelude.Int.{ℤ}
use titan_x.Prelude.Text.{Text}
use titan_x.Model.World.{World, now}
use titan_x.Model.Uuid.{generate_uuid}
use titan_x.Model.OrderSide.{OrderSide}
use titan_x.Model.Order.{Order}

pub record Trade : Type 0 where
  pub trade_id : Text
  pub symbol : Text
  pub aggressor_order_id : Text
  pub aggressor_account_id : Text
  pub passive_order_id : Text
  pub passive_account_id : Text
  pub price : ℤ
  pub quantity : ℤ
  pub aggressor_side : OrderSide
  pub executed_at : ℕ

unfoldable pub create : Order → Order → ℤ → ℤ → World → Trade × World
unfolding now
create aggressor passive fill_price fill_qty w =
    let (id, w1) = generate_uuid w in
    let (t, w2) = now w1 in
    (
      record {
        trade_id = id;
        symbol = aggressor.symbol;
        aggressor_order_id = aggressor.order_id;
        aggressor_account_id = aggressor.account_id;
        passive_order_id = passive.order_id;
        passive_account_id = passive.account_id;
        price = fill_price;
        quantity = fill_qty;
        aggressor_side = aggressor.side;
        executed_at = t;
      },
      w2,
    )
