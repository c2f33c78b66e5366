-- ===== src/Model/Order.antt =====
-- struct Order: the factory and the copy-on-modify functions.
use titan_x.Prelude.{ℕ, Bool, true, false, if◌then◌else◌}
use titan_x.Prelude.Int.{ℤ, pos, ltb_ℤ, eqb_ℤ}
use titan_x.Prelude.Text.{Text}
use titan_x.Model.World.{World, now}
use titan_x.Model.Uuid.{generate_uuid}
use titan_x.Model.OrderSide.{OrderSide, is_buy_side}
use titan_x.Model.OrderType.{OrderType, market}
use titan_x.Model.OrderStatus.{OrderStatus, pending, partially_filled, filled}

pub record Order : Type 0 where
  pub order_id : Text
  pub account_id : Text
  pub symbol : Text
  pub side : OrderSide
  pub type : OrderType
  pub price : ℤ
  pub stop_price : ℤ
  pub quantity : ℤ
  pub remaining_quantity : ℤ
  pub status : OrderStatus
  pub created_at : ℕ
  pub updated_at : ℕ

abbrev pub is_buy : Order → Bool
is_buy o = is_buy_side o.side

-- The braces of `Order{generate_uuid(), ..., now, now}` follow `auto now`.
unfoldable pub create : Text → Text → OrderSide → OrderType → ℤ → ℤ → ℤ → World → Order × World
unfolding now
create account_id symbol side type price stop_price quantity w =
    let (t, w1) = now w in
    let (id, w2) = generate_uuid w1 in
    (
      record {
        order_id = id;
        account_id = account_id;
        symbol = symbol;
        side = side;
        type = type;
        price = price;
        stop_price = stop_price;
        quantity = quantity;
        remaining_quantity = quantity;
        status = pending;
        created_at = t;
        updated_at = t;
      },
      w2,
    )

-- The status is decided against the original quantity.
unfoldable pub with_remaining_quantity : Order → ℤ → World → Order × World
unfolding now
with_remaining_quantity o new_remaining w =
    let new_status : OrderStatus =
      if eqb_ℤ new_remaining (pos 0)
      then filled
      else if ltb_ℤ new_remaining o.quantity
      then partially_filled
      else o.status in
    let (t, w1) = now w in
    (record o { remaining_quantity = new_remaining; status = new_status; updated_at = t }, w1)

unfoldable pub with_status : Order → OrderStatus → World → Order × World
unfolding now
with_status o new_status w =
    let (t, w1) = now w in (record o { status = new_status; updated_at = t }, w1)

abbrev pub is_sell : Order → Bool
is_sell o = if is_buy o then false else true

abbrev pub is_market : Order → Bool
is_market o = elim o.type [ market ↦ true | _ ↦ false ]

abbrev pub is_active : Order → Bool
is_active o = elim o.status [ pending ↦ true | partially_filled ↦ true | _ ↦ false ]
