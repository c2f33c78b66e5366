-- ===== src/Risk/RiskEngine.antt =====
-- class RiskEngine (backend/src/risk/RiskEngine.cpp and its header) and struct RiskResult. The
-- state is the engine's fields, with the breaker that it refers to. An operation runs as a whole:
-- the engine's mutex is held throughout, but for the call of the breaker at the end of
-- `updateLastTradePrice` and the count at the start of `checkPreTrade`. The breaker's mutex is in
-- its own state, and a call that blocks on it is `none`. The counters are uint64_t.
pub mod Approval
mod Examples
pub mod History
pub mod OneSide
pub mod Limits
pub mod Positions
use titan_x.Prelude.{
  ℕ, ◌+◌, ◌*◌, ◌%◌, ◌^◌, Bool, true, false, List, [], ◌∷◌, Option, none, some, if◌then◌else◌, ◌>>=◌,
}
use titan_x.Prelude.Int.{ℤ, pos, negsuc, ltb_ℤ, ◌+ℤ◌, ◌-ℤ◌, ◌*ℤ◌, ◌/ℤ◌, abs}
use titan_x.Prelude.Text.{Text, codes}
use titan_x.Prelude.Map.{Map, lookup, insert}
use titan_x.Model.OrderSide.{OrderSide, is_buy_side}
use titan_x.Model.Order.{Order, is_buy}
use titan_x.Risk.CircuitBreaker
use titan_x.Risk.CircuitBreaker.{CircuitBreaker}

-- A std::unordered_set of texts.
abbrev pub TextSet : Type 0
TextSet = Map (Unit {0})

abbrev pub has : Text → TextSet → Bool
has k s = elim (lookup k s) [ none ↦ false | some _ ↦ true ]

pub record RiskEngine : Type 0 where
  pub positions : Map (Map ℤ)
  pub active_buy_orders : Map TextSet
  pub active_sell_orders : Map TextSet
  pub seen_order_ids : TextSet
  pub last_trade_prices : Map ℤ
  pub total_checked : ℕ
  pub total_rejected : ℕ
  pub circuit_breaker : CircuitBreaker

abbrev pub init : CircuitBreaker → RiskEngine
init c = record {
  positions = [];
  active_buy_orders = [];
  active_sell_orders = [];
  seen_order_ids = [];
  last_trade_prices = [];
  total_checked = 0;
  total_rejected = 0;
  circuit_breaker = c;
}

pub record RiskResult : Type 0 where
  pub approved : Bool
  pub reason : Text

abbrev pub max_position_shares : ℤ
max_position_shares = pos 10000

abbrev pub price_scale : ℕ
price_scale = 100000000

-- `5'000'000LL * PRICE_SCALE`
abbrev pub max_notional_fixed : ℤ
max_notional_fixed = pos (5000000 * price_scale)

abbrev pub fat_finger_bps : ℤ
fat_finger_bps = pos 1000

abbrev approve : RiskResult
approve = record { approved = true; reason = [] }

-- `reject`: counts, and `RiskResult::rejected`.
unfoldable pub reject : Text → RiskEngine → RiskResult × RiskEngine
reject reason e = (
  record { approved = false; reason = reason },
  record e { total_rejected = (e.total_rejected + 1) % 2 ^ 64 },
)

unfoldable pub get_net_position : Text → Text → RiskEngine → ℤ
get_net_position account_id symbol e = elim (lookup account_id e.positions) [
  | none ↦ pos 0
  | some by_symbol ↦ elim (lookup symbol by_symbol) [ none ↦ pos 0 | some p ↦ p ]
]

-- The conditions of checks 3 to 6, each true when the order is to be rejected.
unfoldable pub over_notional : Order → Bool
over_notional o =
    if ltb_ℤ (pos 0) o.price then ltb_ℤ max_notional_fixed (o.price *ℤ o.quantity) else false

unfoldable pub over_position : Order → RiskEngine → Bool
unfolding get_net_position
over_position o e =
    let net = get_net_position o.account_id o.symbol e in
    ltb_ℤ max_position_shares (abs (if is_buy o then net +ℤ o.quantity else net -ℤ o.quantity))

unfoldable pub deviation_bps : ℤ → ℤ → ℤ
deviation_bps price last = (abs (price -ℤ last) *ℤ pos 10000) /ℤ last

unfoldable pub fat_finger : Order → RiskEngine → Bool
fat_finger o e =
    if ltb_ℤ (pos 0) o.price
    then elim (lookup o.symbol e.last_trade_prices) [
      | none ↦ false
      | some last ↦
          if ltb_ℤ (pos 0) last then ltb_ℤ fat_finger_bps (deviation_bps o.price last) else false
    ]
    else false

-- Whether an account has an entry that is not the empty set.
abbrev pub active : Text → Map TextSet → Bool
active account_id m = elim (lookup account_id m) [
  | none ↦ false
  | some s ↦ elim s [ [] ↦ false | _ ∷ _ ↦ true ]
]

unfoldable pub self_trade : Order → RiskEngine → Bool
self_trade o e =
    if is_buy o
    then active o.account_id e.active_sell_orders
    else active o.account_id e.active_buy_orders

-- `m[account_id].insert(order_id)`
abbrev pub add_active : Text → Text → Map TextSet → Map TextSet
add_active account_id order_id m =
    let s : TextSet = elim (lookup account_id m) [ none ↦ [] | some s ↦ s ] in
    insert account_id (insert order_id tt s) m

unfoldable pub track_order : Order → RiskEngine → RiskEngine
track_order o e = record e {
  active_buy_orders =
      if is_buy o
      then add_active o.account_id o.order_id e.active_buy_orders
      else e.active_buy_orders;
  active_sell_orders =
      if is_buy o
      then e.active_sell_orders
      else add_active o.account_id o.order_id e.active_sell_orders;
}

-- The checks after the breaker's, in the code's order.
unfoldable pub check_order : Order → RiskEngine → RiskResult × RiskEngine
unfolding reject track_order
check_order o e =
    if has o.order_id e.seen_order_ids
    then reject (codes "DUPLICATE_ORDER_ID") e
    else let e1 : RiskEngine = record e {
      seen_order_ids = insert o.order_id tt e.seen_order_ids;
    } in
      if over_notional o
      then reject (codes "NOTIONAL_LIMIT_EXCEEDED") e1
      else if over_position o e1
      then reject (codes "POSITION_LIMIT_EXCEEDED") e1
      else if fat_finger o e1
      then reject (codes "FAT_FINGER_PRICE_DEVIATION") e1
      else if self_trade o e1
      then reject (codes "SELF_TRADE_PREVENTION") e1
      else (approve, track_order o e1)

unfoldable pub check_pre_trade : Order → RiskEngine → Option (RiskResult × RiskEngine)
unfolding check_order reject
check_pre_trade o e = do
  let e1 : RiskEngine = record e { total_checked = (e.total_checked + 1) % 2 ^ 64 }
  halted ← CircuitBreaker.is_halted o.symbol e1.circuit_breaker
  some (if halted then reject (codes "CIRCUIT_BREAKER_HALT") e1 else check_order o e1)

-- `positions_[accountId][symbol] += delta`
unfoldable pub record_fill : Text → Text → OrderSide → ℤ → RiskEngine → RiskEngine
record_fill account_id symbol side quantity e =
    let delta = if is_buy_side side then quantity else pos 0 -ℤ quantity in
    let by_symbol : Map ℤ = elim (lookup account_id e.positions) [ none ↦ [] | some m ↦ m ] in
    let p : ℤ = elim (lookup symbol by_symbol) [ none ↦ pos 0 | some p ↦ p ] in
    record e { positions = insert account_id (insert symbol (p +ℤ delta) by_symbol) e.positions }

unfoldable pub update_last_trade_price : Text → ℤ → ℕ → RiskEngine → Option RiskEngine
update_last_trade_price symbol price now e = do
  let e1 : RiskEngine = record e { last_trade_prices = insert symbol price e.last_trade_prices }
  c ← CircuitBreaker.record_trade symbol price now e1.circuit_breaker
  some (record e1 { circuit_breaker = c })
