-- ===== src/Engine/OrderBook.antt =====
-- class OrderBook: its state, the matching algorithms, the book operations and the queries.
pub mod Insertion
pub mod Removal
pub mod Validity
pub mod Matching
pub mod Cancel
pub mod Priority
pub mod Ioc
pub mod Fok
pub mod Snapshot
pub mod Match
pub mod Contents
pub mod Counterparties
pub mod Absence
mod Examples
use titan_x.Prelude.{
  ℕ, suc, ◌+◌, Bool, true, false, ◌||◌, List, [], ◌∷◌, Option, none, some, length, if◌then◌else◌,
}
use titan_x.Prelude.Int.{ℤ, pos, ltb_ℤ, leb_ℤ, eqb_ℤ, ◌+ℤ◌, ◌-ℤ◌}
use titan_x.Prelude.Text.{Text}
use titan_x.Prelude.Map.{Map, lookup, insert, erase}
use titan_x.Model.World.{World}
use titan_x.Model.OrderSide.{buy, sell}
use titan_x.Model.OrderType.{OrderType, market, limit, ioc, fok, stop_limit}
use titan_x.Model.Order
use titan_x.Model.Order.{Order, is_buy}
use titan_x.Model.Trade.{Trade}
use titan_x.Engine.Levels.{Level, push_back, contains, remove_at}
use titan_x.Engine.Sweep.{Sweep, match_levels}

pub record OrderBook : Type 0 where
  pub symbol : Text
  pub bids : List Level
  pub asks : List Level
  pub order_index : Map Order
  pub last_trade_price : Option ℤ

-- The constructor `OrderBook(symbol)`.
unfoldable pub init : Text → OrderBook
init symbol = record {
  symbol = symbol;
  bids = [];
  asks = [];
  order_index = [];
  last_trade_price = none;
}

-- The side that an order matches against.
abbrev pub opposite : Order → OrderBook → List Level
opposite o b = if is_buy o then b.asks else b.bids

-- The state at the entry of `matchSide`.
abbrev pub start : Order → OrderBook → World → Sweep
start aggressor b w = record {
  remaining = aggressor.remaining_quantity;
  trades = [];
  index = b.order_index;
  last_price = b.last_trade_price;
  world = w;
}

-- The call `matchSide(asks_)` or `matchSide(bids_)`, up to the end of its loop.
unfoldable pub sweep : (ℤ → Bool) → Order → OrderBook → World → Sweep × OrderBook
sweep crosses aggressor b w =
    let levels = opposite aggressor b in
    let (s, levels') =
      match_levels (suc (length levels)) crosses aggressor (start aggressor b w) levels in
    (
      s,
      record b {
        bids = if is_buy aggressor then b.bids else levels';
        asks = if is_buy aggressor then levels' else b.asks;
        order_index = s.index;
        last_trade_price = s.last_price;
      },
    )

unfoldable pub insert_into_book : Order → OrderBook → OrderBook
insert_into_book o b = record b {
  bids = if is_buy o then push_back buy o.price o b.bids else b.bids;
  asks = if is_buy o then b.asks else push_back sell o.price o b.asks;
  order_index = insert o.order_id o b.order_index;
}

-- `if (levelIt == end()) return false`, else the removal, which returns true.
abbrev remove_from_side : ℤ → Text → List Level → List Level × Bool
remove_from_side price order_id levels =
    if contains price levels then (remove_at price order_id levels, true) else (levels, false)

-- The part of `removeFromBook` after the order was found and erased from the index.
unfoldable pub remove_order : Order → Text → OrderBook → OrderBook × Bool
remove_order o order_id b =
    if eqb_ℤ o.price (pos 0)
    then (b, false)
    else if is_buy o
    then (let (levels, removed) = remove_from_side o.price order_id b.bids in
        (record b { bids = levels }, removed))
    else let (levels, removed) = remove_from_side o.price order_id b.asks in
      (record b { asks = levels }, removed)

unfoldable pub remove_from_book : Text → OrderBook → OrderBook × Bool
unfolding remove_order
remove_from_book order_id b = elim (lookup order_id b.order_index) [
  | none ↦ (b, false)
  | some o ↦ remove_order o order_id (record b { order_index = erase order_id b.order_index })
]

abbrev pub Matched : Type 0
Matched = List Trade × OrderBook × World

unfoldable pub match_market : Order → OrderBook → World → Matched
match_market aggressor b w =
    let (s, b') = sweep (λ _. true) aggressor b w in (s.trades, b', s.world)

-- Whether a limit order crosses a level of the opposite side.
abbrev pub crosses : Order → ℤ → Bool
crosses o best_price = if is_buy o then leb_ℤ best_price o.price else leb_ℤ o.price best_price

unfoldable pub match_limit : Order → OrderBook → World → Matched
match_limit aggressor b w =
    let (s, b') = sweep (crosses aggressor) aggressor b w in
    let (resting, w') = Order.with_remaining_quantity aggressor s.remaining s.world in
    if ltb_ℤ (pos 0) s.remaining
    then (s.trades, insert_into_book resting b', w')
    else (s.trades, b', s.world)

unfoldable pub match_ioc : Order → OrderBook → World → Matched
match_ioc aggressor b w =
    let (trades, b', w') = match_limit aggressor b w in
    (trades, (remove_from_book aggressor.order_id b').0, w')

-- `for (const auto& o : queue) total += o.remainingQuantity`
unfoldable pub add_queue : ℤ → List Order → ℤ
add_queue total [] = total
add_queue total (o ∷ q) = add_queue (total +ℤ o.remaining_quantity) q

unfoldable pub count_side : (ℤ → Bool) → ℤ → List Level → ℤ
unfolding add_queue
count_side crosses total [] = total
count_side crosses total (l ∷ ls) =
    let rest = count_side crosses (add_queue total l.queue) ls in
    if crosses l.price then rest else total

unfoldable pub available_quantity_at_or_better : Order → OrderBook → ℤ
unfolding count_side
available_quantity_at_or_better o b =
    count_side (λ p. eqb_ℤ o.price (pos 0) || crosses o p) (pos 0) (opposite o b)

unfoldable pub match_fok : Order → OrderBook → World → Matched
match_fok aggressor b w =
    if ltb_ℤ (available_quantity_at_or_better aggressor b) aggressor.quantity
    then ([], b, w)
    else match_market aggressor b w

-- `OrderBook::match`, which dispatches on the type.
unfoldable pub match_as : OrderType → Order → OrderBook → World → Matched
match_as market o b w = match_market o b w
match_as limit o b w = match_limit o b w
match_as ioc o b w = match_ioc o b w
match_as fok o b w = match_fok o b w
match_as stop_limit o b w = ([], b, w)

unfoldable pub match : Order → OrderBook → World → Matched
unfolding match_as
match o b w = match_as o.type o b w

abbrev first_price : List Level → Option ℤ
first_price [] = none
first_price (l ∷ ls) = some l.price

unfoldable pub best_bid : OrderBook → Option ℤ
best_bid b = first_price b.bids

unfoldable pub best_ask : OrderBook → Option ℤ
best_ask b = first_price b.asks

unfoldable pub spread : OrderBook → Option ℤ
unfolding best_bid best_ask
spread b = elim (best_bid b) [
  | none ↦ none
  | some bid ↦ elim (best_ask b) [ none ↦ none | some ask ↦ some (ask -ℤ bid) ]
]

pub record PriceLevel : Type 0 where
  pub price : ℤ
  pub total_quantity : ℤ
  pub order_count : ℕ

pub record OrderBookSnapshot : Type 0 where
  pub symbol : Text
  pub bids : List PriceLevel
  pub asks : List PriceLevel
  pub last_trade_price : Option ℤ

-- A loop of `snapshot`: `count` levels were visited, and at most `depth` are shown.
unfoldable pub snapshot_side : ℕ → ℤ → List Level → List PriceLevel
unfolding add_queue
snapshot_side count depth [] = []
snapshot_side count depth (l ∷ ls) =
    let rest = snapshot_side (count + 1) depth ls in
    if leb_ℤ depth (pos count)
    then []
    else record {
      price = l.price;
      total_quantity = add_queue (pos 0) l.queue;
      order_count = length l.queue;
    }
      ∷ rest

unfoldable pub snapshot : OrderBook → ℤ → OrderBookSnapshot
unfolding snapshot_side
snapshot b depth = record {
  symbol = b.symbol;
  bids = snapshot_side 0 depth b.bids;
  asks = snapshot_side 0 depth b.asks;
  last_trade_price = b.last_trade_price;
}
