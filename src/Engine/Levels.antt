-- ===== src/Engine/Levels.antt =====
-- One side of the book: `std::map<int64_t, std::deque<Order>>` as the list of its entries in the
-- map's order, which is descending for the bids (std::greater) and ascending for the asks.
use titan_x.Prelude.{Bool, true, false, List, [], ◌∷◌, ◌++◌, if◌then◌else◌}
use titan_x.Prelude.Int.{ℤ, ltb_ℤ, eqb_ℤ}
use titan_x.Prelude.Text.{Text, text_eq}
use titan_x.Model.OrderSide.{OrderSide, buy, sell}
use titan_x.Model.Order.{Order}

pub record Level : Type 0 where
  pub price : ℤ
  pub queue : List Order

-- The map's comparison: whether a key stands before another.
abbrev pub before : OrderSide → ℤ → ℤ → Bool
before buy a b = ltb_ℤ b a
before sell a b = ltb_ℤ a b

-- `side[price].push_back(order)`: a missing key is inserted at its place.
unfoldable pub push_back : OrderSide → ℤ → Order → List Level → List Level
push_back side price o [] = record { price = price; queue = o ∷ [] } ∷ []
push_back side price o (l ∷ ls) =
    if eqb_ℤ price l.price
    then record l { queue = l.queue ++ o ∷ [] } ∷ ls
    else if before side price l.price
    then record { price = price; queue = o ∷ [] } ∷ l ∷ ls
    else l ∷ push_back side price o ls

-- `side.find(price) != side.end()`
unfoldable pub contains : ℤ → List Level → Bool
contains price [] = false
contains price (l ∷ ls) = if eqb_ℤ price l.price then true else contains price ls

-- A level goes back unless its queue is empty: `if (queue.empty()) side.erase(it)`.
unfoldable pub put_back : ℤ → List Order → List Level → List Level
put_back price [] ls = ls
put_back price (o ∷ q) ls = record { price = price; queue = o ∷ q } ∷ ls

-- `queue.erase(std::remove_if(..., o.orderId == orderId), queue.end())`
unfoldable pub without : Text → List Order → List Order
without order_id [] = []
without order_id (o ∷ q) =
    let rest = without order_id q in if text_eq o.order_id order_id then rest else o ∷ rest

-- That removal on the level of a price, and the erasure of the level when it is left empty.
unfoldable pub remove_at : ℤ → Text → List Level → List Level
unfolding put_back without
remove_at price order_id [] = []
remove_at price order_id (l ∷ ls) =
    if eqb_ℤ price l.price
    then put_back l.price (without order_id l.queue) ls
    else l ∷ remove_at price order_id ls

-- The resting orders of a side, in the order in which the map and its queues are walked.
unfoldable pub flat : List Level → List Order
flat [] = []
flat (l ∷ ls) = l.queue ++ flat ls
