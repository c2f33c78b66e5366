-- ===== src/Engine/Sweep.antt =====
-- The matching loop of `matchMarket` and `matchLimit` in backend/src/engine/OrderBook.cpp: the two
-- copies differ in the test of the level's price alone, which is an argument here.
-- The loops take fuel; Engine.Sweep.Structure has that the fuel given is enough.
use titan_x.Prelude.{ℕ, zero, suc, Bool, List, [], ◌∷◌, ◌++◌, Option, some, length, if◌then◌else◌}
use titan_x.Prelude.Int.{ℤ, pos, ltb_ℤ, ◌-ℤ◌, min_ℤ}
use titan_x.Prelude.Map.{Map, insert, erase}
use titan_x.Model.World.{World}
use titan_x.Model.Order
use titan_x.Model.Order.{Order}
use titan_x.Model.Trade
use titan_x.Model.Trade.{Trade}
use titan_x.Engine.Levels.{Level, put_back}
pub mod Structure
pub mod Rule
pub mod Execution
pub mod Refinement
pub mod Sides
pub mod Index
pub mod Passive

-- What the loop changes beside the side that it walks.
pub record Sweep : Type 0 where
  pub remaining : ℤ
  pub trades : List Trade
  pub index : Map Order
  pub last_price : Option ℤ
  pub world : World

-- `levelQueue` after one fill of its front order, and the rest of the loop's state.
unfoldable pub fill : Order → ℤ → Order → List Order → Sweep → Sweep × List Order
fill aggressor best_price passive rest s =
    let fill_qty = min_ℤ s.remaining passive.remaining_quantity in
    let (trade, w1) = Trade.create aggressor passive best_price fill_qty s.world in
    let (updated, w2) =
      Order.with_remaining_quantity passive (passive.remaining_quantity -ℤ fill_qty) w1 in
    let s' : Sweep = record s {
      remaining = s.remaining -ℤ fill_qty;
      trades = s.trades ++ trade ∷ [];
      last_price = some best_price;
      world = w2;
    } in
    if ltb_ℤ (pos 0) updated.remaining_quantity
    then (record s' { index = insert updated.order_id updated s.index }, updated ∷ rest)
    else (record s' { index = erase passive.order_id s.index }, rest)

-- `while (remainingQty > 0 && !levelQueue.empty())`
unfoldable pub match_level : ℕ → Order → ℤ → Sweep → List Order → Sweep × List Order
match_level zero aggressor best_price s queue = (s, queue)
match_level (suc fuel) aggressor best_price s [] = (s, [])
match_level (suc fuel) aggressor best_price s (passive ∷ rest) =
    let next =
      (let (s', queue) = fill aggressor best_price passive rest s in
        match_level fuel aggressor best_price s' queue) in
    if ltb_ℤ (pos 0) s.remaining then next else (s, passive ∷ rest)

-- `while (remainingQty > 0 && !oppositeSide.empty())`, left at the first level that does not cross.
unfoldable pub match_levels : ℕ → (ℤ → Bool) → Order → Sweep → List Level → Sweep × List Level
match_levels zero crosses aggressor s levels = (s, levels)
match_levels (suc fuel) crosses aggressor s [] = (s, [])
match_levels (suc fuel) crosses aggressor s (l ∷ ls) =
    let next =
      (let (s', queue) = match_level (suc (length l.queue)) aggressor l.price s l.queue in
        match_levels fuel crosses aggressor s' (put_back l.price queue ls)) in
    if ltb_ℤ (pos 0) s.remaining then if crosses l.price then next else (s, l ∷ ls) else (s, l ∷ ls)
