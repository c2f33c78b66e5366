-- ===== src/Engine/OrderBook/Snapshot.antt =====
-- What a snapshot shows.
use titan_x.Prelude.{
  ℕ, zero, suc, ◌+◌, ◌^◌, ◌<◌, ◌≡◌, refl, true, false, List, [], ◌∷◌, map, length, take, arith,
}
use titan_x.Prelude.Int.{pos, leb_ℤ}
use titan_x.Model.OrderSide.{buy, sell}
use titan_x.Engine.Levels.{Level}
use titan_x.Engine.Sweep.Execution.{resting, entries, volume}
use titan_x.Engine.Sweep.Refinement.{AreFillable}
use titan_x.Engine.Sweep.Sides.{IsSide-AreFillable}
use titan_x.Engine.OrderBook.Validity.{IsValid}
use titan_x.Engine.OrderBook.Fok.{add_queue_lem, volume-append}
use titan_x.Engine.OrderBook.{OrderBook, PriceLevel, snapshot_side, snapshot}

-- A level with the exact sum of the quantities that rest there.
abbrev pub shown : Level → PriceLevel
shown l = record {
  price = l.price;
  total_quantity = pos (volume (map (resting l.price) l.queue));
  order_count = length l.queue;
}

snapshot_side-take :
    (k n d : ℕ) (ls : List Level)
    → d ≡ k + n
    → AreFillable ls
    → volume (entries ls) < 2 ^ 63
    → snapshot_side k (pos d) ls ≡ map shown (take n ls)
unfolding snapshot_side
snapshot_side-take k zero d [] e f h = refl
snapshot_side-take k (suc n) d [] e f h = refl
snapshot_side-take k zero d (l ∷ ls) e f h =
    let stop : leb_ℤ (pos d) (pos k) ≡ true = ground (arith, e) in rw stop refl
snapshot_side-take k (suc n) d (l ∷ ls) e f h =
    let go : leb_ℤ (pos d) (pos k) ≡ false = ground (arith, e) in
    let all = volume-append (map (resting l.price) l.queue) (entries ls) in
    let level_volume = volume (map (resting l.price) l.queue) in
    let exact : 0 + level_volume ≡ level_volume = omega arith in
    rw
      (
        go,
        add_queue_lem l.price 0 l.queue f.0 (omega (arith, h, all)),
        snapshot_side-take (k + 1) n d ls (omega (arith, e)) f.1 (omega (arith, h, all)),
      )
      (rw exact refl)

-- A snapshot of a valid book to a depth that is not negative, while the volume of each side stays
-- below 2^63: the best levels of each side, at most so many, with the price, the sum of the
-- remaining quantities and the number of orders of each; and the price of the last trade.
pub snapshot-shown :
    (b : OrderBook) (d : ℕ)
    → IsValid b
    → volume (entries b.bids) < 2 ^ 63
    → volume (entries b.asks) < 2 ^ 63
    → snapshot b (pos d) ≡ record {
      symbol = b.symbol;
      bids = map shown (take d b.bids);
      asks = map shown (take d b.asks);
      last_trade_price = b.last_trade_price;
    }
unfolding snapshot
snapshot-shown b d v h k =
    rw
      (
        snapshot_side-take 0 d d b.bids (omega arith) (IsSide-AreFillable buy b.bids v.bids) h,
        snapshot_side-take 0 d d b.asks (omega arith) (IsSide-AreFillable sell b.asks v.asks) k,
      )
      refl
