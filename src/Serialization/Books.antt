-- ===== src/Serialization/Books.antt =====
-- `PriceLevel::to_json` and `OrderBookSnapshot::to_json`
-- (backend/include/titanx/engine/OrderBook.hpp). The last price is `lastTradePrice ?
-- price_to_string(*lastTradePrice) : nullptr`, of type std::string: without a price it is
-- std::string(nullptr), which libstdc++ answers by a std::logic_error.
use titan_x.Prelude.{[], ◌∷◌, map, Option, none, some}
use titan_x.Prelude.Int.{pos}
use titan_x.Prelude.Text.{codes}
use titan_x.Prelude.Results.{Result, ok, err, ◌>>=◌}
use titan_x.Prelude.Floats.{Floats}
use titan_x.Model.Prices.{price_to_string}
use titan_x.Engine.OrderBook.{PriceLevel, OrderBookSnapshot}
use titan_x.Prelude.Text.{Text}
use titan_x.Prelude.Int.{ℤ}
use titan_x.Serialization.Library.{JsonLibrary}

module _ (F : Floats) where
  unfoldable pub last_price_text : Option ℤ → Result Text
  last_price_text none = err (codes "basic_string: construction from null is not valid")
  last_price_text (some p) = ok (price_to_string F p)

  module _ (J : JsonLibrary F) where
    unfoldable pub level_to_json : PriceLevel → J.Json
    level_to_json l = J.object (
        (codes "price", J.of_text (price_to_string F l.price))
        ∷ (codes "totalQuantity", J.of_int l.total_quantity)
        ∷ (codes "orderCount", J.of_int (pos l.order_count))
        ∷ [])

    unfoldable pub snapshot_to_json : OrderBookSnapshot → Result J.Json
    unfolding level_to_json last_price_text
    snapshot_to_json s = do
      last ← last_price_text s.last_trade_price
      ok (
          J.object (
            (codes "symbol", J.of_text s.symbol)
            ∷ (codes "bids", J.array (map level_to_json s.bids))
            ∷ (codes "asks", J.array (map level_to_json s.asks))
            ∷ (codes "lastTradePrice", J.of_text last)
            ∷ []))
