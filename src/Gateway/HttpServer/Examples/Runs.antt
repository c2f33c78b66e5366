-- ===== src/Gateway/HttpServer/Examples/Runs.antt =====
-- An order that is posted to a new server and taken back, and the properties at that run.
use titan_x.Prelude.{◌≡◌, refl, ◌⊎◌, Bool, true, [], ◌∷◌, some}
use titan_x.Prelude.Int.{pos, ◌*ℤ◌, ◌/ℤ◌, ◌+ℤ◌, min_ℤ, abs}
use titan_x.Prelude.Decimal
use titan_x.Model.Prices.{text_to_fixed}
use titan_x.Model.OrderSide
use titan_x.Model.OrderType
use titan_x.Model.Order
use titan_x.Model.Order.{Order}
use titan_x.Engine.Sweep.{match_levels}
use titan_x.Event.OrderEvent
use titan_x.Model.Uuid.{generate_uuid}
use titan_x.Engine.OrderBook.Cancel.{Removed}
use titan_x.Engine.Levels.{push_back, put_back}
use titan_x.Prelude.Text.{Text, codes, text_eq}
use titan_x.Prelude.Map.{lookup, insert}
use titan_x.Prelude.Results.{Result}
use titan_x.Model.World.{now}
use titan_x.Serialization.Samples.{integers}
use titan_x.Risk.CircuitBreaker
use titan_x.Risk.RiskEngine
use titan_x.Engine.OrderBook
use titan_x.Engine.OrderBook.{OrderBook}
use titan_x.Engine.MatchingEngine
use titan_x.Gateway.RateLimiter
use titan_x.Engine.MatchingEngine.{init, Exchange, book_of}
use titan_x.Wiring.{Calls, consumers}
use titan_x.Gateway.JwtTokenService.{JwtClaims, generate_access_token, validate_and_extract}
use titan_x.Gateway.JwtTokenService.Samples.{plain_tokens}
use titan_x.Gateway.HttpServer.Requests.{read_order, read_price, side_of, type_of}
use titan_x.Gateway.HttpServer.Responses.{Response, Server, authenticate}
use titan_x.Gateway.HttpServer.Orders.{delete_order, post_order, acquire, try_order}
use titan_x.Gateway.HttpServer.Access.{HasCode, handle, posts}
use titan_x.Gateway.HttpServer.Submission.{IsSubmitted, Untouched, post_order-cases}
use titan_x.Gateway.HttpServer.Soundness.{
  HasSoundEngine, handle-HasSoundEngine, delete_order-Removed,
}
use titan_x.Gateway.HttpServer.Samples.{issued, json, order_request, fresh}
use titan_x.Gateway.HttpServer.Posted.{posted, posted-runs, order-AsksAcceptably}

abbrev authenticated : (Bool × JwtClaims) × Server Calls
authenticated = authenticate integers json plain_tokens consumers order_request fresh

abbrev acquired : Bool × Server Calls
acquired = acquire integers json plain_tokens consumers authenticated.0.1 authenticated.1

post_order-cases_example :
    Untouched integers json plain_tokens consumers fresh posted.1
    ⊎ ((authenticated.0.0 ≡ true)
        × (acquired.0 ≡ true)
        × IsSubmitted integers json plain_tokens consumers authenticated.0.1 order_request
            acquired.1 posted.1)
post_order-cases_example =
    post_order-cases integers json plain_tokens consumers order_request fresh posted.1 posted.0
      posted-runs

fresh-HasSoundEngine : HasSoundEngine fresh
unfolding lookup
fresh-HasSoundEngine = record { valid = λ t b e. cc; known = λ t b e. cc; no_stops = refl }

posted-HasSoundEngine : HasSoundEngine posted.1
unfolding handle
posted-HasSoundEngine =
    handle-HasSoundEngine integers json plain_tokens posts order_request fresh posted.1 posted.0
      order-AsksAcceptably fresh-HasSoundEngine posted-runs

abbrev aapl : OrderBook
aapl = book_of (codes "AAPL") posted.1.exchange.engine

-- The order that rests, with its id.
abbrev rested : Text × Order
rested = elim aapl.order_index [
  | [] ↦ ([], (Order.create [] [] OrderSide.buy OrderType.limit (pos 0) (pos 0) (pos 0) issued).0)
  | entry ∷ entries ↦ entry
]

record Rests : Type 0 where
  valid : (authenticate integers json plain_tokens consumers order_request posted.1).0.0 ≡ true
  open_book : lookup (codes "AAPL") posted.1.exchange.engine.books ≡ some aapl
  locked : lookup (codes "AAPL") posted.1.exchange.engine.locks ≡ some tt
  indexed : lookup rested.0 aapl.order_index ≡ some rested.1

rests : Rests
unfolding post_order authenticate text_eq generate_access_token validate_and_extract lookup now
    RateLimiter.try_acquire insert try_order read_order read_price side_of type_of
    MatchingEngine.submit RiskEngine.check_pre_trade CircuitBreaker.is_halted
    RiskEngine.over_notional ◌*ℤ◌ RiskEngine.over_position abs RiskEngine.fat_finger
    RiskEngine.self_trade OrderBook.match MatchingEngine.get_or_create ◌/ℤ◌ min_ℤ ◌+ℤ◌ Decimal.stoll
    text_to_fixed OrderSide.from_string OrderType.from_string Order.create OrderBook.match_limit
    OrderBook.sweep match_levels OrderBook.init OrderBook.insert_into_book
    Order.with_remaining_quantity push_back put_back consumers OrderEvent.build generate_uuid
rests = record { valid = refl; open_book = refl; locked = refl; indexed = refl }

delete_order-Removed_example :
    (r : Result Response) × (s' : Server Calls) × (b' : OrderBook) × (delete_order integers json
        plain_tokens consumers rested.0 order_request posted.1
      ≡ some (r, s'))
    × HasCode integers json plain_tokens consumers 200 r
    × (s'.exchange.engine ≡ record posted.1.exchange.engine {
      books = insert (codes "AAPL") b' posted.1.exchange.engine.books;
    })
    × Removed rested.0 aapl b'
unfolding lookup text_eq
delete_order-Removed_example =
    delete_order-Removed integers json plain_tokens rested.0 (codes "AAPL") order_request posted.1
      aapl rested.1 posted-HasSoundEngine rests.valid refl rests.open_book rests.locked
      rests.indexed
