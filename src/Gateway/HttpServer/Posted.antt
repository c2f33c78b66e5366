-- ===== src/Gateway/HttpServer/Posted.antt =====
-- An order that is posted to a new server.
use titan_x.Prelude.{◌≡◌, refl, sym, ◌∙◌, [], some, none, arith}
use titan_x.Prelude.Int.{pos, ◌*ℤ◌, ◌/ℤ◌, ◌+ℤ◌, min_ℤ, abs}
use titan_x.Prelude.Decimal
use titan_x.Model.Prices.{text_to_fixed}
use titan_x.Model.OrderSide
use titan_x.Model.OrderType
use titan_x.Model.Order
use titan_x.Model.Order.{Order}
use titan_x.Engine.Sweep.{match_levels}
use titan_x.Engine.MatchingEngine.Soundness.{IsAcceptable}
use titan_x.Gateway.HttpServer.Submission.{requested}
use titan_x.Prelude.Text.{text_eq}
use titan_x.Prelude.Map.{lookup, insert}
use titan_x.Prelude.Results.{ok, err}
use titan_x.Model.World.{now}
use titan_x.Serialization.Samples.{integers}
use titan_x.Risk.CircuitBreaker
use titan_x.Risk.RiskEngine
use titan_x.Engine.OrderBook
use titan_x.Engine.OrderBook.{OrderBook}
use titan_x.Engine.MatchingEngine
use titan_x.Gateway.RateLimiter
use titan_x.Engine.MatchingEngine.{init, Exchange, book_of}
use titan_x.Wiring.{Calls, consumers}
use titan_x.Gateway.JwtTokenService.{JwtClaims, generate_access_token, validate_and_extract}
use titan_x.Gateway.JwtTokenService.Samples.{plain_tokens}
use titan_x.Gateway.HttpServer.Requests.{OrderRequest, read_order, read_price, side_of, type_of}
use titan_x.Gateway.HttpServer.Responses.{Server, Reply, authenticate}
use titan_x.Gateway.HttpServer.Orders.{post_order, try_order}
use titan_x.Gateway.HttpServer.Soundness.{AsksAcceptably}
use titan_x.Gateway.HttpServer.Samples.{document, json, order_request, fresh}

abbrev pub posted : Reply Calls
posted = elim (post_order integers json plain_tokens consumers order_request fresh) [
  | none ↦ (err [], fresh)
  | some reply ↦ reply
]

pub posted-runs :
    post_order integers json plain_tokens consumers order_request fresh ≡ some (posted.0, posted.1)
unfolding post_order authenticate text_eq generate_access_token validate_and_extract lookup now
    RateLimiter.try_acquire insert try_order read_order read_price side_of type_of
    MatchingEngine.submit RiskEngine.check_pre_trade CircuitBreaker.is_halted
    RiskEngine.over_notional ◌*ℤ◌ RiskEngine.over_position abs RiskEngine.fat_finger
    RiskEngine.self_trade OrderBook.match MatchingEngine.get_or_create ◌/ℤ◌ min_ℤ ◌+ℤ◌ Decimal.stoll
    text_to_fixed OrderSide.from_string OrderType.from_string Order.create OrderBook.match_limit
    OrderBook.sweep match_levels OrderBook.init
posted-runs = refl

abbrev asked : OrderRequest
asked = elim (read_order integers json document) [
  | err what ↦ record {
    symbol = [];
    side = OrderSide.buy;
    type = OrderType.limit;
    price = pos 0;
    stop_price = pos 0;
    quantity = pos 0;
  }
  | ok q ↦ q
]

asked-reads : read_order integers json document ≡ ok asked
unfolding read_order read_price side_of type_of text_eq lookup Decimal.stoll text_to_fixed ◌*ℤ◌
    OrderSide.from_string OrderType.from_string ◌/ℤ◌ ◌+ℤ◌
asked-reads = refl

asked-IsAcceptable :
    (claims : JwtClaims) (s : Server Calls) → IsAcceptable (requested claims asked s).0
unfolding Order.create read_order read_price side_of type_of text_eq lookup Decimal.stoll
    text_to_fixed ◌*ℤ◌ OrderSide.from_string OrderType.from_string ◌/ℤ◌ ◌+ℤ◌
asked-IsAcceptable claims s = record {
  small = omega arith;
  priced_limit = λ k. refl;
  priced_ioc = λ k. cc;
}

ok-injective : {A : Type 0} (a b : A) → ok a ≡ ok b → a ≡ b
ok-injective a b h = cc

pub order-AsksAcceptably : AsksAcceptably integers json plain_tokens order_request
order-AsksAcceptably claims q s h =
    rw (ok-injective q asked (sym h ∙ asked-reads)) (asked-IsAcceptable claims s)
