-- ===== src/Gateway/HttpServer/Examples.antt =====
-- The properties of access, of tokens and of the order book at a server.
mod Runs
use titan_x.Prelude.{
  ◌*◌, ◌^◌, ◌≡◌, refl, sym, ◌∙◌, ◌⊎◌, ◌↔◌, Bool, true, [], ◌∷◌, ◌++◌, some, none, arith,
}
use titan_x.Prelude.Int.{pos, ◌*ℤ◌, ◌/ℤ◌, ◌+ℤ◌, min_ℤ, abs}
use titan_x.Prelude.Decimal
use titan_x.Model.Prices.{text_to_fixed}
use titan_x.Model.OrderSide
use titan_x.Model.OrderType
use titan_x.Model.Order
use titan_x.Model.Order.{Order}
use titan_x.Engine.Sweep.{match_levels}
use titan_x.Event.OrderEvent
use titan_x.Model.Uuid.{generate_uuid}
use titan_x.Engine.OrderBook.Cancel.{Removed}
use titan_x.Engine.Levels.{push_back, put_back}
use titan_x.Engine.MatchingEngine.Soundness.{IsAcceptable}
use titan_x.Gateway.HttpServer.Submission.{requested}
use titan_x.Prelude.Text.{Text, codes, text_eq}
use titan_x.Prelude.Map.{lookup, insert}
use titan_x.Prelude.Results.{Result, ok, err}
use titan_x.Model.World.{World, now}
use titan_x.Serialization.Library.{JsonLibrary}
use titan_x.Serialization.Samples.{integers, one_document}
use titan_x.Risk.CircuitBreaker
use titan_x.Risk.RiskEngine
use titan_x.Engine.OrderBook
use titan_x.Engine.OrderBook.{OrderBook}
use titan_x.Engine.MatchingEngine
use titan_x.Gateway.RateLimiter
use titan_x.Engine.MatchingEngine.{init, Exchange, book_of}
use titan_x.Wiring.{Calls, no_calls, consumers}
use titan_x.Gateway.JwtTokenService.{
  JwtClaims, generate_access_token, generate_refresh_token, validate_and_extract,
}
use titan_x.Gateway.JwtTokenService.Samples.{plain_tokens, plain_tokens-IsLawful}
use titan_x.Gateway.HttpServer.Requests.{
  Request, OrderRequest, read_order, read_price, side_of, type_of,
}
use titan_x.Gateway.HttpServer.Responses.{Response, Server, Reply, set_world, authenticate}
use titan_x.Gateway.HttpServer.Operations.{admin_halt, get_orderbook}
use titan_x.Gateway.HttpServer.Orders.{delete_order, post_order, acquire, try_order}
use titan_x.Gateway.HttpServer.Access.{
  HasCode, IsVerified, handle, posts, resumes, handle-unauthorized,
}
use titan_x.Gateway.HttpServer.Tokens.{
  authenticate-generate_access_token, admin_halt-generate_refresh_token,
}
use titan_x.Gateway.HttpServer.Submission.{
  IsSubmitted, Untouched, post_order-cases, delete_order-any_account,
}
use titan_x.Gateway.HttpServer.Orderbook.{get_orderbook-throws_iff}
use titan_x.Gateway.HttpServer.Soundness.{
  HasSoundEngine, AsksAcceptably, handle-HasSoundEngine, delete_order-Removed,
}
use titan_x.Gateway.HttpServer.Samples.{
  issued, server, document, json, with_token, access, anonymous, order_request, fresh,
}

anonymous-unverified : ¬ IsVerified integers json plain_tokens consumers anonymous server
anonymous-unverified v = absurd (cc v.bearer)

handle-unauthorized_example :
    (r : Result Response) × (w : World) × (handle integers json plain_tokens consumers resumes
        anonymous server
      ≡ some (r, set_world server w))
    × HasCode integers json plain_tokens consumers 401 r
handle-unauthorized_example =
    handle-unauthorized integers json plain_tokens consumers resumes anonymous server
      anonymous-unverified

authenticate-generate_access_token_example :
    (authenticate integers json plain_tokens consumers (access (codes "ann")) server).0 ≡ (
      true,
      record {
        account_id = codes "ann";
        permissions = [];
        token_type = codes "ACCESS";
        valid = true;
        error = [];
      },
    )
unfolding now
authenticate-generate_access_token_example =
    authenticate-generate_access_token integers json plain_tokens consumers plain_tokens-IsLawful
      issued (access (codes "ann")) server (omega arith) (codes "ann") [] tt (omega arith)
      (omega arith) refl

abbrev refresh : Request
refresh = with_token (generate_refresh_token plain_tokens (codes "ann") (codes "s1") issued).0

admin_halt-generate_refresh_token_example :
    (r : Result Response) × (s' : Server Calls) × (admin_halt integers json plain_tokens consumers
        refresh server
      ≡ some (r, s'))
    × (s'.exchange.engine.halted ≡ true)
unfolding now
admin_halt-generate_refresh_token_example =
    admin_halt-generate_refresh_token integers json plain_tokens consumers plain_tokens-IsLawful
      issued refresh server (omega arith) (codes "ann") (codes "s1") (omega arith) (omega arith)
      refl

delete_order-any_account_example :
    delete_order integers json plain_tokens consumers (codes "1") (access (codes "ann")) server
    ≡ delete_order integers json plain_tokens consumers (codes "1") (access (codes "bob")) server
unfolding authenticate text_eq generate_access_token validate_and_extract lookup now
delete_order-any_account_example =
    delete_order-any_account integers json plain_tokens consumers (codes "1") (access (codes "ann"))
      (access (codes "bob")) server refl refl refl

get_orderbook-throws_iff_example :
    ((what : Text) × (get_orderbook integers json plain_tokens consumers
          (codes "aapl")
          anonymous
          server
        ≡ some (err what, server)))
    ↔ ((OrderBook.init (codes "AAPL")).last_trade_price ≡ none)
unfolding lookup text_eq
get_orderbook-throws_iff_example =
    get_orderbook-throws_iff integers json plain_tokens consumers (codes "aapl") anonymous server
      (OrderBook.init (codes "AAPL")) (λ j h. (_, refl)) refl refl
