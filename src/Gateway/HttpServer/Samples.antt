-- ===== src/Gateway/HttpServer/Samples.antt =====
-- A server with the consumers of `main`, and requests to it.
use titan_x.Prelude.{◌*◌, ◌^◌, [], ◌∷◌, ◌++◌}
use titan_x.Prelude.Text.{Text, codes}
use titan_x.Model.World.{World}
use titan_x.Serialization.Library.{JsonLibrary}
use titan_x.Serialization.Samples.{integers, one_document}
use titan_x.Risk.CircuitBreaker
use titan_x.Risk.RiskEngine
use titan_x.Engine.OrderBook
use titan_x.Engine.OrderBook.{OrderBook}
use titan_x.Engine.MatchingEngine.{init}
use titan_x.Wiring.{Calls, no_calls}
use titan_x.Gateway.JwtTokenService.{generate_access_token}
use titan_x.Gateway.JwtTokenService.Samples.{plain_tokens}
use titan_x.Gateway.HttpServer.Requests.{Request}
use titan_x.Gateway.HttpServer.Responses.{Server}

-- One reading each second.
abbrev pub issued : World
issued = record { random = λ n. 7 * n; clock = λ n. n * 10 ^ 9; drawn = 0; ticks = 0 }

abbrev pub server : Server Calls
server = record {
  exchange = record {
    engine = record init {
      books = (codes "AAPL", OrderBook.init (codes "AAPL")) ∷ [];
      locks = (codes "AAPL", tt) ∷ [];
    };
    risk = RiskEngine.init CircuitBreaker.empty;
    outside = no_calls;
    world = record issued { ticks = 600 };
  };
  limiter = [];
}

abbrev pub document : Text
document = codes "an order"

abbrev pub json : JsonLibrary integers
json = one_document document (
    (codes "symbol", codes "aapl")
    ∷ (codes "side", codes "buy")
    ∷ (codes "type", codes "limit")
    ∷ (codes "quantity", codes "7")
    ∷ (codes "price", codes "100")
    ∷ [])

abbrev pub with_token : Text → Request
with_token token = record {
  body = document;
  authorization = codes "Bearer " ++ token;
  url_params = (codes "symbol", codes "AAPL") ∷ [];
}

abbrev pub access : Text → Request
access account_id = with_token (generate_access_token plain_tokens account_id [] issued).0

abbrev pub anonymous : Request
anonymous = record { body = document; authorization = []; url_params = [] }

abbrev pub order_request : Request
order_request = access (codes "ann")

-- A server before its first order.
abbrev pub fresh : Server Calls
fresh = record server { exchange = record server.exchange { engine = init } }
