-- ===== src/Process/Examples.antt =====
-- A configuration, an order that is posted to the server that `main` starts, and the properties at them.
use titan_x.Prelude.{◌%◌, ◌^◌, ◌≡◌, refl, inl, inr, Bool, false, none, [], ◌∷◌, arith}
use titan_x.Prelude.Text.{Text, codes, text_eq}
use titan_x.Prelude.Map.{Map, lookup}
use titan_x.Prelude.Decimal.{decimal}
use titan_x.Prelude.Results.{ok}
use titan_x.Model.World.{World}
use titan_x.Serialization.Samples.{integers}
use titan_x.Gateway.JwtTokenService.Samples.{plain_tokens}
use titan_x.Gateway.HttpServer.Access.{handle, posts}
use titan_x.Gateway.HttpServer.Samples.{issued, json, order_request}
use titan_x.Gateway.HttpServer.Posted.{posted, posted-runs, order-AsksAcceptably}
use titan_x.Persistence.Database.{Postgres}
use titan_x.Persistence.RedisPositionCache.{Redis}
use titan_x.Process.{opening, Application, start_up}
use titan_x.Process.Configuration.{start_up-ports}
use titan_x.Process.Serving.{Served, start, answers, protected, serve, IsKept, opening-IsKept}

abbrev world : World
world = record issued { ticks = 600 }

one_order : Served integers json plain_tokens (opening world) posted.1
unfolding serve handle
one_order = answers (protected posts) order_request posted.0 start order-AsksAcceptably posted-runs

opening-IsKept_example : IsKept integers json plain_tokens posted.1.exchange
opening-IsKept_example = opening-IsKept integers json plain_tokens world posted.1 one_order

-- A port beyond 65535.
abbrev environment : Map Text
environment =
    (codes "TITANX_REDIS_PORT", decimal 6380) ∷ (codes "TITANX_HTTP_PORT", decimal 70000) ∷ []

-- Nobody answers.
abbrev no_database : Postgres
no_database = record {
  State = Unit {0};
  connect = λ url db. (false, db);
  exec = λ sql values db. (false, db);
}

abbrev no_redis : Redis
no_redis = record {
  State = Unit {0};
  connect = λ host port st. (false, st);
  command = λ words st. (none, st);
}

start_up-ports_example :
    (a : Application integers json no_database no_redis) × (start_up integers json no_database
        no_redis environment tt tt world
      ≡ ok a)
    × (◌≡◌ {A = Bool × Unit {0}} (a.store.conn, a.store.db) (false, tt))
    × (◌≡◌ {A = Bool × Unit {0}} (a.cache.connected, a.cache.server) (false, tt))
    × (a.port ≡ 70000 % 2 ^ 16)
    × (a.server ≡ opening world)
unfolding lookup text_eq
start_up-ports_example =
    start_up-ports integers json no_database no_redis environment
      (codes "host=localhost port=5432 dbname=titanx user=titanx password=titanx")
      (codes "localhost") 6380 70000 tt tt world (inr (refl, refl)) (inr (refl, refl)) (inl refl)
      (inl refl) (omega arith) (omega arith)
