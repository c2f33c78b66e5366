-- ===== src/Process.antt =====
-- backend/src/main.cpp: the configuration from the environment, and the objects that `main` creates
-- before it starts the server. The environment is a map, and std::stoi is written out.
pub mod Serving
pub mod Configuration
mod Examples
use titan_x.Prelude.{
  ℕ, ◌+◌, ◌-◌, ◌*◌, ◌%◌, ◌^◌, Bool, true, false, List, [], ◌∷◌, Option, none, some, ltb, leb, ◌==◌,
  if◌then◌else◌,
}
use titan_x.Prelude.Int.{ℤ, pos, negsuc}
use titan_x.Prelude.Text.{Text, codes}
use titan_x.Prelude.Map.{Map, lookup}
use titan_x.Prelude.Decimal.{is_digit, read_digits}
use titan_x.Prelude.Results.{Result, ok, err, ◌>>=◌}
use titan_x.Model.World.{World}
use titan_x.Risk.CircuitBreaker
use titan_x.Risk.RiskEngine
use titan_x.Engine.MatchingEngine
use titan_x.Gateway.HttpServer.Responses.{Server}
use titan_x.Prelude.Floats.{Floats}
use titan_x.Serialization.Library.{JsonLibrary}
use titan_x.Persistence.Database.{Postgres, at}
use titan_x.Persistence.EventStore.{EventStore, open_store}
use titan_x.Persistence.RedisPositionCache.{Redis, RedisPositionCache, open_cache}
use titan_x.Wiring.{Calls, no_calls}

-- `getEnv`
unfoldable pub get_env : Map Text → Text → Text → Text
get_env env key default_value = elim (lookup key env) [ none ↦ default_value | some v ↦ v ]

abbrev is_space : ℕ → Bool
is_space c = if c == b' ' then true else if leb 9 c then leb c 13 else false

-- The digits at the front, of which there is at least one, with a bound on the value.
abbrev unsigned : (ℕ → Result ℤ) → Text → Result ℤ
unsigned within [] = err (codes "stoi")
unsigned within (c ∷ s) = if is_digit c then within (read_digits 0 (c ∷ s)) else err (codes "stoi")

abbrev positive : ℕ → Result ℤ
positive n = if ltb n (2 ^ 31) then ok (pos n) else err (codes "stoi")

abbrev negative : ℕ → Result ℤ
negative n =
    if n == 0
    then ok (pos 0)
    else if leb n (2 ^ 31)
    then ok (negsuc (n - 1))
    else err (codes "stoi")

-- `std::stoi`: white space, a sign, and the digits as far as they go.
unfoldable pub stoi : Text → Result ℤ
stoi [] = err (codes "stoi")
stoi (c ∷ s) =
    let rest = stoi s in
    if is_space c
    then rest
    else if c == b'-'
    then unsigned negative s
    else if c == b'+'
    then unsigned positive s
    else unsigned positive (c ∷ s)

pub record Config : Type 0 where
  pub db_url : Text
  pub redis_host : Text
  pub redis_port : ℤ
  pub http_port : ℤ

-- The exception of `std::stoi` leaves `main`.
unfoldable pub configure : Map Text → Result Config
configure env = do
  let db_url =
      get_env env (codes "TITANX_DB_URL")
        (codes "host=localhost port=5432 dbname=titanx user=titanx password=titanx")
  let redis_host = get_env env (codes "TITANX_REDIS_HOST") (codes "localhost")
  redis_port ← stoi (get_env env (codes "TITANX_REDIS_PORT") (codes "6379"))
  http_port ← stoi (get_env env (codes "TITANX_HTTP_PORT") (codes "8081"))
  ok (record {
    db_url = db_url;
    redis_host = redis_host;
    redis_port = redis_port;
    http_port = http_port;
  })

-- `static_cast<uint16_t>`
unfoldable pub to_uint16 : ℤ → ℕ
to_uint16 (pos n) = n % 2 ^ 16
to_uint16 (negsuc n) = 2 ^ 16 - 1 - n % 2 ^ 16

-- The objects behind the server, before the first request.
abbrev pub opening : World → Server Calls
opening w = record {
  exchange = record {
    engine = MatchingEngine.init;
    risk = RiskEngine.init CircuitBreaker.empty;
    outside = no_calls;
    world = w;
  };
  limiter = [];
}

module _ (F : Floats) (J : JsonLibrary F) (P : Postgres) (R : Redis) where
  -- What `main` has before it calls `server.start()`.
  pub record Application : Type 0 where
    pub config : Config
    pub port : ℕ
    pub server : Server Calls
    pub store : EventStore F J (at P config.db_url)
    pub cache : RedisPositionCache R

  -- The constructors, with what they read of the configuration.
  unfoldable pub wire : Config → P.State → R.State → World → Application
  unfolding open_store open_cache
  wire c db st w = record {
    config = c;
    port = to_uint16 c.http_port;
    server = opening w;
    store = open_store F J (at P c.db_url) db;
    cache = open_cache R c.redis_host c.redis_port st;
  }

  unfoldable pub start_up : Map Text → P.State → R.State → World → Result Application
  start_up env db st w = do c ← configure env; ok (wire c db st w)
