-- ===== src/Process/Configuration.antt =====
-- What the environment names: the connections and the ports.
use titan_x.Prelude.{ℕ, suc, ◌%◌, ◌^◌, ◌<◌, ◌≡◌, ◌⊎◌, inl, inr, refl, sym, [], none, some, arith}
use titan_x.Prelude.Int.{pos}
use titan_x.Prelude.Text.{Text, codes}
use titan_x.Prelude.Map.{Map, lookup}
use titan_x.Prelude.Decimal.{decimal, digits-head, read_decimal}
use titan_x.Prelude.Results.{ok}
use titan_x.Prelude.Floats.{Floats}
use titan_x.Model.World.{World}
use titan_x.Serialization.Library.{JsonLibrary}
use titan_x.Persistence.Database.{Postgres}
use titan_x.Persistence.RedisPositionCache.{Redis, c_str, open_cache}
use titan_x.Persistence.EventStore
use titan_x.Persistence.EventStore.{open_store}
use titan_x.Process.{
  Config, get_env, stoi, configure, to_uint16, Application, wire, start_up, opening,
}

-- Reading what was printed gives the number back.
stoi-decimal : (n : ℕ) → n < 2 ^ 31 → stoi (decimal n) ≡ ok (pos n)
unfolding stoi decimal
stoi-decimal n h =
    let (c, s, d, k) = digits-head (suc n) n [] (omega arith) in
    let r = read_decimal n in rw d (ground (arith, k, rw d at r, h))

-- The value of a variable, or the default of one that is not set.
abbrev pub IsGiven : Map Text → Text → Text → Text → Type 0
IsGiven env key default_value v =
    (lookup key env ≡ some v) ⊎ ((lookup key env ≡ none) × (v ≡ default_value))

get_env-given :
    (env : Map Text) (key default_value v : Text)
    → IsGiven env key default_value v
    → get_env env key default_value ≡ v
unfolding get_env
get_env-given env key default_value v (inl h) = rw (h, get_env) refl
get_env-given env key default_value v (inr (h, e)) = rw (h, get_env) (sym e)

-- If the environment gives a connection string, a host, and both ports as the decimal digits of
-- numbers below 2^31, by variables or by the defaults of those that are not set: `main` comes to
-- start its server; the event store has what an attempt to connect with that string leaves, and the
-- position cache what an attempt at that host (as a C text) and port leaves; and the server listens
-- on the number named for it modulo 2^16, with nothing ordered or traded.
pub start_up-ports :
    (F : Floats) (J : JsonLibrary F) (P : Postgres) (R : Redis) (env : Map Text) (url host : Text)
    (redis http : ℕ) (db : P.State) (st : R.State) (w : World)
    → IsGiven env
        (codes "TITANX_DB_URL")
        (codes "host=localhost port=5432 dbname=titanx user=titanx password=titanx")
        url
    → IsGiven env (codes "TITANX_REDIS_HOST") (codes "localhost") host
    → IsGiven env (codes "TITANX_REDIS_PORT") (codes "6379") (decimal redis)
    → IsGiven env (codes "TITANX_HTTP_PORT") (codes "8081") (decimal http)
    → redis < 2 ^ 31
    → http < 2 ^ 31
    → (a : Application F J P R) × (start_up F J P R env db st w ≡ ok a)
      × ((a.store.conn, a.store.db) ≡ P.connect url db)
      × ((a.cache.connected, a.cache.server) ≡ R.connect (c_str host) (pos redis) st)
      × (a.port ≡ http % 2 ^ 16)
      × (a.server ≡ opening w)
unfolding start_up configure wire to_uint16 open_store EventStore.start open_cache
start_up-ports F J P R env url host redis http db st w u v a b h k =
    let c : Config = record {
      db_url = url;
      redis_host = host;
      redis_port = pos redis;
      http_port = pos http;
    } in
    (
      wire F J P R c db st w,
      rw
          (
            get_env-given env (codes "TITANX_DB_URL")
                (codes "host=localhost port=5432 dbname=titanx user=titanx password=titanx") url u,
            get_env-given env (codes "TITANX_REDIS_HOST") (codes "localhost") host v,
            get_env-given env (codes "TITANX_REDIS_PORT") (codes "6379") (decimal redis) a,
            get_env-given env (codes "TITANX_HTTP_PORT") (codes "8081") (decimal http) b,
            stoi-decimal redis h,
            stoi-decimal http k,
          )
          refl,
      refl,
      refl,
      refl,
      refl,
    )
