-- ===== src/Persistence/RedisPositionCache.antt =====
-- class RedisPositionCache (backend/src/persistence/RedisPositionCache.cpp). hiredis and the server
-- are not part of the repository: what the code calls of them is a parameter. The logging is left
-- out.
pub mod Keys
pub mod Positions
mod Examples
use titan_x.Prelude.{
  ℕ, zero, suc, Bool, true, false, List, [], ◌∷◌, ◌++◌, Option, none, some, if◌then◌else◌,
}
use titan_x.Prelude.Int.{ℤ, pos}
use titan_x.Prelude.Text.{Text, codes}
use titan_x.Prelude.Decimal
use titan_x.Prelude.Results.{Result, ok, err}

-- A reply by its type: a string, or another.
pub data RedisReply : Type 0 where
  string : Text → RedisReply
  other : RedisReply

pub record Redis : Type 1 where
  pub State : Type 0
  -- `redisConnectWithTimeout` with a host and a port: whether there is a context without an error.
  pub connect : Text → ℤ → State → Bool × State
  -- `redisCommand`, with the words that its format gives; no reply is a null pointer.
  pub command : List Text → State → Option RedisReply × State

-- A text up to its first zero, as `%s` reads it.
abbrev pub c_str : Text → Text
c_str [] = []
c_str (zero ∷ s) = []
c_str (suc c ∷ s) = suc c ∷ c_str s

unfoldable pub position_key : Text → Text → Text
position_key account_id symbol = codes "pos:" ++ account_id ++ codes ":" ++ symbol

unfoldable pub order_key : Text → Text
order_key order_id = codes "order:" ++ order_id ++ codes ":status"

module _ (R : Redis) where
  -- `connected` is that `ctx_` is not null.
  pub record RedisPositionCache : Type 0 where
    pub connected : Bool
    pub server : R.State

  -- The constructor.
  unfoldable pub open_cache : Text → ℤ → R.State → RedisPositionCache
  open_cache host port st =
      let (connected, st1) = R.connect (c_str host) port st in
      record { connected = connected; server = st1 }

  -- A command whose reply is not read.
  abbrev send : List Text → RedisPositionCache → RedisPositionCache
  send words c = if c.connected then record c { server = (R.command words c.server).1 } else c

  unfoldable pub update_position : Text → Text → ℤ → RedisPositionCache → RedisPositionCache
  unfolding position_key
  update_position account_id symbol delta =
      send (codes "INCRBY" ∷ c_str (position_key account_id symbol) ∷ Decimal.to_string delta ∷ [])

  -- The exception of `std::stoll` on what is no number.
  abbrev pub read_number : Option RedisReply → Result ℤ
  read_number (some (string s)) = elim (Decimal.stoll (c_str s)) [
    | none ↦ err (codes "stoll")
    | some n ↦ ok n
  ]
  read_number _ = ok (pos 0)

  unfoldable pub get_position : Text → Text → RedisPositionCache → Result ℤ × RedisPositionCache
  unfolding position_key
  get_position account_id symbol c =
      let (reply, st) =
        R.command (codes "GET" ∷ c_str (position_key account_id symbol) ∷ []) c.server in
      if c.connected then (read_number reply, record c { server = st }) else (ok (pos 0), c)

  unfoldable pub set_order_status : Text → Text → RedisPositionCache → RedisPositionCache
  unfolding order_key
  set_order_status order_id status =
      send (codes "SETEX" ∷ c_str (order_key order_id) ∷ codes "3600" ∷ c_str status ∷ [])

  abbrev read_text : Option RedisReply → Text
  read_text (some (string s)) = c_str s
  read_text _ = []

  unfoldable pub get_order_status : Text → RedisPositionCache → Text × RedisPositionCache
  unfolding order_key
  get_order_status order_id c =
      let (reply, st) = R.command (codes "GET" ∷ c_str (order_key order_id) ∷ []) c.server in
      if c.connected then (read_text reply, record c { server = st }) else ([], c)

  unfoldable pub publish_fill : Text → Text → RedisPositionCache → RedisPositionCache
  publish_fill symbol trade_json =
      send (codes "PUBLISH" ∷ c_str (codes "fills:" ++ symbol) ∷ c_str trade_json ∷ [])

  unfoldable pub close : RedisPositionCache → RedisPositionCache
  close c = record c { connected = false }
