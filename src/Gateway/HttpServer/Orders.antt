-- ===== src/Gateway/HttpServer/Orders.antt =====
-- The handlers that submit an order and take it back.
use titan_x.Prelude.{Bool, List, [], ◌∷◌, map, length, Option, none, some, if◌then◌else◌}
use titan_x.Prelude.Int.{pos}
use titan_x.Prelude.Text.{Text, codes}
use titan_x.Prelude.Map.{lookup}
use titan_x.Prelude.Decimal
use titan_x.Prelude.Results.{Result, ok, err}
use titan_x.Prelude.Floats.{Floats}
use titan_x.Model.OrderStatus
use titan_x.Model.Order
use titan_x.Model.Order.{Order}
use titan_x.Model.Trade.{Trade}
use titan_x.Model.Prices.{price_to_string}
use titan_x.Engine.MatchingEngine
use titan_x.Engine.MatchingEngine.{Exchange, Consumers, submit}
use titan_x.Serialization.Library.{JsonLibrary}
use titan_x.Gateway.RateLimiter.{try_acquire, retry_after_seconds}
use titan_x.Gateway.JwtTokenService.{JwtLibrary, JwtClaims}
use titan_x.Gateway.HttpServer.Requests.{Request, read_order, upper}
use titan_x.Gateway.HttpServer.Responses.{
  Response, json_header, Server, Reply, set_world, now_ms, respond, text_field, authenticate,
  catching, unauthorized, with_engine,
}

module _ (F : Floats) (J : JsonLibrary F) (L : JwtLibrary) {S : Type 0} (c : Consumers S) where
  abbrev trade_object : Trade → J.Json
  trade_object t = J.object (
      text_field F J L c (codes "tradeId") t.trade_id
      ∷ text_field F J L c (codes "price") (price_to_string F t.price)
      ∷ (codes "quantity", J.of_int t.quantity)
      ∷ [])

  -- The answer to a submission: the status is that of the order as it was created.
  unfoldable pub submitted : Order → List Trade → Result Response
  unfolding respond
  submitted o trades =
      respond F J L c 200
        (text_field F J L c (codes "orderId") o.order_id
          ∷ text_field F J L c (codes "status") (OrderStatus.to_string o.status)
          ∷ (codes "tradesCount", J.of_int (pos (length trades)))
          ∷ (codes "trades", J.array (map trade_object trades))
          ∷ [])
        json_header

  -- The try block of POST /api/v1/orders.
  unfoldable pub try_order : JwtClaims → Request → Server S → Option (Reply S)
  unfolding submitted
  try_order claims req s = elim (read_order F J req.body) [
    | err what ↦ some (err what, s)
    | ok r ↦
        let (o, w) =
          Order.create claims.account_id r.symbol r.side r.type r.price r.stop_price r.quantity
            s.exchange.world in
        elim (submit c o (record s.exchange { world = w })) [
          | none ↦ none
          | some (trades, x) ↦ some (submitted o trades, record s { exchange = x })
        ]
  ]

  abbrev pub order_submit : Text
  order_submit = codes "ORDER_SUBMIT"

  -- The rate limiter's `tryAcquire`; the first reading is used by a new bucket alone.
  abbrev pub acquire : JwtClaims → Server S → Bool × Server S
  acquire claims s =
      let (created, w1) = now_ms s.exchange.world in
      let (t, w2) = now_ms w1 in
      let (granted, m) = try_acquire claims.account_id order_submit created t s.limiter in
      (granted, record (set_world s w2) { limiter = m })

  abbrev pub too_many : JwtClaims → Server S → Reply S
  too_many claims s =
      let (t, w) = now_ms s.exchange.world in
      let retry_after = retry_after_seconds claims.account_id order_submit t s.limiter in
      (
        respond F J L c 429
            (text_field F J L c (codes "error") (codes "RATE_LIMIT_EXCEEDED")
              ∷ text_field F J L c (codes "message") (codes "Maximum 100 orders/second per account")
              ∷ (codes "retryAfter", J.of_int retry_after)
              ∷ [])
            ((codes "Retry-After", Decimal.to_string retry_after) ∷ json_header),
        set_world s w,
      )

  -- POST /api/v1/orders
  unfoldable pub post_order : Request → Server S → Option (Reply S)
  unfolding authenticate try_order respond
  post_order req s =
      let ((authed, claims), s1) = authenticate F J L c req s in
      let (granted, s2) = acquire claims s1 in
      if authed
      then (if granted
          then elim (try_order claims req s2) [
            | none ↦ none
            | some reply ↦ some (catching F J L c reply)
          ]
          else some (too_many claims s2))
      else some (
        respond F J L c 401
            (text_field F J L c (codes "error") (codes "UNAUTHORIZED")
              ∷ text_field F J L c (codes "message") claims.error
              ∷ [])
            [],
        s1,
      )

  -- DELETE /api/v1/orders/<orderId>, once the request is authenticated.
  unfoldable pub cancel_order : Text → Request → Server S → Reply S
  unfolding respond
  cancel_order order_id req s = elim (lookup (codes "symbol") req.url_params) [
    | none ↦ (
      respond F J L c 400
          (text_field F J L c (codes "error") (codes "MISSING_PARAM")
            ∷ text_field F J L c (codes "message") (codes "symbol query parameter required")
            ∷ [])
          [],
      s,
    )
    | some symbol ↦
        let (cancelled, m) = MatchingEngine.cancel (upper symbol) order_id s.exchange.engine in
        (
          if cancelled
              then respond F J L c 200
                  (text_field F J L c (codes "orderId") order_id
                    ∷ text_field F J L c (codes "status") (codes "CANCELLED")
                    ∷ [])
                  json_header
              else respond F J L c 404
                  (text_field F J L c (codes "error") (codes "ORDER_NOT_FOUND")
                    ∷ text_field F J L c (codes "orderId") order_id
                    ∷ [])
                  [],
          with_engine F J L c s m,
        )
  ]

  unfoldable pub delete_order : Text → Request → Server S → Option (Reply S)
  unfolding authenticate cancel_order respond
  delete_order order_id req s =
      let ((authed, claims), s1) = authenticate F J L c req s in
      some (if authed then cancel_order order_id req s1 else unauthorized F J L c s1)
