-- ===== src/Gateway/HttpServer/Submission.antt =====
-- What a posted order needs to reach the engine, and whose order a deletion may take.
use titan_x.Prelude.{
  ◌≡◌, refl, sym, ◌⊎◌, inl, inr, true, List, some, arith, Bool-cases, Option-cases,
}
use titan_x.Prelude.Text.{Text, codes, text_eq}
use titan_x.Prelude.Results.{Result, ok, err, Result-cases}
use titan_x.Prelude.Floats.{Floats}
use titan_x.Model.World.{World, now}
use titan_x.Model.Order
use titan_x.Model.Order.{Order}
use titan_x.Model.Trade.{Trade}
use titan_x.Serialization.Library.{JsonLibrary}
use titan_x.Serialization.Orders.{front}
use titan_x.Engine.MatchingEngine.{Consumers, submit}
use titan_x.Gateway.JwtTokenService.{JwtLibrary, JwtClaims, validate_and_extract}
use titan_x.Gateway.HttpServer.Requests.{Request, OrderRequest, read_order}
use titan_x.Gateway.HttpServer.Responses.{
  Response, Server, set_world, after_seven, authenticate, catching,
}
use titan_x.Gateway.HttpServer.Orders.{acquire, post_order, try_order, delete_order, cancel_order}
use titan_x.Gateway.HttpServer.Access.{authenticate-world}

-- The order that a request makes, and the engine's world after it is made.
abbrev pub requested : {S : Type 0} → JwtClaims → OrderRequest → Server S → Order × World
requested claims r s =
    Order.create claims.account_id r.symbol r.side r.type r.price r.stop_price r.quantity
      s.exchange.world

module _ (F : Floats) (J : JsonLibrary F) (L : JwtLibrary) {S : Type 0} (c : Consumers S) where
  -- The exchange is the old one, but for the position of the clock.
  abbrev pub Untouched : Server S → Server S → Type 0
  Untouched s s' = s'.exchange ≡ record s.exchange { world = s'.exchange.world }

  -- The request's order was submitted, and this is the exchange after it.
  pub record IsSubmitted (claims : JwtClaims) (req : Request) (s2 s' : Server S) : Type 0 where
    pub request : OrderRequest
    pub trades : List Trade
    pub reads : read_order F J req.body ≡ ok request
    pub runs :
        submit c
          (requested claims request s2).0
          (record s2.exchange { world = (requested claims request s2).1 })
        ≡ some (trades, s'.exchange)

  try_order-cases :
      (claims : JwtClaims) (req : Request) (s s' : Server S) (r : Result Response)
      → try_order F J L c claims req s ≡ some (r, s')
      → (s' ≡ s) ⊎ IsSubmitted claims req s s'
  unfolding try_order
  try_order-cases claims req s s' r h = elim (Result-cases (read_order F J req.body)) [
    | inl (what, e) ↦ inl (ground (arith, h, e))
    | inr (q, e) ↦
        elim (Option-cases (
          submit c (requested claims q s).0
            (record s.exchange { world = (requested claims q s).1 }))) [
              | inl k ↦ absurd (ground (arith, h, e, k))
              | inr ((trades, x), k) ↦
                  let after : s' ≡ record s { exchange = x } = ground (arith, h, e, k) in
                  inr (record { request = q; trades = trades; reads = e; runs = rw (after) k })
            ]
  ]

  pub catching-server : (r : Result Response) (s : Server S) → (catching F J L c (r, s)).1 ≡ s
  catching-server (ok r) s = refl
  catching-server (err what) s = refl

  -- If a posted order is answered, then nothing but the position of the clock has changed in the
  -- exchange; or the request was authenticated, the rate limiter granted it, its body was read as
  -- an order, and the exchange is the one after the submission of that order for the account of the
  -- token.
  pub post_order-cases :
      (req : Request) (s s' : Server S) (r : Result Response)
      → post_order F J L c req s ≡ some (r, s')
      → Untouched s s'
        ⊎ (((authenticate F J L c req s).0.0 ≡ true)
            × ((acquire F J L c (authenticate F J L c req s).0.1 (authenticate F J L c req s).1).0
                ≡ true)
            × IsSubmitted
                (authenticate F J L c req s).0.1
                req
                (acquire F J L c (authenticate F J L c req s).0.1 (authenticate F J L c req s).1).1
                s')
  unfolding post_order
  post_order-cases req s s' r h =
      let a = authenticate F J L c req s in
      let g = acquire F J L c a.0.1 a.1 in
      let (w, e) = authenticate-world F J L c req s in
      elim (Bool-cases a.0.0) [
        | inr n ↦ inl (ground (arith, h, e, n))
        | inl y ↦ elim (Bool-cases g.0) [
          | inr n ↦ inl (ground (arith, h, e, y, n))
          | inl granted ↦ elim (Option-cases (try_order F J L c a.0.1 req g.1)) [
            | inl k ↦ absurd (ground (arith, h, y, granted, k))
            | inr ((r1, s1), k) ↦
                let after : s1 ≡ s' = ground (arith, h, y, granted, k, catching-server r1 s1) in
                elim (try_order-cases a.0.1 req g.1 s1 r1 k) [
                  | inl x ↦ inl (ground (arith, after, x, e))
                  | inr x ↦ inr (y, granted, rw (sym after) x)
                ]
          ]
        ]
      ]

  -- A valid token is one that was looked at, at the time of a reading of the clock.
  pub authenticate-valid :
      (req : Request) (s : Server S)
      → (authenticate F J L c req s).0.0 ≡ true
      → (authenticate F J L c req s).1 ≡ set_world s (now s.exchange.world).1
  unfolding authenticate validate_and_extract
  authenticate-valid req s h =
      elim (Bool-cases (text_eq (front 7 req.authorization) (codes "Bearer "))) [
        | inl y ↦ elim (Result-cases (L.decode (after_seven req.authorization))) [
          | inl (what, e) ↦ absurd (ground (arith, h, y, e))
          | inr (d, e) ↦ rw (y, validate_and_extract, e) refl
        ]
        | inr n ↦ absurd (ground (arith, h, n))
      ]

  -- A deletion does not ask whose order it takes: two requests with a valid token each, of whatever
  -- account, that name the same symbol have the same answer and the same effect.
  pub delete_order-any_account :
      (order_id : Text) (req req' : Request) (s : Server S)
      → (authenticate F J L c req s).0.0 ≡ true
      → (authenticate F J L c req' s).0.0 ≡ true
      → req.url_params ≡ req'.url_params
      → delete_order F J L c order_id req s ≡ delete_order F J L c order_id req' s
  unfolding delete_order cancel_order
  delete_order-any_account order_id req req' s h h' e =
      rw (h, h', authenticate-valid req s h, authenticate-valid req' s h', e) refl
