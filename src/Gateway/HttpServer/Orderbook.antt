-- ===== src/Gateway/HttpServer/Orderbook.antt =====
-- The order book as it is read over HTTP.
use titan_x.Prelude.{◌≡◌, refl, ap, ◌∙◌, inl, inr, ◌↔◌, none, some, Option-cases, arith}
use titan_x.Prelude.Text.{Text, codes}
use titan_x.Prelude.Int.{ℤ}
use titan_x.Prelude.Map.{lookup}
use titan_x.Prelude.Results.{Result, ok, err, ◌>>=◌}
use titan_x.Prelude.Floats.{Floats}
use titan_x.Serialization.Library.{JsonLibrary}
use titan_x.Serialization.Books.{last_price_text, snapshot_to_json}
use titan_x.Engine.OrderBook.{OrderBook, OrderBookSnapshot, snapshot}
use titan_x.Engine.MatchingEngine.{MatchingEngine, Consumers, get_snapshot}
use titan_x.Gateway.JwtTokenService.{JwtLibrary}
use titan_x.Gateway.HttpServer.Requests.{Request, upper, read_depth}
use titan_x.Gateway.HttpServer.Responses.{Response, Server, json_header}
use titan_x.Gateway.HttpServer.Operations.{get_orderbook}

get_snapshot-known :
    (symbol : Text) (depth : ℤ) (m : MatchingEngine) (b : OrderBook)
    → lookup symbol m.books ≡ some b
    → lookup symbol m.locks ≡ some tt
    → get_snapshot symbol depth m ≡ some (snapshot b depth)
unfolding get_snapshot
get_snapshot-known symbol depth m b e d = rw (get_snapshot, e, d) refl

module _ (F : Floats) (J : JsonLibrary F) (L : JwtLibrary) {S : Type 0} (c : Consumers S) where
  -- The answer for a symbol that has a book.
  unfoldable answer : OrderBookSnapshot → Result Response
  answer snapshot = do
    j ← snapshot_to_json F J snapshot
    body ← J.dump j
    ok (record { code = 200; body = body; headers = json_header })

  get_orderbook-known :
      (symbol : Text) (req : Request) (s : Server S) (b : OrderBook)
      → lookup (upper symbol) s.exchange.engine.books ≡ some b
      → lookup (upper symbol) s.exchange.engine.locks ≡ some tt
      → get_orderbook F J L c symbol req s
        ≡ some (answer (snapshot b (read_depth (lookup (codes "depth") req.url_params))), s)
  unfolding get_orderbook answer
  get_orderbook-known symbol req s b e d =
      rw
        (
          get_orderbook,
          get_snapshot-known (upper symbol) (read_depth (lookup (codes "depth") req.url_params))
              s.exchange.engine b e d,
        )
        refl

  answer-none :
      (t : OrderBookSnapshot)
      → t.last_trade_price ≡ none
      → answer t ≡ err (codes "basic_string: construction from null is not valid")
  unfolding answer snapshot_to_json last_price_text
  answer-none t h = rw h refl

  json-some :
      (t : OrderBookSnapshot) (p : ℤ)
      → t.last_trade_price ≡ some p
      → (j : J.Json) × (snapshot_to_json F J t ≡ ok j)
  unfolding snapshot_to_json last_price_text
  json-some t p h = rw h (_, refl)

  answer-some :
      (t : OrderBookSnapshot) (p : ℤ)
      → ((j : J.Json) → snapshot_to_json F J t ≡ ok j → (text : Text) × (J.dump j ≡ ok text))
      → t.last_trade_price ≡ some p
      → (resp : Response) × (answer t ≡ ok resp)
  unfolding answer
  answer-some t p prints h = let (j, e) = json-some t p h in rw (e, (prints j e).1) (_, refl)

  -- If the library prints the JSON value of the snapshot that is read, reading the book of a known
  -- symbol throws exactly if the book has had no trade.
  pub get_orderbook-throws_iff :
      (symbol : Text) (req : Request) (s : Server S) (b : OrderBook)
      → ((j : J.Json)
          → snapshot_to_json F J (snapshot b (read_depth (lookup (codes "depth") req.url_params)))
            ≡ ok j
          → (t : Text) × (J.dump j ≡ ok t))
      → lookup (upper symbol) s.exchange.engine.books ≡ some b
      → lookup (upper symbol) s.exchange.engine.locks ≡ some tt
      → ((what : Text) × (get_orderbook F J L c symbol req s ≡ some (err what, s)))
        ↔ (b.last_trade_price ≡ none)
  unfolding snapshot
  get_orderbook-throws_iff symbol req s b prints e d =
      let t = snapshot b (read_depth (lookup (codes "depth") req.url_params)) in
      let known = get_orderbook-known symbol req s b e d in
      (
        λ (what, h). elim (Option-cases b.last_trade_price) [
          | inl n ↦ n
          | inr (p, k) ↦
              let (resp, r) = answer-some t p prints k in absurd (ground (arith, h, known, r))
        ],
        λ n. (_, known ∙ ap (λ a. some (a, s)) (answer-none t n)),
      )
