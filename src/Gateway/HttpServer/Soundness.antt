-- ===== src/Gateway/HttpServer/Soundness.antt =====
-- The engine behind the routes, with the consumers of `main`.
use titan_x.Prelude.{
  ◌≡◌, refl, inl, inr, Bool, true, false, List, [], ◌∷◌, some, Option-cases, Bool-cases, arith,
}
use titan_x.Prelude.Text.{Text, codes}
use titan_x.Prelude.Map.{lookup, insert}
use titan_x.Prelude.Results.{Result, ok}
use titan_x.Prelude.Floats.{Floats}
use titan_x.Model.World.{now}
use titan_x.Model.Order.{Order}
use titan_x.Serialization.Library.{JsonLibrary}
use titan_x.Engine.OrderBook.{OrderBook}
use titan_x.Engine.OrderBook.Cancel.{Removed}
use titan_x.Engine.MatchingEngine.{MatchingEngine, cancel, halt, resume}
use titan_x.Engine.MatchingEngine.Soundness.{IsSound, IsAcceptable}
use titan_x.Engine.MatchingEngine.Cancellation.{cancel-IsSound, cancel-Removed}
use titan_x.Wiring.{Calls, consumers}
use titan_x.Wiring.Fills.{submit-consumers}
use titan_x.Gateway.JwtTokenService.{JwtLibrary, JwtClaims}
use titan_x.Gateway.HttpServer.Requests.{Request, OrderRequest, read_order, upper}
use titan_x.Gateway.HttpServer.Responses.{
  Response, Server, json_header, respond, set_world, with_engine, authenticate,
}
use titan_x.Gateway.HttpServer.Orders.{acquire, post_order, delete_order, cancel_order}
use titan_x.Gateway.HttpServer.Operations.{admin_halt, admin_resume}
use titan_x.Gateway.HttpServer.Access.{
  Protected, posts, deletes, halts, resumes, handle, HasCode, respond-HasCode, authenticate-world,
}
use titan_x.Gateway.HttpServer.Submission.{requested, post_order-cases, authenticate-valid}

abbrev pub HasSoundEngine : Server Calls → Type 0
HasSoundEngine s = IsSound s.exchange.engine s.exchange.risk

module _ (F : Floats) (J : JsonLibrary F) (L : JwtLibrary) where
  -- If the body is read as an order, the engine may take that order from any account.
  abbrev pub AsksAcceptably : Request → Type 0
  AsksAcceptably req =
      (claims : JwtClaims) (q : OrderRequest) (s : Server Calls)
      → read_order F J req.body ≡ ok q
      → IsAcceptable (requested claims q s).0

  authenticate-HasSoundEngine :
      (req : Request) (s : Server Calls)
      → HasSoundEngine s
      → HasSoundEngine (authenticate F J L consumers req s).1
  authenticate-HasSoundEngine req s h =
      let (w, e) = authenticate-world F J L consumers req s in rw e h

  with_engine-HasSoundEngine :
      (s : Server Calls) (b : Bool)
      → HasSoundEngine s
      → HasSoundEngine (with_engine F J L consumers s (record s.exchange.engine { halted = b }))
  with_engine-HasSoundEngine s b h = record {
    valid = h.valid;
    known = h.known;
    no_stops = h.no_stops;
  }

  post_order-HasSoundEngine :
      (req : Request) (s s' : Server Calls) (r : Result Response)
      → AsksAcceptably req
      → HasSoundEngine s
      → post_order F J L consumers req s ≡ some (r, s')
      → HasSoundEngine s'
  post_order-HasSoundEngine req s s' r a h e =
      elim (post_order-cases F J L consumers req s s' r e) [
        | inl u ↦ rw (u) h
        | inr (_, _, x) ↦
            let claims = (authenticate F J L consumers req s).0.1 in
            let s2 = (acquire F J L consumers claims (authenticate F J L consumers req s).1).1 in
            submit-consumers (requested claims x.request s2).0
              (record s2.exchange { world = (requested claims x.request s2).1 }) x.trades
              s'.exchange (a claims x.request s2 x.reads) (authenticate-HasSoundEngine req s h)
              x.runs
      ]

  cancel_order-HasSoundEngine :
      (order_id : Text) (req : Request) (s : Server Calls)
      → HasSoundEngine s
      → HasSoundEngine (cancel_order F J L consumers order_id req s).1
  unfolding cancel_order
  cancel_order-HasSoundEngine order_id req s h =
      elim (Option-cases (lookup (codes "symbol") req.url_params)) [
        | inl e ↦ rw (e, cancel_order) h
        | inr (symbol, e) ↦
            rw (e, cancel_order)
              (cancel-IsSound (upper symbol) order_id s.exchange.engine s.exchange.risk h)
      ]

  delete_order-sides :
      (order_id : Text) (req : Request) (s s' : Server Calls) (r : Result Response)
      → delete_order F J L consumers order_id req s ≡ some (r, s')
      → ((authenticate F J L consumers req s).0.0 ≡ true
          → s'
            ≡ (cancel_order F J L consumers order_id req (authenticate F J L consumers req s).1).1)
        × ((authenticate F J L consumers req s).0.0 ≡ false
            → s' ≡ (authenticate F J L consumers req s).1)
  unfolding delete_order
  delete_order-sides order_id req s s' r e = (λ y. ground (arith, e, y), λ n. ground (arith, e, n))

  -- A server with a sound engine still has one after any request to a protected route that is
  -- answered, if a posted body that is read as an order asks for a remaining quantity below 2^63
  -- and, if LIMIT or IOC, a price other than 0.
  pub handle-HasSoundEngine :
      (p : Protected) (req : Request) (s s' : Server Calls) (r : Result Response)
      → AsksAcceptably req
      → HasSoundEngine s
      → handle F J L consumers p req s ≡ some (r, s')
      → HasSoundEngine s'
  unfolding handle admin_halt admin_resume halt resume
  handle-HasSoundEngine posts req s s' r a h e = post_order-HasSoundEngine req s s' r a h e
  handle-HasSoundEngine (deletes order_id) req s s' r a h e =
      let (y, n) = delete_order-sides order_id req s s' r e in
      let s1 = (authenticate F J L consumers req s).1 in
      let h1 = authenticate-HasSoundEngine req s h in
      elim (Bool-cases (authenticate F J L consumers req s).0.0) [
        | inl b ↦ rw (y b) (cancel_order-HasSoundEngine order_id req s1 h1)
        | inr b ↦ rw (n b) h1
      ]
  handle-HasSoundEngine halts req s s' r a h e =
      let s1 = (authenticate F J L consumers req s).1 in
      let h1 = authenticate-HasSoundEngine req s h in
      elim (Bool-cases (authenticate F J L consumers req s).0.0) [
        | inl b ↦
            let k : s' ≡ with_engine F J L consumers s1 (halt s1.exchange.engine) =
              ground (arith, e, b) in
            rw k (with_engine-HasSoundEngine s1 true h1)
        | inr b ↦ let k : s' ≡ s1 = ground (arith, e, b) in rw k h1
      ]
  handle-HasSoundEngine resumes req s s' r a h e =
      let s1 = (authenticate F J L consumers req s).1 in
      let h1 = authenticate-HasSoundEngine req s h in
      elim (Bool-cases (authenticate F J L consumers req s).0.0) [
        | inl b ↦
            let k : s' ≡ with_engine F J L consumers s1 (resume s1.exchange.engine) =
              ground (arith, e, b) in
            rw k (with_engine-HasSoundEngine s1 false h1)
        | inr b ↦ let k : s' ≡ s1 = ground (arith, e, b) in rw k h1
      ]

  abbrev cancelled_fields : Text → List (Text × J.Json)
  cancelled_fields order_id =
      (codes "orderId", J.of_text order_id) ∷ (codes "status", J.of_text (codes "CANCELLED")) ∷ []

  cancelled-answer :
      (order_id symbol : Text) (req : Request) (s : Server Calls) (m : MatchingEngine)
      → lookup (codes "symbol") req.url_params ≡ some symbol
      → cancel (upper symbol) order_id s.exchange.engine ≡ (true, m)
      → cancel_order F J L consumers order_id req s ≡ (
        respond F J L consumers 200 (cancelled_fields order_id) json_header,
        with_engine F J L consumers s m,
      )
  unfolding cancel_order respond
  cancelled-answer order_id symbol req s m u c = rw (cancel_order, u, c) refl

  -- In a server with a sound engine, a deletion with a valid token that names the symbol of a
  -- resting order returns; its code is 200, unless the library fails to print the body; it takes
  -- exactly that order out of its book, and changes nothing else of the engine.
  pub delete_order-Removed :
      (order_id symbol : Text) (req : Request) (s : Server Calls) (b : OrderBook) (o : Order)
      → HasSoundEngine s
      → (authenticate F J L consumers req s).0.0 ≡ true
      → lookup (codes "symbol") req.url_params ≡ some symbol
      → lookup (upper symbol) s.exchange.engine.books ≡ some b
      → lookup (upper symbol) s.exchange.engine.locks ≡ some tt
      → lookup order_id b.order_index ≡ some o
      → (r : Result Response) × (s' : Server Calls) × (b' : OrderBook) × (delete_order F J L
            consumers order_id req s
          ≡ some (r, s'))
        × HasCode F J L consumers 200 r
        × (s'.exchange.engine
            ≡ record s.exchange.engine { books = insert (upper symbol) b' s.exchange.engine.books })
        × Removed order_id b b'
  unfolding delete_order
  delete_order-Removed order_id symbol req s b o h y u e d k =
      let (b', c, x) =
        cancel-Removed (upper symbol) order_id s.exchange.engine s.exchange.risk b o h e d k in
      let m : MatchingEngine = record s.exchange.engine {
        books = insert (upper symbol) b' s.exchange.engine.books;
      } in
      (
        respond F J L consumers 200 (cancelled_fields order_id) json_header,
        with_engine F J L consumers (set_world s (now s.exchange.world).1) m,
        b',
        rw
            (
              y,
              authenticate-valid F J L consumers req s y,
              cancelled-answer order_id symbol req (set_world s (now s.exchange.world).1) m u c,
            )
            refl,
        respond-HasCode F J L consumers 200 (cancelled_fields order_id) json_header,
        refl,
        x,
      )
