-- ===== src/Process/Serving.antt =====
-- What holds of the server that `main` starts, whatever requests it answers.
use titan_x.Prelude.{
  ◌≡◌, refl, ap, sym, ◌∙◌, subst, inl, inr, All, [], Option, some, arith, Bool-cases, Option-cases,
}
use titan_x.Prelude.Int.{pos}
use titan_x.Prelude.Text.{Text, codes, text_eq}
use titan_x.Prelude.Map.{lookup}
use titan_x.Prelude.Results.{Result, Result-cases}
use titan_x.Prelude.Floats.{Floats}
use titan_x.Model.World.{World}
use titan_x.Serialization.Library.{JsonLibrary}
use titan_x.Engine.MatchingEngine.{Exchange}
use titan_x.Engine.MatchingEngine.Soundness.{IsSound}
use titan_x.Gateway.JwtTokenService.{JwtLibrary}
use titan_x.Gateway.HttpServer.Requests.{Request, upper, read_login}
use titan_x.Gateway.HttpServer.Responses.{Response, Server, Reply, authenticate}
use titan_x.Gateway.HttpServer.Orders.{acquire, post_order, delete_order, cancel_order}
use titan_x.Gateway.HttpServer.Operations.{admin_halt, admin_resume, get_orderbook, health}
use titan_x.Gateway.HttpServer.Login.{login, try_login}
use titan_x.Gateway.HttpServer.Access.{
  Protected, posts, deletes, halts, resumes, handle, authenticate-world,
}
use titan_x.Gateway.HttpServer.Submission.{requested, post_order-cases, catching-server}
use titan_x.Gateway.HttpServer.Soundness.{AsksAcceptably}
use titan_x.Wiring.{Calls, consumers}
use titan_x.Wiring.Balance.{net, Reach-net}
use titan_x.Wiring.SelfTrade.{HasTwo, Reach-HasTwo}
use titan_x.Wiring.Reachability
use titan_x.Wiring.Reachability.{Reach, Reach-IsSound, here, next}
use titan_x.Process.{opening}

-- The routes.
pub data Route : Type 0 where
  protected : Protected → Route
  logs_in : Route
  shows_book : Text → Route
  shows_health : Route

module _ (F : Floats) (J : JsonLibrary F) (L : JwtLibrary) where
  unfoldable pub serve : Route → Request → Server Calls → Option (Reply Calls)
  unfolding handle
  serve (protected p) req s = handle F J L consumers p req s
  serve logs_in req s = login F J L consumers req s
  serve (shows_book symbol) req s = get_orderbook F J L consumers symbol req s
  serve shows_health req s = health F J L consumers req s

  -- The server after requests that it answered, one after the other.
  pub data Served (s : Server Calls) : Server Calls → Type 0 where
    start : Served s s
    answers :
        {t u : Server Calls} (route : Route) (req : Request) (r : Result Response)
        → Served s t
        → AsksAcceptably F J L req
        → serve route req t ≡ some (r, u)
        → Served s u

  follows : (x y z : Exchange Calls) → Reach x y → Reach y z → Reach x z
  follows x y z r here = r
  follows x y z r (next r' st) = next (follows x y _ r r') st

  post_order-Reach :
      (req : Request) (s s' : Server Calls) (r : Result Response)
      → AsksAcceptably F J L req
      → post_order F J L consumers req s ≡ some (r, s')
      → Reach s.exchange s'.exchange
  post_order-Reach req s s' r a e = elim (post_order-cases F J L consumers req s s' r e) [
    | inl u ↦ next here (Reachability.reads s'.exchange.world u)
    | inr (_, _, x) ↦
        let claims = (authenticate F J L consumers req s).0.1 in
        let s2 = (acquire F J L consumers claims (authenticate F J L consumers req s).1).1 in
        let o = requested claims x.request s2 in
        let (w, k) = authenticate-world F J L consumers req s in
        next
          (next here (
            Reachability.reads o.1
              (ap (λ (z : Server Calls). record z.exchange { world = o.1 }) k)))
          (Reachability.submits o.0 x.trades (a claims x.request s2 x.reads) x.runs)
  ]

  -- A request to a protected route, once its token was looked at.
  authenticated-Reach :
      (req : Request) (s : Server Calls)
      → Reach s.exchange (authenticate F J L consumers req s).1.exchange
  authenticated-Reach req s =
      let (w, k) = authenticate-world F J L consumers req s in
      next here (Reachability.reads w (ap (λ (z : Server Calls). z.exchange) k))

  cancel_order-Reach :
      (order_id : Text) (req : Request) (s : Server Calls)
      → Reach s.exchange (cancel_order F J L consumers order_id req s).1.exchange
  unfolding cancel_order
  cancel_order-Reach order_id req s = elim (Option-cases (lookup (codes "symbol") req.url_params)) [
    | inl e ↦ rw (e, cancel_order) here
    | inr (symbol, e) ↦
        rw (e, cancel_order) (next here (Reachability.cancels (upper symbol) order_id refl))
  ]

  handle-Reach :
      (p : Protected) (req : Request) (s s' : Server Calls) (r : Result Response)
      → AsksAcceptably F J L req
      → handle F J L consumers p req s ≡ some (r, s')
      → Reach s.exchange s'.exchange
  unfolding handle delete_order admin_halt admin_resume
  handle-Reach posts req s s' r a e = post_order-Reach req s s' r a e
  handle-Reach (deletes order_id) req s s' r a e =
      let s1 = (authenticate F J L consumers req s).1 in
      let read = authenticated-Reach req s in
      elim (Bool-cases (authenticate F J L consumers req s).0.0) [
        | inl b ↦
            let same : (cancel_order F J L consumers order_id req s1).1 ≡ s' =
              ground (arith, e, b) in
            subst (λ (z : Server Calls). Reach s.exchange z.exchange) same
              (follows s.exchange s1.exchange _ read (cancel_order-Reach order_id req s1))
        | inr b ↦
            let same : s1 ≡ s' = ground (arith, e, b) in
            subst (λ (z : Server Calls). Reach s.exchange z.exchange) same read
      ]
  handle-Reach halts req s s' r a e =
      let s1 = (authenticate F J L consumers req s).1 in
      let read = authenticated-Reach req s in
      elim (Bool-cases (authenticate F J L consumers req s).0.0) [
        | inl b ↦ next read (Reachability.halts (ground (arith, e, b)))
        | inr b ↦
            let same : s1 ≡ s' = ground (arith, e, b) in
            subst (λ (z : Server Calls). Reach s.exchange z.exchange) same read
      ]
  handle-Reach resumes req s s' r a e =
      let s1 = (authenticate F J L consumers req s).1 in
      let read = authenticated-Reach req s in
      elim (Bool-cases (authenticate F J L consumers req s).0.0) [
        | inl b ↦ next read (Reachability.resumes (ground (arith, e, b)))
        | inr b ↦
            let same : s1 ≡ s' = ground (arith, e, b) in
            subst (λ (z : Server Calls). Reach s.exchange z.exchange) same read
      ]

  try_login-Reach :
      (req : Request) (s : Server Calls)
      → Reach s.exchange (try_login F J L consumers req s).1.exchange
  unfolding try_login
  try_login-Reach req s = elim (Result-cases (read_login F J req.body)) [
    | inl (what, e) ↦ rw (e, try_login) here
    | inr ((account_id, password), e) ↦ elim (Bool-cases (text_eq account_id [])) [
      | inl a ↦ rw (e, try_login, a) here
      | inr a ↦ elim (Bool-cases (text_eq password (codes "titan"))) [
        | inl b ↦ rw (e, try_login, a, b) (next here (Reachability.reads _ refl))
        | inr b ↦ rw (e, try_login, a, b) here
      ]
    ]
  ]

  login-Reach :
      (req : Request) (s s' : Server Calls) (r : Result Response)
      → login F J L consumers req s ≡ some (r, s')
      → Reach s.exchange s'.exchange
  unfolding login
  login-Reach req s s' r e =
      let tried = try_login F J L consumers req s in
      let same : tried.1 ≡ s' =
        sym (catching-server F J L consumers tried.0 tried.1) ∙ ground (arith, e) in
      subst (λ (z : Server Calls). Reach s.exchange z.exchange) same (try_login-Reach req s)

  get_orderbook-same :
      (symbol : Text) (req : Request) (s s' : Server Calls) (r : Result Response)
      → get_orderbook F J L consumers symbol req s ≡ some (r, s')
      → s ≡ s'
  unfolding get_orderbook
  get_orderbook-same symbol req s s' r e = ground (arith, e)

  health-same :
      (req : Request) (s s' : Server Calls) (r : Result Response)
      → health F J L consumers req s ≡ some (r, s')
      → s ≡ s'
  unfolding health
  health-same req s s' r e = ground (arith, e)

  serve-Reach :
      (route : Route) (req : Request) (s s' : Server Calls) (r : Result Response)
      → AsksAcceptably F J L req
      → serve route req s ≡ some (r, s')
      → Reach s.exchange s'.exchange
  unfolding serve
  serve-Reach (protected p) req s s' r a e = handle-Reach p req s s' r a e
  serve-Reach logs_in req s s' r a e = login-Reach req s s' r e
  serve-Reach (shows_book symbol) req s s' r a e =
      subst (λ (z : Server Calls). Reach s.exchange z.exchange)
        (get_orderbook-same symbol req s s' r e) here
  serve-Reach shows_health req s s' r a e =
      subst (λ (z : Server Calls). Reach s.exchange z.exchange) (health-same req s s' r e) here

  Served-Reach : (s t : Server Calls) → Served s t → Reach s.exchange t.exchange
  Served-Reach s t start = here
  Served-Reach s u (answers {t = t} route req r before a e) =
      follows s.exchange t.exchange u.exchange (Served-Reach s t before)
        (serve-Reach route req t u r a e)

  -- What is promised of the exchange behind the server.
  pub record IsKept (x : Exchange Calls) : Type 0 where
    pub sound : IsSound x.engine x.risk
    pub apart : All HasTwo x.outside.published
    pub balanced : (symbol : Text) → net symbol (pos 0) x.outside.position_updates ≡ pos 0

  -- The server that `main` starts, after any sequence of requests to any of its routes that it answered
  -- one after the other, if every body that is read as an order asks for a remaining quantity below 2^63
  -- and, if LIMIT or IOC, a price other than 0: its engine is sound (every book is valid and holds only
  -- orders that the risk engine has on record, at prices other than 0); no published trade has the same
  -- account on both sides; and the moves that the position cache was told add up to zero in each symbol.
  pub opening-IsKept : (w : World) (t : Server Calls) → Served (opening w) t → IsKept t.exchange
  opening-IsKept w t served =
      let x = (opening w).exchange in
      let reach = Served-Reach (opening w) t served in
      record {
        sound = Reach-IsSound x t.exchange refl reach;
        apart = Reach-HasTwo x t.exchange refl refl reach;
        balanced = λ symbol. Reach-net symbol x t.exchange refl reach;
      }
