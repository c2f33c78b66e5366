-- ===== src/Gateway/HttpServer/Operations.antt =====
-- The handlers that show the book and the state of the engine, and those that halt and resume it.
use titan_x.Prelude.{Bool, [], ◌∷◌, map, Option, none, some, if◌then◌else◌}
use titan_x.Prelude.Text.{Text, codes}
use titan_x.Prelude.Map.{Map, lookup}
use titan_x.Prelude.Results.{Result, ok, ◌>>=◌}
use titan_x.Prelude.Floats.{Floats}
use titan_x.Risk.CircuitBreaker
use titan_x.Engine.MatchingEngine
use titan_x.Engine.MatchingEngine.{Exchange, Consumers, submit}
use titan_x.Serialization.Library.{JsonLibrary}
use titan_x.Serialization.Books.{snapshot_to_json}
use titan_x.Gateway.JwtTokenService.{JwtLibrary}
use titan_x.Gateway.HttpServer.Requests.{Request, read_depth, upper}
use titan_x.Gateway.HttpServer.Responses.{
  Response, json_header, Server, Reply, respond, text_field, authenticate, unauthorized,
  with_engine,
}

module _ (F : Floats) (J : JsonLibrary F) (L : JwtLibrary) {S : Type 0} (c : Consumers S) where
  -- GET /api/v1/orderbook/<symbol>
  unfoldable pub get_orderbook : Text → Request → Server S → Option (Reply S)
  unfolding respond
  get_orderbook symbol req s =
      let found =
        MatchingEngine.get_snapshot (upper symbol)
          (read_depth (lookup (codes "depth") req.url_params)) s.exchange.engine in
      elim found [
        | none ↦ some (
          respond F J L c 404
              (text_field F J L c (codes "error") (codes "SYMBOL_NOT_FOUND")
                ∷ text_field F J L c (codes "symbol") symbol
                ∷ [])
              [],
          s,
        )
        | some snapshot ↦
            let answer : Result Response = (do
              j ← snapshot_to_json F J snapshot
              body ← J.dump j
              ok (record { code = 200; body = body; headers = json_header })) in
            some (answer, s)
      ]

  -- `cbJson` is null until its first member is assigned.
  abbrev halts_object : Map Bool → J.Json
  halts_object [] = J.null
  halts_object (h ∷ hs) = J.object (map (λ p. (p.0, J.of_bool p.1)) (h ∷ hs))

  -- GET /api/v1/health
  unfoldable pub health : Request → Server S → Option (Reply S)
  unfolding respond
  health req s = elim (CircuitBreaker.halt_status s.exchange.risk.circuit_breaker) [
    | none ↦ none
    | some status ↦
        let halted = s.exchange.engine.halted in
        some (
          respond F J L c 200
              (text_field F J L c (codes "status")
                  (if halted then codes "HALTED" else codes "RUNNING")
                ∷ (codes "halted", J.of_bool halted)
                ∷ (codes "circuitBreakers", halts_object status)
                ∷ [])
              json_header,
          s,
        )
  ]

  -- POST /api/v1/admin/halt
  unfoldable pub admin_halt : Request → Server S → Option (Reply S)
  unfolding authenticate respond
  admin_halt req s =
      let ((authed, claims), s1) = authenticate F J L c req s in
      some (
        if authed
        then (
          respond F J L c 200
              (text_field F J L c (codes "status") (codes "HALTED")
                ∷ text_field F J L c (codes "activatedBy") claims.account_id
                ∷ [])
              json_header,
          with_engine F J L c s1 (MatchingEngine.halt s1.exchange.engine),
        )
        else unauthorized F J L c s1)

  -- POST /api/v1/admin/resume
  unfoldable pub admin_resume : Request → Server S → Option (Reply S)
  unfolding authenticate respond
  admin_resume req s =
      let ((authed, claims), s1) = authenticate F J L c req s in
      some (
        if authed
        then (
          respond F J L c 200 (text_field F J L c (codes "status") (codes "RUNNING") ∷ [])
              json_header,
          with_engine F J L c s1 (MatchingEngine.resume s1.exchange.engine),
        )
        else unauthorized F J L c s1)
