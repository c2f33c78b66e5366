-- ===== src/Gateway/HttpServer/Login.antt =====
-- The login.
use titan_x.Prelude.{[], ◌∷◌, Option, some, if◌then◌else◌}
use titan_x.Prelude.Int.{pos}
use titan_x.Prelude.Text.{codes, text_eq}
use titan_x.Prelude.Results.{ok, err}
use titan_x.Prelude.Floats.{Floats}
use titan_x.Model.Uuid.{generate_uuid}
use titan_x.Engine.MatchingEngine.{Consumers}
use titan_x.Serialization.Library.{JsonLibrary}
use titan_x.Gateway.JwtTokenService.{JwtLibrary, generate_access_token, generate_refresh_token}
use titan_x.Gateway.HttpServer.Requests.{Request, read_login}
use titan_x.Gateway.HttpServer.Responses.{
  json_header, Server, Reply, set_world, respond, text_field, catching,
}

module _ (F : Floats) (J : JsonLibrary F) (L : JwtLibrary) {S : Type 0} (c : Consumers S) where
  -- POST /api/v1/auth/login
  unfoldable pub try_login : Request → Server S → Reply S
  unfolding respond
  try_login req s = elim (read_login F J req.body) [
    | err what ↦ (err what, s)
    | ok (account_id, password) ↦
        if text_eq account_id []
        then (
          respond F J L c 400
              (text_field F J L c (codes "error") (codes "INVALID_REQUEST")
                ∷ text_field F J L c (codes "message") (codes "accountId required")
                ∷ [])
              [],
          s,
        )
        else if text_eq password (codes "titan")
        then (let (access, w1) =
              generate_access_token L account_id (codes "READ" ∷ codes "TRADE" ∷ [])
                s.exchange.world in
            let (session_id, w2) = generate_uuid w1 in
            let (refresh, w3) = generate_refresh_token L account_id session_id w2 in
            (
              respond F J L c 200
                  (text_field F J L c (codes "accessToken") access
                    ∷ text_field F J L c (codes "refreshToken") refresh
                    ∷ (codes "expiresIn", J.of_int (pos 900))
                    ∷ [])
                  json_header,
              set_world s w3,
            ))
        else (
          respond F J L c 401
              (text_field F J L c (codes "error") (codes "UNAUTHORIZED")
                ∷ text_field F J L c (codes "message") (codes "Invalid credentials")
                ∷ [])
              [],
          s,
        )
  ]

  unfoldable pub login : Request → Server S → Option (Reply S)
  unfolding try_login
  login req s = some (catching F J L c (try_login req s))
