-- ===== src/Gateway/HttpServer/Responses.antt =====
-- What the handlers share: the response, the objects that they refer to, and the look at the token.
use titan_x.Prelude.{ℕ, ◌/◌, ◌^◌, Bool, false, List, [], ◌∷◌, if◌then◌else◌}
use titan_x.Prelude.Int.{ℤ, pos}
use titan_x.Prelude.Text.{Text, codes, text_eq}
use titan_x.Prelude.Results.{Result, ok, err, ◌>>=◌}
use titan_x.Prelude.Floats.{Floats}
use titan_x.Model.World.{World, now}
use titan_x.Engine.MatchingEngine
use titan_x.Engine.MatchingEngine.{Exchange, Consumers, submit}
use titan_x.Serialization.Library.{JsonLibrary}
use titan_x.Serialization.Orders.{front}
use titan_x.Gateway.RateLimiter.{RateLimiter}
use titan_x.Gateway.JwtTokenService.{JwtLibrary, JwtClaims, no_claims, validate_and_extract}
use titan_x.Gateway.HttpServer.Requests.{Request}

pub record Response : Type 0 where
  pub code : ℕ
  pub body : Text
  pub headers : List (Text × Text)

abbrev pub json_header : List (Text × Text)
json_header = (codes "Content-Type", codes "application/json") ∷ []

-- The objects that the handlers refer to; the token service has no state.
pub record Server (S : Type 0) : Type 0 where
  pub exchange : Exchange S
  pub limiter : RateLimiter

abbrev pub Reply : Type 0 → Type 0
Reply S = Result Response × Server S

-- The characters after the first seven.
abbrev pub after_seven : Text → Text
after_seven (_ ∷ _ ∷ _ ∷ _ ∷ _ ∷ _ ∷ _ ∷ s) = s
after_seven _ = []

abbrev pub set_world : {S : Type 0} → Server S → World → Server S
set_world s w = record s { exchange = record s.exchange { world = w } }

-- A reading of the steady clock in milliseconds.
abbrev pub now_ms : World → ℤ × World
now_ms w = let (t, w1) = now w in (pos (t / 10 ^ 6), w1)

module _ (F : Floats) (J : JsonLibrary F) (L : JwtLibrary) {S : Type 0} (c : Consumers S) where
  -- `crow::response(code, json.dump())`, with its headers.
  unfoldable pub respond : ℕ → List (Text × J.Json) → List (Text × Text) → Result Response
  respond code fields headers = do
    body ← J.dump (J.object fields)
    ok (record { code = code; body = body; headers = headers })

  abbrev pub text_field : Text → Text → Text × J.Json
  text_field name value = (name, J.of_text value)

  unfoldable pub authenticate : Request → Server S → (Bool × JwtClaims) × Server S
  authenticate req s =
      if text_eq (front 7 req.authorization) (codes "Bearer ")
      then (let (claims, w) =
            validate_and_extract L (after_seven req.authorization) s.exchange.world in
          ((claims.valid, claims), set_world s w))
      else ((false, record no_claims { error = codes "Missing Authorization header" }), s)

  -- The handler's `catch (const std::exception& e)`.
  abbrev pub catching : Reply S → Reply S
  catching (ok r, s) = (ok r, s)
  catching (err what, s) = (
    respond 400
        (text_field (codes "error") (codes "INVALID_REQUEST")
          ∷ text_field (codes "message") what
          ∷ [])
        [],
    s,
  )

  abbrev pub unauthorized : Server S → Reply S
  unauthorized s = (respond 401 (text_field (codes "error") (codes "UNAUTHORIZED") ∷ []) [], s)

  abbrev pub with_engine : Server S → MatchingEngine.MatchingEngine → Server S
  with_engine s m = record s { exchange = record s.exchange { engine = m } }
