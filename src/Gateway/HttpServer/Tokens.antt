-- ===== src/Gateway/HttpServer/Tokens.antt =====
-- What a token of the service lets its bearer do.
use titan_x.Prelude.{◌+◌, ◌^◌, ◌<◌, ◌≤◌, ◌≡◌, refl, true, List, [], ◌++◌, some, All}
use titan_x.Prelude.Text.{Text, codes, text_eq}
use titan_x.Prelude.Results.{Result}
use titan_x.Prelude.Floats.{Floats}
use titan_x.Model.World.{World, now}
use titan_x.Serialization.Library.{JsonLibrary}
use titan_x.Engine.MatchingEngine.{Consumers}
use titan_x.Engine.MatchingEngine
use titan_x.Gateway.JwtTokenService.{
  JwtLibrary, validate_and_extract, generate_access_token, generate_refresh_token, access_token_ttl,
  refresh_token_ttl,
}
use titan_x.Gateway.JwtTokenService.Permissions.{IsPermission}
use titan_x.Gateway.JwtTokenService.Tokens.{
  IsLawful, validate-generate_access_token, validate-generate_refresh_token,
}
use titan_x.Gateway.HttpServer.Requests.{Request}
use titan_x.Gateway.HttpServer.Responses.{Response, Server, authenticate}
use titan_x.Gateway.HttpServer.Operations.{admin_halt}

module _ (F : Floats) (J : JsonLibrary F) (L : JwtLibrary) {S : Type 0} (c : Consumers S) where
  -- The header's prefix is dropped, and nothing else of it.
  authenticate-bearer :
      (req : Request) (s : Server S) (token : Text)
      → req.authorization ≡ codes "Bearer " ++ token
      → (authenticate F J L c req s).0 ≡ (
        (validate_and_extract L token s.exchange.world).0.valid,
        (validate_and_extract L token s.exchange.world).0,
      )
  unfolding authenticate text_eq
  authenticate-bearer req s token h = rw h refl

  module _ (lawful : IsLawful L) (w : World) (req : Request) (s : Server S)
      (issued : (now w).0 ≤ (now s.exchange.world).0) where
    -- With a token library that does as documented: a request that bears an access token of the
    -- service, from its issue until a second before its expiry (in nanoseconds, below 2^63), is
    -- authenticated as its account, with its permissions (none empty, none with a comma).
    pub authenticate-generate_access_token :
        (account_id : Text) (permissions : List Text)
        → All IsPermission permissions
        → (now w).0 + access_token_ttl < 2 ^ 63
        → (now s.exchange.world).0 + 10 ^ 9 ≤ (now w).0 + access_token_ttl
        → req.authorization
          ≡ codes "Bearer " ++ (generate_access_token L account_id permissions w).0
        → (authenticate F J L c req s).0 ≡ (
          true,
          record {
            account_id = account_id;
            permissions = permissions;
            token_type = codes "ACCESS";
            valid = true;
            error = [];
          },
        )
    authenticate-generate_access_token account_id permissions h fits live e =
        rw
          (
            authenticate-bearer req s (generate_access_token L account_id permissions w).0 e,
            validate-generate_access_token L lawful w s.exchange.world issued account_id permissions
                h fits live,
          )
          refl

    -- With a token library that does as documented: halting needs no permission, nor even an access
    -- token, for a request that bears a refresh token of any account, from its issue until a second
    -- before its expiry (in nanoseconds, below 2^63), halts the engine.
    pub admin_halt-generate_refresh_token :
        (account_id session_id : Text)
        → (now w).0 + refresh_token_ttl < 2 ^ 63
        → (now s.exchange.world).0 + 10 ^ 9 ≤ (now w).0 + refresh_token_ttl
        → req.authorization
          ≡ codes "Bearer " ++ (generate_refresh_token L account_id session_id w).0
        → (r : Result Response) × (s' : Server S) × (admin_halt F J L c req s ≡ some (r, s'))
          × (s'.exchange.engine.halted ≡ true)
    unfolding admin_halt MatchingEngine.halt
    admin_halt-generate_refresh_token account_id session_id fits live e =
        rw
          (
            authenticate-bearer req s (generate_refresh_token L account_id session_id w).0 e,
            validate-generate_refresh_token L lawful w s.exchange.world issued account_id session_id
                fits live,
          )
          (_, _, refl, refl)
