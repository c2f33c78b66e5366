-- ===== src/Gateway/JwtTokenService.antt =====
-- class JwtTokenService (backend/src/gateway/JwtTokenService.cpp and its header). jwt-cpp is not
-- part of the repository: what the code calls of it is a parameter. The logging is left out.
pub mod Permissions
pub mod Tokens
pub mod Samples
mod Examples
use titan_x.Prelude.{
  ℕ, ◌+◌, ◌*◌, ◌^◌, Bool, true, false, List, [], ◌∷◌, ◌++◌, ltb, ◌==◌, if◌then◌else◌,
}
use titan_x.Prelude.Text.{Text, codes}
use titan_x.Prelude.Map.{Map}
use titan_x.Prelude.Results.{Result, ok, err}
use titan_x.Model.World.{World, now}

-- What `jwt::create()` is told before `sign`. Times are readings of the system clock in
-- nanoseconds.
pub record Payload : Type 0 where
  pub issuer : Text
  pub subject : Text
  pub claims : Map Text
  pub issued_at : ℕ
  pub expires_at : ℕ

pub record JwtLibrary : Type 1 where
  pub Decoded : Type 0
  -- `sign(hs256{secret})`
  pub sign : Text → Payload → Text
  pub decode : Text → Result Decoded
  -- `verify().allow_algorithm(hs256{secret}).with_issuer(issuer)`, at a reading of the clock
  pub verify : Text → Text → ℕ → Decoded → Result (Unit {0})
  pub get_subject : Decoded → Result Text
  -- `get_payload_claim(name).as_string()`
  pub get_claim : Decoded → Text → Result Text
  pub has_claim : Decoded → Text → Bool
  pub get_expires_at : Decoded → Result ℕ

pub record JwtClaims : Type 0 where
  pub account_id : Text
  pub permissions : List Text
  pub token_type : Text
  pub valid : Bool
  pub error : Text

abbrev pub no_claims : JwtClaims
no_claims = record { account_id = []; permissions = []; token_type = []; valid = false; error = [] }

abbrev pub signing_secret : Text
signing_secret = codes "titanx-secret-key-minimum-256-bits-for-hs256!!"

abbrev pub issuer : Text
issuer = codes "titanx"

abbrev pub seconds : ℕ → ℕ
seconds n = n * 10 ^ 9

-- 15 minutes, and 24 hours.
abbrev pub access_token_ttl : ℕ
access_token_ttl = seconds 900

abbrev pub refresh_token_ttl : ℕ
refresh_token_ttl = seconds 86400

-- The permissions after the first, each with its comma.
unfoldable pub join_rest : List Text → Text
join_rest [] = []
join_rest (p ∷ ps) = b',' ∷ (p ++ join_rest ps)

-- `permsStr`
unfoldable pub join : List Text → Text
unfolding join_rest
join [] = []
join (p ∷ ps) = p ++ join_rest ps

-- `if (!perm.empty()) claims.permissions.push_back(perm)`
abbrev pub push_nonempty : Text → List Text → List Text
push_nonempty [] permissions = permissions
push_nonempty (c ∷ perm) permissions = permissions ++ (c ∷ perm) ∷ []

-- `for (char c : permsStr)`, with what follows the loop.
unfoldable pub split : Text → Text → List Text → List Text
split [] perm permissions = push_nonempty perm permissions
split (c ∷ s) perm permissions =
    let comma = split s [] (push_nonempty perm permissions) in
    let other = split s (perm ++ c ∷ []) permissions in if c == b',' then comma else other

abbrev pub fail : JwtClaims → Text → JwtClaims
fail c what = record c { valid = false; error = what }

module _ (L : JwtLibrary) where
  unfoldable pub generate_access_token : Text → List Text → World → Text × World
  unfolding now join
  generate_access_token account_id permissions w =
      let (t, w1) = now w in
      let payload : Payload = record {
        issuer = issuer;
        subject = account_id;
        claims =
            (codes "accountId", account_id)
            ∷ (codes "permissions", join permissions)
            ∷ (codes "tokenType", codes "ACCESS")
            ∷ [];
        issued_at = t;
        expires_at = t + access_token_ttl;
      } in
      (L.sign signing_secret payload, w1)

  unfoldable pub generate_refresh_token : Text → Text → World → Text × World
  unfolding now
  generate_refresh_token account_id session_id w =
      let (t, w1) = now w in
      let payload : Payload = record {
        issuer = issuer;
        subject = account_id;
        claims = (codes "sessionId", session_id) ∷ (codes "tokenType", codes "REFRESH") ∷ [];
        issued_at = t;
        expires_at = t + refresh_token_ttl;
      } in
      (L.sign signing_secret payload, w1)

  -- The permissions claim, and the end of the try block.
  unfoldable pub extract_permissions : L.Decoded → JwtClaims → JwtClaims
  unfolding split
  extract_permissions d c =
      if L.has_claim d (codes "permissions")
      then elim (L.get_claim d (codes "permissions")) [
        | err what ↦ fail c what
        | ok perms ↦ record c { permissions = split perms [] []; valid = true }
      ]
      else record c { valid = true }

  unfoldable pub extract : L.Decoded → JwtClaims
  unfolding extract_permissions
  extract d = elim (L.get_subject d) [
    | err what ↦ fail no_claims what
    | ok subject ↦
        let c : JwtClaims = record no_claims { account_id = subject } in
        elim (L.get_claim d (codes "tokenType")) [
          | err what ↦ fail c what
          | ok token_type ↦ extract_permissions d (record c { token_type = token_type })
        ]
  ]

  -- The clock is read by `verify`, once the token is decoded.
  unfoldable pub validate_and_extract : Text → World → JwtClaims × World
  unfolding now extract
  validate_and_extract token w = elim (L.decode token) [
    | err what ↦ (fail no_claims what, w)
    | ok d ↦
        let (t, w1) = now w in
        (
          elim (L.verify signing_secret issuer t d) [
            | err what ↦ fail no_claims what
            | ok _ ↦ extract d
          ],
          w1,
        )
  ]

  unfoldable pub is_expired : Text → World → Bool × World
  unfolding now
  is_expired token w = elim (L.decode token) [
    | err _ ↦ (true, w)
    | ok d ↦ elim (L.get_expires_at d) [
      | err _ ↦ (true, w)
      | ok exp ↦ let (t, w1) = now w in (ltb exp t, w1)
    ]
  ]
