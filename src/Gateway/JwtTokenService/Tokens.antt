-- ===== src/Gateway/JwtTokenService/Tokens.antt =====
-- What the service reads from the tokens that it issues.
use titan_x.Prelude.{
  ℕ, ◌+◌, ◌^◌, ◌<◌, ◌≤◌, false, ◌≡◌, refl, true, false, List, [], ◌∷◌, some, none, All, arith,
}
use titan_x.Prelude.Text.{Text, codes, text_eq}
use titan_x.Prelude.Map.{lookup}
use titan_x.Prelude.Results.{ok}
use titan_x.Model.World.{World, now}
use titan_x.Gateway.JwtTokenService.{
  JwtLibrary, Payload, signing_secret, issuer, access_token_ttl, refresh_token_ttl, join,
  generate_access_token, generate_refresh_token, validate_and_extract, extract, extract_permissions,
}
use titan_x.Gateway.JwtTokenService.Permissions.{IsPermission, split-join}

-- The claims that JWT registers: setters of jwt-cpp store some of them among the others.
abbrev pub registered : List Text
registered =
    codes "iss"
    ∷ codes "sub"
    ∷ codes "aud"
    ∷ codes "exp"
    ∷ codes "nbf"
    ∷ codes "iat"
    ∷ codes "jti"
    ∷ []

abbrev pub IsPrivate : Text → Type 0
IsPrivate c = All (λ r. text_eq c r ≡ false) registered

-- What jwt-cpp documents: a signed token decodes to what was signed, and verifies with the same
-- secret and issuer from its time of issue until a second before its expiry, whose fraction of a
-- second is not stored.
pub record Reads (L : JwtLibrary) (k : Text) (p : Payload) : Type 0 where
  pub decoded : L.Decoded
  pub decodes : L.decode (L.sign k p) ≡ ok decoded
  pub subject : L.get_subject decoded ≡ ok p.subject
  pub present :
      (c v : Text)
      → IsPrivate c
      → lookup c p.claims ≡ some v
      → (L.has_claim decoded c ≡ true) × (L.get_claim decoded c ≡ ok v)
  pub absent : (c : Text) → IsPrivate c → lookup c p.claims ≡ none → L.has_claim decoded c ≡ false
  pub verifies :
      (t : ℕ) → p.issued_at ≤ t → t + 10 ^ 9 ≤ p.expires_at → L.verify k p.issuer t decoded ≡ ok tt

-- So it does for the service's secret and payloads whose expiry the clock can represent.
pub record IsLawful (L : JwtLibrary) : Type 0 where
  pub reads : (p : Payload) → p.expires_at < 2 ^ 63 → Reads L signing_secret p

module _ (L : JwtLibrary) (lawful : IsLawful L) (w w' : World)
    (issued : (now w).0 ≤ (now w').0) where
  -- An access token that is validated no earlier than it was issued and at least a second before
  -- its expiry is valid, with its account and its permissions (none empty, none with a comma).
  pub validate-generate_access_token :
      (account_id : Text) (permissions : List Text)
      → All IsPermission permissions
      → (now w).0 + access_token_ttl < 2 ^ 63
      → (now w').0 + 10 ^ 9 ≤ (now w).0 + access_token_ttl
      → (validate_and_extract L (generate_access_token L account_id permissions w).0 w').0
        ≡ record {
          account_id = account_id;
          permissions = permissions;
          token_type = codes "ACCESS";
          valid = true;
          error = [];
        }
  unfolding validate_and_extract generate_access_token extract extract_permissions lookup text_eq
  validate-generate_access_token account_id permissions h fits live =
      let p : Payload = record {
        issuer = issuer;
        subject = account_id;
        claims =
            (codes "accountId", account_id)
            ∷ (codes "permissions", join permissions)
            ∷ (codes "tokenType", codes "ACCESS")
            ∷ [];
        issued_at = (now w).0;
        expires_at = (now w).0 + access_token_ttl;
      } in
      let r = lawful.reads p fits in
      let kind = r.present (codes "tokenType") (codes "ACCESS") (ground arith) refl in
      let perms = r.present (codes "permissions") (join permissions) (ground arith) refl in
      rw
        (
          validate_and_extract,
          r.decodes,
          r.verifies (now w').0 issued live,
          extract,
          r.subject,
          kind.1,
          extract_permissions,
          perms.0,
          perms.1,
          split-join permissions h,
        )
        refl

  -- So is a refresh token, whose claims show its type and no permission.
  pub validate-generate_refresh_token :
      (account_id session_id : Text)
      → (now w).0 + refresh_token_ttl < 2 ^ 63
      → (now w').0 + 10 ^ 9 ≤ (now w).0 + refresh_token_ttl
      → (validate_and_extract L (generate_refresh_token L account_id session_id w).0 w').0
        ≡ record {
          account_id = account_id;
          permissions = [];
          token_type = codes "REFRESH";
          valid = true;
          error = [];
        }
  unfolding validate_and_extract generate_refresh_token extract extract_permissions lookup text_eq
  validate-generate_refresh_token account_id session_id fits live =
      let p : Payload = record {
        issuer = issuer;
        subject = account_id;
        claims = (codes "sessionId", session_id) ∷ (codes "tokenType", codes "REFRESH") ∷ [];
        issued_at = (now w).0;
        expires_at = (now w).0 + refresh_token_ttl;
      } in
      let r = lawful.reads p fits in
      let kind = r.present (codes "tokenType") (codes "REFRESH") (ground arith) refl in
      let perms = r.absent (codes "permissions") (ground arith) refl in
      rw
        (
          validate_and_extract,
          r.decodes,
          r.verifies (now w').0 issued live,
          extract,
          r.subject,
          kind.1,
          extract_permissions,
          perms,
        )
        refl
