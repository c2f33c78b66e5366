-- ===== src/Gateway/HttpServer/Access.antt =====
-- Who gets through to the engine.
use titan_x.Prelude.{
  ℕ, ◌≡◌, refl, inl, inr, false, List, [], ◌∷◌, ◌++◌, ◌∙◌, ap, Option, some, arith, Bool-cases,
}
use titan_x.Prelude.Text.{Text, codes, text_eq, text_eq_iff}
use titan_x.Prelude.Results.{Result, ok, Result-cases}
use titan_x.Prelude.Floats.{Floats}
use titan_x.Model.World.{World, now}
use titan_x.Serialization.Library.{JsonLibrary}
use titan_x.Serialization.Orders.{front}
use titan_x.Engine.MatchingEngine.{Consumers}
use titan_x.Gateway.JwtTokenService.{JwtLibrary, signing_secret, issuer, validate_and_extract}
use titan_x.Gateway.HttpServer.Requests.{Request}
use titan_x.Gateway.HttpServer.Responses.{
  Response, Server, Reply, set_world, respond, after_seven, authenticate,
}
use titan_x.Gateway.HttpServer.Orders.{post_order, delete_order}
use titan_x.Gateway.HttpServer.Operations.{admin_halt, admin_resume}

-- The routes that ask for a token.
pub data Protected : Type 0 where
  posts : Protected
  deletes : Text → Protected
  halts : Protected
  resumes : Protected

front-after_seven : (t : Text) → t ≡ front 7 t ++ after_seven t
front-after_seven [] = refl
front-after_seven (_ ∷ []) = refl
front-after_seven (_ ∷ _ ∷ []) = refl
front-after_seven (_ ∷ _ ∷ _ ∷ []) = refl
front-after_seven (_ ∷ _ ∷ _ ∷ _ ∷ []) = refl
front-after_seven (_ ∷ _ ∷ _ ∷ _ ∷ _ ∷ []) = refl
front-after_seven (_ ∷ _ ∷ _ ∷ _ ∷ _ ∷ _ ∷ []) = refl
front-after_seven (_ ∷ _ ∷ _ ∷ _ ∷ _ ∷ _ ∷ _ ∷ t) = refl

module _ (F : Floats) (J : JsonLibrary F) (L : JwtLibrary) {S : Type 0} (c : Consumers S) where
  unfoldable pub handle : Protected → Request → Server S → Option (Reply S)
  handle posts req s = post_order F J L c req s
  handle (deletes order_id) req s = delete_order F J L c order_id req s
  handle halts req s = admin_halt F J L c req s
  handle resumes req s = admin_resume F J L c req s

  -- A response with the code, unless the library fails to print its body.
  abbrev pub HasCode : ℕ → Result Response → Type 0
  HasCode code r = (resp : Response) → r ≡ ok resp → resp.code ≡ code

  pub respond-HasCode :
      (code : ℕ) (fields : List (Text × J.Json)) (headers : List (Text × Text))
      → HasCode code (respond F J L c code fields headers)
  unfolding respond
  respond-HasCode code fields headers resp h = ground arith

  -- Authentication reads the clock, if at all.
  pub authenticate-world :
      (req : Request) (s : Server S)
      → (w : World) × ((authenticate F J L c req s).1 ≡ set_world s w)
  unfolding authenticate
  authenticate-world req s =
      elim (Bool-cases (text_eq (front 7 req.authorization) (codes "Bearer "))) [
        | inl y ↦ rw y (_, refl)
        | inr n ↦ rw n (s.exchange.world, refl)
      ]

  -- A request that bears a token which the library decodes and verifies, with the secret and the
  -- issuer of the service, at the reading of the clock.
  pub record IsVerified (req : Request) (s : Server S) : Type 0 where
    pub token : Text
    pub decoded : L.Decoded
    pub bearer : req.authorization ≡ codes "Bearer " ++ token
    pub decodes : L.decode token ≡ ok decoded
    pub verifies : L.verify signing_secret issuer (now s.exchange.world).0 decoded ≡ ok tt

  after_bearer : (t : Text) → front 7 t ≡ codes "Bearer " → t ≡ codes "Bearer " ++ after_seven t
  after_bearer t h = front-after_seven t ∙ ap (λ u. u ++ after_seven t) h

  invalid :
      (req : Request) (s : Server S)
      → req.authorization ≡ codes "Bearer " ++ after_seven req.authorization
      → ¬ IsVerified req s
      → (validate_and_extract L (after_seven req.authorization) s.exchange.world).0.valid ≡ false
  unfolding validate_and_extract now
  invalid req s e n = elim (Result-cases (L.decode (after_seven req.authorization))) [
    | inl (what, d) ↦ rw (d, validate_and_extract) refl
    | inr (t, d) ↦ elim (Result-cases (L.verify signing_secret issuer (now s.exchange.world).0 t)) [
      | inl (what, v) ↦ rw (d, v, validate_and_extract) refl
      | inr (u, v) ↦ absurd (
          n (record {
            token = after_seven req.authorization;
            decoded = t;
            bearer = e;
            decodes = d;
            verifies = v;
          }))
    ]
  ]

  -- Nothing but such a token gets through.
  authenticate-unverified :
      (req : Request) (s : Server S) → ¬ IsVerified req s → (authenticate F J L c req s).0.0 ≡ false
  unfolding authenticate
  authenticate-unverified req s n =
      elim (Bool-cases (text_eq (front 7 req.authorization) (codes "Bearer "))) [
        | inl y ↦
            let e =
              after_bearer req.authorization
                ((text_eq_iff (front 7 req.authorization) (codes "Bearer ")).0 y) in
            rw y (invalid req s e n)
        | inr f ↦ rw f refl
      ]

  abbrev denied : List (Text × J.Json)
  denied = (codes "error", J.of_text (codes "UNAUTHORIZED")) ∷ []

  -- A request that does not bear, after "Bearer ", a token which the library decodes and verifies
  -- with the secret and the issuer of the service changes nothing but the position of the clock, on
  -- every route that asks for a token, and the code of the answer is 401, unless the library fails
  -- to print its body.
  pub handle-unauthorized :
      (p : Protected) (req : Request) (s : Server S)
      → ¬ IsVerified req s
      → (r : Result Response) × (w : World) × (handle p req s ≡ some (r, set_world s w))
        × HasCode 401 r
  unfolding handle post_order delete_order admin_halt admin_resume
  handle-unauthorized posts req s n =
      let h = authenticate-unverified req s n in
      let (w, e) = authenticate-world req s in
      let claims = (authenticate F J L c req s).0.1 in
      (
        respond F J L c 401
            ((codes "error", J.of_text (codes "UNAUTHORIZED"))
              ∷ (codes "message", J.of_text claims.error)
              ∷ [])
            [],
        w,
        rw (h, e) refl,
        respond-HasCode 401 _ _,
      )
  handle-unauthorized (deletes order_id) req s n =
      let h = authenticate-unverified req s n in
      let (w, e) = authenticate-world req s in
      (respond F J L c 401 denied [], w, rw (h, e) refl, respond-HasCode 401 denied [])
  handle-unauthorized halts req s n =
      let h = authenticate-unverified req s n in
      let (w, e) = authenticate-world req s in
      (respond F J L c 401 denied [], w, rw (h, e) refl, respond-HasCode 401 denied [])
  handle-unauthorized resumes req s n =
      let h = authenticate-unverified req s n in
      let (w, e) = authenticate-world req s in
      (respond F J L c 401 denied [], w, rw (h, e) refl, respond-HasCode 401 denied [])
