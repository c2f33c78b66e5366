-- ===== src/Gateway/JwtTokenService/Samples.antt =====
-- A library of tokens that are neither secret nor signed, for the examples: a token is its secret
-- and its payload, written down with the lengths of the texts.
use titan_x.Prelude.{
  ℕ, zero, suc, ◌≡◌, refl, Bool, true, false, ◌&&◌, [], ◌∷◌, ◌++◌, length, leb, if◌then◌else◌, none,
  some, arith,
}
use titan_x.Prelude.Text.{Text, codes, text_eq, text_eq_refl}
use titan_x.Prelude.Map.{Map, lookup}
use titan_x.Prelude.Results.{Result, ok, err}
use titan_x.Gateway.JwtTokenService.{JwtLibrary, Payload, signing_secret}
use titan_x.Gateway.JwtTokenService.Tokens.{IsLawful}

abbrev put : Text → Text → Text
put t rest = length t ∷ (t ++ rest)

abbrev after : ℕ → Text → Text × Text
after zero s = ([], s)
after (suc n) [] = ([], [])
after (suc n) (c ∷ s) = let (a, b) = after n s in (c ∷ a, b)

abbrev get : Text → Text × Text
get [] = ([], [])
get (n ∷ s) = after n s

abbrev put_claims : Map Text → Text → Text
put_claims [] rest = rest
put_claims (c ∷ cs) rest = put c.0 (put c.1 (put_claims cs rest))

abbrev get_claims : ℕ → Text → Map Text × Text
get_claims zero s = ([], s)
get_claims (suc n) s =
    let (k, s1) = get s in
    let (v, s2) = get s1 in let (cs, s3) = get_claims n s2 in ((k, v) ∷ cs, s3)

abbrev encode : Text → Payload → Text
encode k p = put k (
    put p.issuer
      (put p.subject (p.issued_at ∷ p.expires_at ∷ length p.claims ∷ put_claims p.claims [])))

abbrev Plain : Type 0
Plain = Text × Payload

abbrev decode_end : Text → Text → Text → Text → Result Plain
decode_end k issuer subject (issued_at ∷ expires_at ∷ n ∷ s) = ok (
  k,
  record {
    issuer = issuer;
    subject = subject;
    claims = (get_claims n s).0;
    issued_at = issued_at;
    expires_at = expires_at;
  },
)
decode_end k issuer subject _ = err (codes "malformed")

abbrev decode_plain : Text → Result Plain
decode_plain t =
    let (k, s1) = get t in
    let (issuer, s2) = get s1 in let (subject, s3) = get s2 in decode_end k issuer subject s3

abbrev claim : Plain → Text → Result Text
claim d name = elim (lookup name d.1.claims) [
  | none ↦ err (codes "claim not found")
  | some v ↦ ok v
]

abbrev has : Plain → Text → Bool
has d name = elim (lookup name d.1.claims) [ none ↦ false | some v ↦ true ]

abbrev check : Text → Text → ℕ → Plain → Result (Unit {0})
check k issuer t d =
    if text_eq k d.0 && text_eq issuer d.1.issuer && leb t d.1.expires_at
    then ok tt
    else err (codes "token verification failed")

abbrev pub plain_tokens : JwtLibrary
plain_tokens = record {
  Decoded = Plain;
  sign = encode;
  decode = decode_plain;
  verify = check;
  get_subject = λ d. ok d.1.subject;
  get_claim = claim;
  has_claim = has;
  get_expires_at = λ d. ok d.1.expires_at;
}

after-append : (t rest : Text) → after (length t) (t ++ rest) ≡ (t, rest)
after-append [] rest = refl
after-append (c ∷ t) rest = rw (after-append t rest) refl

get_claims-put_claims :
    (cs : Map Text) (rest : Text) → get_claims (length cs) (put_claims cs rest) ≡ (cs, rest)
get_claims-put_claims [] rest = refl
get_claims-put_claims (c ∷ cs) rest =
    rw
      (
        after-append c.0 (put c.1 (put_claims cs rest)),
        after-append c.1 (put_claims cs rest),
        get_claims-put_claims cs rest,
      )
      refl

decode-encode : (k : Text) (p : Payload) → decode_plain (encode k p) ≡ ok (k, p)
decode-encode k p =
    let end = p.issued_at ∷ p.expires_at ∷ length p.claims ∷ put_claims p.claims [] in
    rw
      (
        after-append k (put p.issuer (put p.subject end)),
        after-append p.issuer (put p.subject end),
        after-append p.subject end,
        get_claims-put_claims p.claims [],
      )
      refl

pub plain_tokens-IsLawful : IsLawful plain_tokens
plain_tokens-IsLawful = record {
  reads = λ p _. record {
    decoded = (signing_secret, p);
    decodes = decode-encode signing_secret p;
    subject = refl;
    present = λ c v _ h. ground (arith, h);
    absent = λ c _ h. ground (arith, h);
    verifies = λ t i h. ground (arith, text_eq_refl signing_secret, text_eq_refl p.issuer);
  };
}
