-- ===== src/Gateway/RateLimiter/Rate.antt =====
-- The bound of a standard bucket on what it grants.
use titan_x.Prelude.{
  ℕ, ◌+◌, ◌-◌, ◌*◌, ◌/◌, ◌^◌, ◌<◌, ◌≤◌, ◌≡◌, Bool, true, false, List, [], ◌∷◌, if◌then◌else◌, arith,
  ltb, leb, Bool-cases, inl, inr, All,
}
use titan_x.Prelude.Int.{pos, ◌+ℤ◌, ◌-ℤ◌, ◌*ℤ◌, ◌/ℤ◌, min_ℤ}
use titan_x.Gateway.RateLimiter.{TokenBucket, refill, try_consume}

-- A bucket of the limiter with `n` tokens and its last refill at `l`.
abbrev pub bucket : ℕ → ℕ → TokenBucket
bucket n l = record {
  capacity = pos 100;
  refill_per_second = pos 100;
  tokens = pos n;
  last_refill_time_ms = pos l;
}

-- The state after a refill, in exact arithmetic.
abbrev refilled : ℕ → ℕ → ℕ → TokenBucket
refilled t n l =
    if leb t l
    then bucket n l
    else if ltb 0 ((t - l) * 100 / 1000)
    then (if ltb (n + (t - l) * 100 / 1000) 100
        then bucket (n + (t - l) * 100 / 1000) t
        else bucket 100 t)
    else bucket n l

refill_lem :
    (t n l : ℕ) → t < 2 ^ 50 → l < 2 ^ 50 → n ≤ 100 → refill (pos t) (bucket n l) ≡ refilled t n l
unfolding refill ◌-ℤ◌ ◌*ℤ◌ ◌/ℤ◌ ◌+ℤ◌ min_ℤ
refill_lem t n l h k j = ground arith

abbrev pub count : Bool → ℕ
count granted = if granted then 1 else 0

-- What one request does to a bucket with at most 100 tokens.
record Step (t n l : ℕ) : Type 0 where
  granted : Bool
  tokens : ℕ
  last : ℕ
  result : try_consume (pos t) (bucket n l) ≡ (granted, bucket tokens last)
  full : tokens ≤ 100
  later : l ≤ last
  bounded : last ≤ t + (l - t)
  spent : 10 * (count granted + tokens) + l ≤ 10 * n + last

consume_lem :
    (t n l n' l' : ℕ)
    → refill (pos t) (bucket n l) ≡ bucket n' l'
    → n' ≤ 100
    → try_consume (pos t) (bucket n l)
      ≡ (if ltb 0 n' then (true, bucket (n' - 1) l') else (false, bucket n' l'))
unfolding try_consume ◌-ℤ◌
consume_lem t n l n' l' e h = rw e (ground arith)

refilled-Step :
    (t n l n' l' : ℕ)
    → refill (pos t) (bucket n l) ≡ bucket n' l'
    → n' ≤ 100
    → l ≤ l'
    → l' ≤ t + (l - t)
    → 10 * n' + l ≤ 10 * n + l'
    → Step t n l
refilled-Step t n l n' l' e h k b s = elim (Bool-cases (ltb 0 n')) [
  | inl z ↦ record {
    granted = true;
    tokens = n' - 1;
    last = l';
    result = rw z at (consume_lem t n l n' l' e h);
    full = omega (arith, h);
    later = k;
    bounded = b;
    spent = ground (arith, z, s);
  }
  | inr z ↦ record {
    granted = false;
    tokens = n';
    last = l';
    result = rw z at (consume_lem t n l n' l' e h);
    full = h;
    later = k;
    bounded = b;
    spent = omega (arith, s);
  }
]

try_consume-Step : (t n l : ℕ) → t < 2 ^ 50 → l < 2 ^ 50 → n ≤ 100 → Step t n l
try_consume-Step t n l h k j = elim (Bool-cases (leb t l)) [
  | inl a ↦
      refilled-Step t n l n l (ground (arith, refill_lem t n l h k j)) j (omega arith) (omega arith)
        (omega arith)
  | inr a ↦ elim (Bool-cases (ltb 0 ((t - l) * 100 / 1000))) [
    | inr b ↦
        refilled-Step t n l n l (ground (arith, refill_lem t n l h k j)) j (omega arith)
          (omega arith) (omega arith)
    | inl b ↦ elim (Bool-cases (ltb (n + (t - l) * 100 / 1000) 100)) [
      | inl d ↦
          refilled-Step t n l (n + (t - l) * 100 / 1000) t (ground (arith, refill_lem t n l h k j))
            (ground arith) (ground arith) (omega arith) (ground arith)
      | inr d ↦
          refilled-Step t n l 100 t (ground (arith, refill_lem t n l h k j)) (omega arith)
            (ground arith) (omega arith) (ground arith)
    ]
  ]
]

-- The number of grants for requests at the given times.
abbrev pub grants : List ℕ → TokenBucket → ℕ
grants [] b = 0
grants (t ∷ ts) b = let r = try_consume (pos t) b in count r.0 + grants ts r.1

-- A standard bucket with `n` tokens, last refilled at `l`, grants at most `n` requests and one more
-- for each 10 ms until the time `until` of the last request, whatever the order of the clock's
-- readings (all below 2^50 ms) and the number of requests.
pub grants_le :
    (ts : List ℕ) (n l until : ℕ)
    → All (λ t. t ≤ until) ts
    → until < 2 ^ 50
    → l ≤ until
    → n ≤ 100
    → 10 * grants ts (bucket n l) ≤ 10 * n + (until - l)
grants_le [] n l until h b k j = omega arith
grants_le (t ∷ ts) n l until h b k j =
    let s = try_consume-Step t n l (omega (arith, h.0, b)) (omega arith) j in
    let ih = grants_le ts s.tokens s.last until h.1 b (omega (arith, s.bounded, h.0, k)) s.full in
    rw (s.result) (omega (arith, ih, s.spent, s.later, s.bounded, h.0, k))
